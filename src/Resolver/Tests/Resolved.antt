-- ===== src/Resolver/Tests/Resolved.antt =====
-- The resolution of an application with a library that the store has.
use lar.Base.{ℕ, String, Option, none, some, [], ◌∷◌, ◌≡◌, refl, ok}
use lar.Base.Map.{Map, keys, lookup, contains_key, same_map}
use lar.Package.Manifest.{PackageManifest}
use lar.Resolver.Locked.{Lockfile}
use lar.Resolver.Provider.{get_dependencies}
use lar.Resolver.Resolve.{Solver, resolve_manifest}
use lar.Resolver.Resolve.Stored.{IsResolved, resolve_manifest-IsResolved}
use lar.Resolver.Tests.Chosen.{unary, tests, one_key, no_digest, no_network}
use lar.Store.World.{World, toml}

abbrev hash : String
hash = "blake3:0000000000000000000000000000000000000000000000000000000000000000"

abbrev manifest : String → Option String → Map String → PackageManifest
manifest id content_hash dependencies = record {
  meta = record {
    format = 1;
    id = id;
    name = "Name";
    version = "1";
    description = none;
    content_hash = content_hash;
  };
  dependencies = dependencies;
  entry = none;
  desktop = none;
  platform = none;
}

abbrev root : PackageManifest
root = manifest "org.app" none (("org.lib", "^1") ∷ [])

abbrev world : World
world = record {
  dirs =
      record {
        id = "org.lib";
        version = "1";
        content = toml (ok (manifest "org.lib" (some hash) []));
      }
      ∷ [];
  tmp_adds = [];
  installs = [];
}

-- It asks for the library, and selects it.
abbrev one_library : Solver ℕ tests.Ranges
one_library provider id version c =
    let (_, c') = provider.get_dependencies "org.lib" 1 c in
    (ok ((id, version) ∷ ("org.lib", 1) ∷ []), c')

abbrev lock : Lockfile
lock = record {
  format = 1;
  root = record { id = "org.app"; version = "1" };
  packages =
      record {
        id = "org.app";
        version = "1";
        content_hash = none;
        dependencies = ("org.lib", "^1") ∷ [];
      }
      ∷ record { id = "org.lib"; version = "1"; content_hash = some hash; dependencies = [] }
      ∷ [];
}

is_resolved :
    (resolve_manifest one_key no_digest no_network none none unary tests one_library world root).0
    ≡ ok lock
unfolding resolve_manifest get_dependencies keys lookup contains_key same_map
is_resolved = refl

resolve_manifest-IsResolved_example :
    IsResolved one_key no_digest no_network none none world root lock
      (resolve_manifest one_key no_digest no_network none none unary tests one_library world root).1
resolve_manifest-IsResolved_example =
    resolve_manifest-IsResolved one_key no_digest no_network none none unary tests one_library world
      root lock is_resolved
