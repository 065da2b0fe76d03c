-- ===== src/Resolver/Tests/Chosen.antt =====
-- The choice of a version at a concrete store.
use lar.Base.{
  ℕ, String, Bool, true, ◌&&◌, none, some, [], ◌∷◌, ◌≡◌, refl, ok, ltb, leb, ◌==◌, arith, codes,
  length, if◌then◌else◌,
}
use lar.Base.Map.{lookup}
use lar.Package.Manifest.{PackageManifest}
use lar.Repo.Advisories.{Digest}
use lar.Repo.Fetch.{Network}
use lar.Repo.Trust.{Crypto}
use lar.Repo.Versions.{DepVersionList}
use lar.Resolver.Requirement.{RangeLib}
use lar.Resolver.Provider.{Caches, choose_version}
use lar.Resolver.Provider.Highest.{IsChoice, IsCoherent, listing, choose_version-IsChoice}
use lar.Semver.{Semver, IsOrdered}
use lar.Store.World.{PackageDir, World, toml}

-- Versions are numbers, written as so many digits.
abbrev pub unary : Semver
unary = record {
  Version = ℕ;
  new = λ a b c. a;
  parse = λ s. if s == "" then none else some (length (codes s));
  show = λ v. "1";
  lt = ltb;
  parse_req = λ s. none;
}

unary-IsOrdered : IsOrdered unary
unary-IsOrdered = record {
  lt-irrefl = λ a. ground arith;
  lt-trans = λ a b c h k. ground arith;
  lt-total = λ a b h k. ground arith;
}

-- A range is the test of its members.
abbrev pub tests : RangeLib unary
tests = record {
  Ranges = ℕ → Bool;
  full = λ v. true;
  singleton = λ a v. leb a v && leb v a;
  strictly_higher_than = λ a v. ltb a v;
  higher_than = λ a v. leb a v;
  strictly_lower_than = λ a v. ltb v a;
  lower_than = λ a v. leb v a;
  between = λ a b v. leb a v && ltb v b;
  intersection = λ r s v. r v && s v;
  contains = λ r v. r v;
}

abbrev manifest : String → PackageManifest
manifest version = record {
  meta = record {
    format = 1;
    id = "org.lib";
    name = "Library";
    version = version;
    description = none;
    content_hash = some "blake3:bb";
  };
  dependencies = [];
  entry = none;
  desktop = none;
  platform = none;
}

abbrev stored : String → PackageDir
stored version = record {
  id = "org.lib";
  version = version;
  content = toml (ok (manifest version));
}

abbrev world : World
world = record {
  dirs = stored "1.0.0" ∷ stored "1.0.0-rc" ∷ stored "1.0.0-beta" ∷ [];
  tmp_adds = [];
  installs = [];
}

abbrev caches : Caches ℕ
caches = record { cache = []; versions = []; source_probes = [] }

abbrev pub one_key : Crypto
one_key = record {
  VerifyingKey = Unit;
  decode = λ s. none;
  encode = λ bytes. "key";
  from_bytes = λ bytes. some tt;
  as_bytes = λ key. [];
  verify = λ key message sig. true;
}

abbrev pub no_digest : Digest
no_digest = record { payload = λ format advs. none; blake3 = λ text. text }

abbrev pub no_network : Network
no_network = record {
  SourceBase = Unit;
  parse_uri = λ uri. ok tt;
  index_toml = λ base. ok (record { format = 1; packages = [] });
  advisories_toml = λ base. ok none;
  blob = λ base file.
      ok (record { inspected = ok "blake3:bb"; extracted = ok (toml (ok (manifest "1.0.0"))) });
}

-- The length 10 is out of the range; the length 8 is the highest in it.
chosen :
    (choose_version unary tests one_key no_digest no_network world none none "org.app" 1 []
      "org.lib"
      (λ v. ltb v 10)
      caches).0
    ≡ ok (some 8)
unfolding choose_version
chosen = refl

choose_version-IsChoice_example :
    ((listed : DepVersionList) × (listing unary tests unary-IsOrdered one_key no_digest no_network
          world none none "org.lib"
        ≡ ok listed)
      × IsChoice unary tests listed (λ v. ltb v 10) (some 8))
    × IsCoherent unary tests unary-IsOrdered one_key no_digest no_network world none none
        (choose_version unary tests one_key no_digest no_network world none none "org.app" 1 []
          "org.lib"
          (λ v. ltb v 10)
          caches).1
unfolding lookup
choose_version-IsChoice_example =
    choose_version-IsChoice unary tests unary-IsOrdered one_key no_digest no_network world none none
      "org.app" 1 [] "org.lib" (λ v. ltb v 10) caches (some 8) (λ id vs h. cc) refl chosen
