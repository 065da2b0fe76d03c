-- ===== src/Manager/Tests/Sample.antt =====
-- A home with an application in its store, before and after two installs.
use lar.Base.{String, true, false, none, some, [], ◌∷◌, ok}
use lar.Package.Manifest.{PackageManifest}
use lar.Repo.Advisories.{Digest}
use lar.Repo.Fetch.{Network}
use lar.Repo.Trust.{Crypto}
use lar.Resolver.Locked.{Lockfile}
use lar.Runtime.Compose.{copy}
use lar.Store.World.{toml}
use lar.Manager.Record.{InstallPackage, InstallRecord}
use lar.Manager.Home.{Home, holds, world}
use lar.Manager.Ops.{InstallOutcome}
use lar.Manager.Parts.{Parts}

abbrev pub pinned : InstallPackage
pinned = record { id = "org.app"; version = "1.0.0"; content_hash = "blake3:aa" }

abbrev recorded : String → InstallRecord
recorded runtime_id = record {
  format = 1;
  id = "org.app";
  version = "1.0.0";
  content_hash = "blake3:aa";
  runtime_id = runtime_id;
  compose = copy;
  packages = pinned ∷ [];
}

abbrev pub first : InstallRecord
first = recorded "one"

abbrev pub second : InstallRecord
second = recorded "two"

abbrev manifest : PackageManifest
manifest = record {
  meta = record {
    format = 1;
    id = "org.app";
    name = "App";
    version = "1.0.0";
    description = none;
    content_hash = some "blake3:aa";
  };
  dependencies = [];
  entry = none;
  desktop = none;
  platform = none;
}

abbrev lock : Lockfile
lock = record {
  format = 1;
  root = record { id = "org.app"; version = "1.0.0" };
  packages =
      record {
        id = "org.app";
        version = "1.0.0";
        content_hash = some "blake3:aa";
        dependencies = [];
      }
      ∷ [];
}

abbrev pub fetched : Home Unit
fetched = record {
  dirs = record { id = "org.app"; version = "1.0.0"; content = toml (ok manifest) } ∷ [];
  tmp_adds = [];
  apps = [];
  runtimes = [];
  sources_toml = none;
  trust_toml = none;
  desk = tt;
}

abbrev pub home : Home Unit
home = record fetched {
  apps = record { name = "org.app"; install_toml = holds second; previous_toml = holds first } ∷ [];
  runtimes = "one" ∷ "two" ∷ [];
}

abbrev pub parts : Parts Unit
parts = record {
  archive_at = λ path. record { inspected = ok "blake3:aa"; extracted = ok (toml (ok manifest)) };
  resolve_manifest = λ h m. (ok lock, world h);
  build = λ h l compose. (ok "one", "one" ∷ h.runtimes);
  publish_exports = λ h r. (ok [], tt);
  publish_desktop = λ h r. (ok tt, tt);
  remove_exports = λ h id. (ok tt, tt);
  remove_desktop = λ h id. (ok tt, tt);
  probe = λ cap. record { capability = cap; present = true; detail = "" };
  ensure_libexec_lar_exec = λ h. ok tt;
  run_runtime_entry = λ h r binary args. ok 0;
}

abbrev pub installed : InstallOutcome
installed = record { installed = first; replaced = false; path_shadows = [] }

-- No signatures and no sources.
abbrev pub one_key : Crypto
one_key = record {
  VerifyingKey = Unit;
  decode = λ s. none;
  encode = λ bytes. "key";
  from_bytes = λ bytes. some tt;
  as_bytes = λ key. [];
  verify = λ key message sig. true;
}

abbrev pub no_digest : Digest
no_digest = record { payload = λ format advs. none; blake3 = λ text. text }

abbrev pub no_network : Network
no_network = record {
  SourceBase = Unit;
  parse_uri = λ uri. ok tt;
  index_toml = λ base. ok (record { format = 1; packages = [] });
  advisories_toml = λ base. ok none;
  blob =
      λ base file. ok (record { inspected = ok "blake3:aa"; extracted = ok (toml (ok manifest)) });
}
