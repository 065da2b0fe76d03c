-- ===== src/Manager/Home/Pinned.antt =====
-- The packages of an install record are pinned for crates/lar-store.
use lar.Base.{
  String, true, false, not, ◌||◌, some, List, ◌==◌, ◌≡◌, refl, nat_eq, map, Memᴰ, find-some,
  Memᴰ-map, eq_iff, inl, inr, guard-eq-ok, arith,
}
use lar.Store.World.{InstallPinFile, is_hidden}
use lar.Store.Pins.Recorded.{IsPinned}
use lar.Manager.Record.{InstallPackage, InstallRecord, validate, install_format}
use lar.Manager.Home.{RecordFile, holds, AppDir, pin_package, pin_dir}
use lar.Manager.Installs.{is_app, find_app}
use lar.Manager.Replace.{dir}
use lar.Manager.Replace.Outcome.{IsValid}

-- What `validate` says of the fields that crates/lar-store reads.
IsValid-fields :
    (r : InstallRecord) → IsValid r → (nat_eq r.format 1 ≡ true) × ((r.id == "") ≡ false)
unfolding validate
IsValid-fields r v =
    let (f, v1) = guard-eq-ok (nat_eq r.format install_format) _ _ v in
    let (e, v2) = guard-eq-ok (not (r.id == "" || r.version == "")) _ _ v1 in (f, ground arith)

-- A directory that is found is listed.
find_app-Memᴰ :
    (apps : List AppDir) (name : String) (a : AppDir) → find_app apps name ≡ some a → Memᴰ a apps
unfolding find_app
find_app-Memᴰ apps name a e = (find-some (is_app name) apps e).0

abbrev pin_file : InstallRecord → InstallPinFile
pin_file r = record { format = r.format; id = r.id; packages = map pin_package r.packages }

-- A package that the active record of a directory names is pinned.
pub find_app-IsPinned :
    (apps : List AppDir) (name : String) (r : InstallRecord) (stashed : RecordFile)
    (p : InstallPackage)
    → is_hidden name ≡ false
    → find_app apps name ≡ some (dir name (holds r) stashed)
    → IsValid r
    → Memᴰ p r.packages
    → IsPinned (map pin_dir apps) p.id p.version
find_app-IsPinned apps name r stashed p shown e v m =
    let (f, named) = IsValid-fields r v in
    let a = dir name (holds r) stashed in
    record {
      dir = pin_dir a;
      here = (Memᴰ-map pin_dir apps (pin_dir a)).1 (a, find_app-Memᴰ apps name a e, refl);
      shown = shown;
      pin = pin_file r;
      text = inl refl;
      pinning = record {
        has_id = λ k. cc (named, (eq_iff r.id "").1 k);
        format = inr (ground (arith, f));
        pinned = pin_package p;
        listed = (Memᴰ-map pin_package r.packages (pin_package p)).1 (p, m, refl);
        same_id = refl;
        same_version = refl;
      };
    }
