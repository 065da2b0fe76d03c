-- ===== src/Manager/Pins.antt =====
-- `packages_from_lock` of crates/lar-manager/src/ops.rs: the packages that an install record pins.
use lar.Base.{
  Bool, List, [], ◌∷◌, ◌==◌, ◌&&◌, ◌||◌, str_lt, Result, ok, ok_or, ◌>>=◌, if◌then◌else◌,
}
use lar.Resolver.Locked.{LockedPackage, Lockfile}
use lar.Manager.Record.{InstallPackage, missing_hash}
use lar.Manager.Home.{Fault, invalid_record}

-- The order of ids, then of versions.
abbrev pub pin_lt : InstallPackage → InstallPackage → Bool
pin_lt a b = str_lt a.id b.id || (a.id == b.id && str_lt a.version b.version)

unfoldable pub insert_pin : InstallPackage → List InstallPackage → List InstallPackage
insert_pin p [] = p ∷ []
insert_pin p (q ∷ qs) = let rest = insert_pin p qs in if pin_lt q p then q ∷ rest else p ∷ q ∷ qs

-- `packages.sort_by(…)`, which is stable.
unfoldable pub sort_pins : List InstallPackage → List InstallPackage
unfolding insert_pin
sort_pins [] = []
sort_pins (p ∷ ps) = insert_pin p (sort_pins ps)

-- The loop of `packages_from_lock`.
unfoldable pub pins_from : List LockedPackage → Result Fault (List InstallPackage)
pins_from [] = ok []
pins_from (p ∷ ps) = do
  hash ← ok_or p.content_hash (invalid_record (missing_hash p.id p.version))
  pins ← pins_from ps
  ok (record { id = p.id; version = p.version; content_hash = hash } ∷ pins)

unfoldable pub packages_from_lock : Lockfile → Result Fault (List InstallPackage)
unfolding pins_from sort_pins
packages_from_lock lock = do pins ← pins_from lock.packages; ok (sort_pins pins)
