-- ===== src/Manager/Replace/Accepted.antt =====
-- `replace_install` puts only valid records in place.
use lar.Base.{String, ◌<>◌, Option, none, some, ◌≡◌, ok, map_err, map_err-ok}
use lar.Manager.Record.{InstallRecord, validate}
use lar.Manager.Home.{holds, absent, AppDir, Home, invalid_record}
use lar.Manager.Action.{and_then, change, lift}
use lar.Manager.Action.Keeps.{and_then-eq-ok}
use lar.Manager.Replace.{stash, dir, replace_install, write_record, write_stash, set_app}
use lar.Manager.Replace.Outcome.{IsValid, IsStashValid}

module _ {Desk : Type 0} where
  write_record-eq-ok :
      (a : AppDir) (r : InstallRecord) (h : Home Desk) → (write_record a r h).0 ≡ ok tt → IsValid r
  unfolding write_record
  write_record-eq-ok a r h e =
      let (u, v, k, q) =
        and_then-eq-ok (lift (map_err invalid_record (validate r)) h) (λ u. change (set_app a)) tt
          e in
      map_err-ok invalid_record (validate r) v

  write_stash-eq-ok :
      (a : AppDir) (o : Option InstallRecord) (h : Home Desk)
      → (write_stash a o h).0 ≡ ok tt
      → IsStashValid o
  unfolding write_stash
  write_stash-eq-ok a none h e = tt
  write_stash-eq-ok a (some prev) h e = write_record-eq-ok a prev h e

  -- Only valid records are put in place.
  pub replace_install-eq-ok :
      (nanos app_id : String) (active : InstallRecord) (previous : Option InstallRecord)
      (h : Home Desk)
      → (replace_install nanos app_id active previous h).0 ≡ ok tt
      → IsValid active × IsStashValid previous
  unfolding replace_install and_then
  replace_install-eq-ok nanos app_id active previous h e =
      let tmp = ".tmp-install-" <> nanos in
      let h1 = set_app (dir tmp absent absent) h in
      let (u, v, k, q) =
        and_then-eq-ok (write_record (dir tmp (holds active) absent) active h1) _ tt e in
      let (u2, v2, k2, q2) =
        and_then-eq-ok
          (write_stash (dir tmp (holds active) (stash previous)) previous
            (write_record (dir tmp (holds active) absent) active h1).1)
          _ tt k in
      (write_record-eq-ok _ active h1 v, write_stash-eq-ok _ previous _ v2)
