-- ===== src/Resolver/Locked.antt =====
-- crates/lar-resolver/src/lockfile.rs: the data of a lockfile.
use lar.Base.{ℕ, String, Option, List}
use lar.Base.Map.{Map}

pub record LockRoot : Type 0 where
  pub id : String
  pub version : String

pub record LockedPackage : Type 0 where
  pub id : String
  pub version : String
  pub content_hash : Option String
  pub dependencies : Map String

pub record Lockfile : Type 0 where
  pub format : ℕ
  pub root : LockRoot
  pub packages : List LockedPackage
