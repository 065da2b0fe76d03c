-- ===== src/Manager/Action.antt =====
-- Operations that change the home and can fail: an error keeps what was changed before it.
pub mod Keeps
use lar.Base.{Bool, true, false, Option, none, some, Result, Done, ok, err}
use lar.Manager.Home.{Home, Fault}

abbrev pub Action : Type 0 → Type 0 → Type 0
Action Desk A = Home Desk → Result Fault A × Home Desk

module _ {Desk A B : Type 0} where
  unfoldable pub and_then :
      Result Fault A × Home Desk → (A → Action Desk B) → Result Fault B × Home Desk
  and_then (ok a, h) next = next a h
  and_then (err e, h) next = (err e, h)

  infixl 5 ◌>>=◌
  abbrev pub ◌>>=◌ : Action Desk A → (A → Action Desk B) → Action Desk B
  m >>= next = λ h. and_then (m h) next

module _ {Desk : Type 0} where
  infixl 5 ◌>>◌
  abbrev pub ◌>>◌ : {B : Type 0} → Action Desk Done → Action Desk B → Action Desk B
  first >> second = first >>= λ done. second

  abbrev pub return : {A : Type 0} → A → Action Desk A
  return a h = (ok a, h)

  abbrev pub fail : {A : Type 0} → Fault → Action Desk A
  fail e h = (err e, h)

  -- A computation that reads the home, and one that only changes it.
  abbrev pub reads : {A : Type 0} → (Home Desk → Result Fault A) → Action Desk A
  reads f h = (f h, h)

  abbrev pub change : (Home Desk → Home Desk) → Action Desk Done
  change f h = (ok tt, f h)

  abbrev pub lift : {A : Type 0} → Result Fault A → Action Desk A
  lift r h = (r, h)

  -- `if !b { return Err(e) }`
  abbrev pub check : Bool → Fault → Action Desk Done
  check true e = return tt
  check false e = fail e
