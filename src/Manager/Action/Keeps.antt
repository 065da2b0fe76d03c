-- ===== src/Manager/Action/Keeps.antt =====
-- What an action does not change, and what it answers.
use lar.Base.{Result, ok, err, ◌≡◌, refl, ◌∙◌}
use lar.Manager.Home.{Home, Fault}
use lar.Manager.Action.{Action, and_then}

-- The part of the home is the same afterwards, whether the action succeeds or not.
abbrev pub Keeps : {Desk A C : Type 0} → (Home Desk → C) → Action Desk A → Type 0
Keeps {Desk} part m = (h : Home Desk) → part (m h).1 ≡ part h

-- What holds of the answer and of the home, where an action succeeds.
abbrev pub Ensures :
    {Desk B : Type 0} → (B → Home Desk → Type 0) → Result Fault B × Home Desk → Type 0
Ensures {Desk} {B} Q r = (b : B) → r.0 ≡ ok b → Q b r.1

module _ {Desk A B : Type 0} where
  pub and_then-Keeps :
      {C : Type 0} (part : Home Desk → C) (r : Result Fault A × Home Desk)
      (next : A → Action Desk B) (c : C)
      → part r.1 ≡ c
      → ((a : A) → Keeps part (next a))
      → part (and_then r next).1 ≡ c
  unfolding and_then
  and_then-Keeps part (ok a, h) next c e k = k a h ∙ e
  and_then-Keeps part (err f, h) next c e k = e

  -- Both halves of a bind that succeeded.
  pub and_then-eq-ok :
      (r : Result Fault A × Home Desk) (next : A → Action Desk B) (b : B)
      → (and_then r next).0 ≡ ok b
      → (a : A) × (r.0 ≡ ok a) × ((next a r.1).0 ≡ ok b) × ((and_then r next).1 ≡ (next a r.1).1)
  unfolding and_then
  and_then-eq-ok (ok a, h) next b e = (a, refl, e, refl)
  and_then-eq-ok (err f, h) next b e = cc

  pub and_then-Ensures :
      (Q : B → Home Desk → Type 0) (r : Result Fault A × Home Desk) (next : A → Action Desk B)
      → ((a : A) (h : Home Desk) → r ≡ (ok a, h) → Ensures Q (next a h))
      → Ensures Q (and_then r next)
  unfolding and_then
  and_then-Ensures Q (ok a, h) next rest = rest a h refl
  and_then-Ensures Q (err f, h) next rest = λ b e. cc

  -- A predicate of the home that the first action keeps, and each next one from there.
  pub and_then-Preserves :
      (P : Home Desk → Type 0) (r : Result Fault A × Home Desk) (next : A → Action Desk B)
      → P r.1
      → ((a : A) (h : Home Desk) → r ≡ (ok a, h) → P h → P (next a h).1)
      → P (and_then r next).1
  unfolding and_then
  and_then-Preserves P (ok a, h) next p rest = rest a h refl p
  and_then-Preserves P (err f, h) next p rest = p
