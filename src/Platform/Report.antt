-- ===== src/Platform/Report.antt =====
-- When the host passes the check.
use lar.Base.{
  ap, Bool, true, false, ◌&&◌, List, [], ◌∷◌, ◌++◌, ◌≡◌, ◌↔◌, refl, ◌∙◌, arith, is_empty, all, ok,
  Bool-cases, inl, inr,
}
use lar.Platform.{
  note_required, note_optional, Capability, ProbeResult, PlatformNeed, CheckReport, report_ok,
  check_requires, check_optional, check_host_with, ensure_host,
}

append-not_empty : (xs : List ProbeResult) (x : ProbeResult) → is_empty (xs ++ x ∷ []) ≡ false
append-not_empty [] x = refl
append-not_empty (y ∷ xs) x = refl

note_required-ok :
    (b : Bool) (p : ProbeResult) (r : CheckReport)
    → report_ok (note_required b p r) ≡ (report_ok r && b)
unfolding note_required
note_required-ok true p r = ground arith
note_required-ok false p r = ground (arith, append-not_empty r.missing_required p)

note_optional-ok :
    (b : Bool) (p : ProbeResult) (r : CheckReport) → report_ok (note_optional b p r) ≡ report_ok r
unfolding note_optional
note_optional-ok true p r = refl
note_optional-ok false p r = refl

and_assoc : (a b c : Bool) → ((a && b) && c) ≡ (a && (b && c))
and_assoc true b c = refl
and_assoc false b c = refl

and_true : (a : Bool) → a ≡ (a && true)
and_true true = refl
and_true false = refl

module _ (probe : Capability → ProbeResult) where
  abbrev is_present : Capability → Bool
  is_present cap = (probe cap).present

  check_requires-ok :
      (r : CheckReport) (caps : List Capability)
      → report_ok (check_requires probe r caps) ≡ (report_ok r && all is_present caps)
  unfolding check_requires all
  check_requires-ok r [] = and_true (report_ok r)
  check_requires-ok r (cap ∷ caps) =
      check_requires-ok (note_required (is_present cap) (probe cap) r) caps
      ∙ ap (λ b. b && all is_present caps) (note_required-ok (is_present cap) (probe cap) r)
      ∙ and_assoc (report_ok r) (is_present cap) (all is_present caps)

  check_optional-ok :
      (r : CheckReport) (caps : List Capability)
      → report_ok (check_optional probe r caps) ≡ report_ok r
  unfolding check_optional
  check_optional-ok r [] = refl
  check_optional-ok r (cap ∷ caps) =
      check_optional-ok (note_optional (is_present cap) (probe cap) r) caps
      ∙ note_optional-ok (is_present cap) (probe cap) r

  -- The check passes exactly when the probe finds every required capability, whatever is optional.
  pub ensure_host_iff :
      (need : PlatformNeed)
      → ((report : CheckReport) × (ensure_host probe need ≡ ok report))
        ↔ (all (λ cap. (probe cap).present) need.requires ≡ true)
  unfolding ensure_host check_host_with
  ensure_host_iff need =
      let start : CheckReport = record {
        satisfied = [];
        missing_required = [];
        missing_optional = [];
      } in
      let first = check_requires probe start need.requires in
      let verdict : report_ok (check_host_with probe need) ≡ all is_present need.requires =
        check_optional-ok first need.optional ∙ check_requires-ok start need.requires in
      (
        λ (report, h). elim (Bool-cases (all is_present need.requires)) [
          | inl e ↦ e
          | inr e ↦ cc (rw (ensure_host, verdict ∙ e) at h)
        ],
        λ e. (check_host_with probe need, rw (ensure_host, verdict ∙ e) refl),
      )
