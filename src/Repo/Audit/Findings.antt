-- ===== src/Repo/Audit/Findings.antt =====
-- When an audit fails.
use lar.Base.{
  Bool, true, false, Option, some, List, [], ◌∷◌, ◌++◌, ◌≡◌, ◌↔◌, ◌==◌, refl, sym, ap, ◌∙◌, subst,
  Memᴰ, Memᴰ-cons, not-Memᴰ-nil, ⊎_elim, map, any, ok, ok-eq, >>=-eq-ok, map_err, map_err-ok,
  any_witness, ◌||◌,
}
use lar.Store.World.{PackageDir}
use lar.Repo.Error.{sources_fault}
use lar.Repo.Sources.{SourcesFile, load_sources}
use lar.Repo.Trust.{Crypto, TrustFile}
use lar.Repo.Advisories.{Digest, Severity, low, medium, high, critical, is_elevated, as_str}
use lar.Repo.Fetch.{Network, AdvisoryWarning, collect_warnings_for_pin}
use lar.Repo.Audit.{
  Pin, InstallToml, AuditScope, AuditFinding, sort_pins, finding, pins_for, audit_pins, audit,
  fails, audit_should_fail,
}
use lar.Repo.Audit.Scope.{IsInScope, Memᴰ-sort_pins, pins_for-IsInScope}
use lar.Repo.Audit.Alerts.{
  alarms, IsAlarming, or-true, or-left, or-right, any-append, collect_warnings_for_pin-IsAlarming,
}

fails-finding :
    (p : Pin) (w : AdvisoryWarning) → fails (finding p w) ≡ (w.yanked || is_elevated w.severity)
fails-finding p w = by_severity w.yanked w.severity
  where
    by_severity :
        (yanked : Bool) (s : Severity)
        → (yanked
            || (as_str s == "high" || as_str s == "critical")
            || as_str s == as_str high
            || as_str s == as_str critical)
          ≡ (yanked || is_elevated s)
    by_severity true s = refl
    by_severity false low = refl
    by_severity false medium = refl
    by_severity false high = refl
    by_severity false critical = refl

any-finding : (p : Pin) (ws : List AdvisoryWarning) → any fails (map (finding p) ws) ≡ any alarms ws
unfolding any
any-finding p [] = refl
any-finding p (w ∷ ws) = rw (any-finding p ws) (ap (λ z. z || any alarms ws) (fails-finding p w))

module _ (crypto : Crypto) (digest : Digest) (net : Network) (sources_toml : Option SourcesFile)
    (trust_toml : Option TrustFile) where
  audit_pins-IsAlarming :
      (file : SourcesFile)
      → load_sources sources_toml ≡ ok file
      → (ps : List Pin) (findings : List AuditFinding)
      → audit_pins crypto digest net sources_toml trust_toml ps ≡ ok findings
      → (any fails findings ≡ true)
        ↔ ((p : Pin) × Memᴰ p ps × IsAlarming crypto digest net trust_toml file p)
  unfolding audit_pins
  audit_pins-IsAlarming file loaded [] findings h = (
    λ e.
        (let (f, m, t) = any_witness fails [] (ap (any fails) (ok-eq h) ∙ e) in
          absurd (not-Memᴰ-nil f m)),
    λ (p, m, w). absurd (not-Memᴰ-nil p m),
  )
  audit_pins-IsAlarming file loaded (p ∷ ps) findings h =
      let (ws, a, h1) =
        >>=-eq-ok
          (collect_warnings_for_pin crypto digest net sources_toml trust_toml p.id p.version
            (some p.content_hash))
          _ h in
      let (rest, b, h2) =
        >>=-eq-ok (audit_pins crypto digest net sources_toml trust_toml ps) _ h1 in
      let out : map (finding p) ws ++ rest ≡ findings = ok-eq h2 in
      let split : any fails findings ≡ (any alarms ws || any fails rest) =
        ap (any fails) (sym out)
        ∙ any-append fails (map (finding p) ws) rest
        ∙ ap (λ z. z || any fails rest) (any-finding p ws) in
      let here =
        collect_warnings_for_pin-IsAlarming crypto digest net sources_toml trust_toml file p ws
          loaded a in
      let later = audit_pins-IsAlarming file loaded ps rest b in
      (
        λ e.
            ⊎_elim (λ t. (p, Memᴰ.head refl, here.0 t))
              (λ t. let (q, m, w) = later.0 t in (q, Memᴰ.tail m, w))
              (or-true (any alarms ws) (any fails rest) (sym split ∙ e)),
        λ (q, m, al).
            split
            ∙ ⊎_elim
                (λ e.
                  or-left _ _ (here.1 (subst (IsAlarming crypto digest net trust_toml file) e al)))
                (λ n. or-right _ _ (later.1 (q, n, al))) ((Memᴰ-cons q p ps).0 m),
      )

  -- An audit that succeeds fails the build exactly where a package in its scope (stored, or listed by
  -- a parsed `install.toml`) is named by an advisory of a configured source whose URI is valid, the
  -- advisories of that source are absent or signed by a trusted key, and the advisory yanks the
  -- package or has the severity high or critical.
  pub audit_should_fail_iff :
      (dirs : List PackageDir) (installs : List InstallToml) (scope : AuditScope)
      (findings : List AuditFinding)
      → audit crypto digest net sources_toml trust_toml dirs installs scope ≡ ok findings
      → (file : SourcesFile) × (load_sources sources_toml ≡ ok file)
        × ((audit_should_fail findings ≡ true) ↔ (
            (p : Pin) × IsInScope dirs installs scope p
            × IsAlarming crypto digest net trust_toml file p))
  unfolding audit audit_should_fail
  audit_should_fail_iff dirs installs scope findings h =
      let (file, a, h1) = >>=-eq-ok (map_err sources_fault (load_sources sources_toml)) _ h in
      let (pins, b, h2) = >>=-eq-ok (pins_for dirs installs scope) _ h1 in
      let loaded = map_err-ok sources_fault (load_sources sources_toml) a in
      let each = audit_pins-IsAlarming file loaded (sort_pins pins) findings h2 in
      (
        file,
        loaded,
        (
          λ e.
              let (p, m, w) = each.0 e in
              (
                p,
                (pins_for-IsInScope p dirs installs scope pins b).0 ((Memᴰ-sort_pins p pins).0 m),
                w,
              ),
          λ (p, m, w). each.1 (
            p,
            (Memᴰ-sort_pins p pins).1 ((pins_for-IsInScope p dirs installs scope pins b).1 m),
            w,
          ),
        ),
      )
