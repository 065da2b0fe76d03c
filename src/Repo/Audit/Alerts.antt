-- ===== src/Repo/Audit/Alerts.antt =====
-- The warnings of sources about a package that fail an audit.
use lar.Base.{
  Bool, true, false, Option, some, List, [], ◌∷◌, ◌++◌, ◌≡◌, ◌↔◌, ◌⊎◌, refl, sym, ap, ◌∙◌, subst,
  Memᴰ, Memᴰ-cons, not-Memᴰ-nil, ⊎_elim, inl, inr, map, any, Result-cases, ok, ok-eq, >>=-eq-ok,
  map_err, map_err-ok, any_of_mem, any_witness, ◌||◌, arith,
}
use lar.Repo.Error.{sources_fault}
use lar.Repo.Sources.{SourceEntry, SourcesFile, load_sources}
use lar.Repo.Trust.{Crypto, TrustFile, load_trust}
use lar.Repo.Advisories.{
  Advisory, AdvisoriesFile, Digest, Severity, low, medium, high, critical, is_elevated, matches,
  verify_advisories,
}
use lar.Repo.Advisories.Matches.{Names, matches_iff}
use lar.Repo.Audit.{Pin}
use lar.Repo.Fetch.{
  Network, AdvisoryWarning, warning, read_advisories, collect_from, collect_warnings_for_pin,
}
use lar.Repo.Fetch.Trusted.{AreSigned, verify_advisories-AreSigned}

pub or-true : (a b : Bool) → (a || b) ≡ true → (a ≡ true) ⊎ (b ≡ true)
or-true true b h = inl refl
or-true false b h = inr h

pub or-left : (a b : Bool) → a ≡ true → (a || b) ≡ true
or-left true b h = refl
or-left false b h = cc

pub or-right : (a b : Bool) → b ≡ true → (a || b) ≡ true
or-right true b h = refl
or-right false b h = h

pub any-append :
    {A : Type 0} (p : A → Bool) (xs ys : List A) → any p (xs ++ ys) ≡ (any p xs || any p ys)
unfolding any
any-append p [] ys = refl
any-append p (x ∷ xs) ys = ground (arith, any-append p xs ys)

pub any-map :
    {A B : Type 0} (p : B → Bool) (f : A → B) (xs : List A)
    → any p (map f xs) ≡ any (λ a. p (f a)) xs
unfolding any
any-map p f [] = refl
any-map p f (x ∷ xs) = ground (arith, any-map p f xs)

-- The package is yanked, or the severity is high or critical.
abbrev pub IsSevere : Bool → Severity → Type 0
IsSevere yanked severity = (yanked ≡ true) ⊎ ((severity ≡ high) ⊎ (severity ≡ critical))

IsSevere-iff : (y : Bool) (s : Severity) → ((y || is_elevated s) ≡ true) ↔ IsSevere y s
IsSevere-iff true s = (λ e. inl refl, λ e. refl)
IsSevere-iff false low = (λ e. cc, ⊎_elim (λ e. cc) (⊎_elim (λ e. cc) (λ e. cc)))
IsSevere-iff false medium = (λ e. cc, ⊎_elim (λ e. cc) (⊎_elim (λ e. cc) (λ e. cc)))
IsSevere-iff false high = (λ e. inr (inl refl), λ e. refl)
IsSevere-iff false critical = (λ e. inr (inr refl), λ e. refl)

abbrev pub alarms : AdvisoryWarning → Bool
alarms w = w.yanked || is_elevated w.severity

module _ (crypto : Crypto) (digest : Digest) (net : Network) where
  -- The source publishes the advisories, unsigned only where there are none, and one of them names
  -- the package and is severe.
  pub record IsAlert (trust : TrustFile) (p : Pin) (src : SourceEntry) : Type 0 where
    pub base : net.SourceBase
    pub uri : net.parse_uri src.uri ≡ ok base
    pub advisories : AdvisoriesFile
    pub read : read_advisories crypto digest net base ≡ ok advisories
    pub signed : AreSigned crypto digest advisories trust
    pub advisory : Advisory
    pub listed : Memᴰ advisory advisories.advisories
    pub names : Names advisory p.id p.version (some p.content_hash)
    pub severe : IsSevere advisory.yanked advisory.severity

  matches-IsSevere :
      (p : Pin) (src : SourceEntry) (file : AdvisoriesFile)
      → (any alarms
            (map (warning src p.id p.version) (matches file p.id p.version (some p.content_hash)))
          ≡ true)
        ↔ ((a : Advisory) × Memᴰ a file.advisories
            × Names a p.id p.version (some p.content_hash)
            × IsSevere a.yanked a.severity)
  matches-IsSevere p src file =
      let ms = matches file p.id p.version (some p.content_hash) in
      let over = any-map alarms (warning src p.id p.version) ms in
      (
        λ e.
            let (a, m, t) =
              any_witness (λ a. a.yanked || is_elevated a.severity) ms (sym over ∙ e) in
            let (n, named) = (matches_iff file p.id p.version (some p.content_hash) a).0 m in
            (a, n, named, (IsSevere-iff a.yanked a.severity).0 t),
        λ (a, n, named, s).
            over
            ∙ any_of_mem (λ a. a.yanked || is_elevated a.severity) ms a
                ((matches_iff file p.id p.version (some p.content_hash) a).1 (n, named))
                ((IsSevere-iff a.yanked a.severity).1 s),
      )

  collect_from-IsAlert :
      (trust : TrustFile) (p : Pin) (srcs : List SourceEntry) (ws : List AdvisoryWarning)
      → collect_from crypto digest net trust p.id p.version (some p.content_hash) srcs ≡ ok ws
      → (any alarms ws ≡ true) ↔ ((src : SourceEntry) × Memᴰ src srcs × IsAlert trust p src)
  unfolding collect_from
  collect_from-IsAlert trust p [] ws h = (
    λ e.
        (let (w, m, t) = any_witness alarms [] (ap (any alarms) (ok-eq h) ∙ e) in
          absurd (not-Memᴰ-nil w m)),
    λ (src, m, a). absurd (not-Memᴰ-nil src m),
  )
  collect_from-IsAlert trust p (src ∷ srcs) ws h = elim (Result-cases (net.parse_uri src.uri)) [
    | inr (e, bad) ↦
        let later = collect_from-IsAlert trust p srcs ws (rw (collect_from, bad) at h) in
        (
          λ t. let (s, m, a) = later.0 t in (s, Memᴰ.tail m, a),
          λ (s, m, a).
              ⊎_elim (λ q. cc (bad, ap (λ (z : SourceEntry). net.parse_uri z.uri) q, a.uri))
                (λ n. later.1 (s, n, a)) ((Memᴰ-cons s src srcs).0 m),
        )
    | inl (base, good) ↦
        let (file, r, h1) =
          >>=-eq-ok (read_advisories crypto digest net base) _ (rw (collect_from, good) at h) in
        let (_, v, h2) = >>=-eq-ok (verify_advisories crypto digest file trust) _ h1 in
        let (rest, b, h3) =
          >>=-eq-ok (collect_from crypto digest net trust p.id p.version (some p.content_hash) srcs)
            _ h2 in
        let ms =
          map (warning src p.id p.version) (matches file p.id p.version (some p.content_hash)) in
        let out : ms ++ rest ≡ ws = ok-eq h3 in
        let split : any alarms ws ≡ (any alarms ms || any alarms rest) =
          ap (any alarms) (sym out) ∙ any-append alarms ms rest in
        let later = collect_from-IsAlert trust p srcs rest b in
        let here = matches-IsSevere p src file in
        (
          λ t.
              ⊎_elim
                (λ k.
                  let (a, n, named, s) = here.0 k in
                  (
                    src,
                    Memᴰ.head refl,
                    record {
                      base = base;
                      uri = good;
                      advisories = file;
                      read = r;
                      signed = verify_advisories-AreSigned crypto digest file trust v;
                      advisory = a;
                      listed = n;
                      names = named;
                      severe = s;
                    },
                  ))
                (λ k. let (s, m, a) = later.0 k in (s, Memᴰ.tail m, a))
                (or-true (any alarms ms) (any alarms rest) (sym split ∙ t)),
          λ (s, m, a).
              split
              ∙ ⊎_elim
                  (λ q. or-left _ _ (here.1 (found base file good r (subst (IsAlert trust p) q a))))
                  (λ n. or-right _ _ (later.1 (s, n, a))) ((Memᴰ-cons s src srcs).0 m),
        )
  ]
    where
      found :
          (base : net.SourceBase) (file : AdvisoriesFile)
          → net.parse_uri src.uri ≡ ok base
          → read_advisories crypto digest net base ≡ ok file
          → IsAlert trust p src
          → (a : Advisory) × Memᴰ a file.advisories
            × Names a p.id p.version (some p.content_hash)
            × IsSevere a.yanked a.severity
      found base file good r a =
          let b : a.base ≡ base = ok-eq (sym a.uri ∙ good) in
          let d : a.advisories ≡ file =
            ok-eq (sym a.read ∙ ap (read_advisories crypto digest net) b ∙ r) in
          (a.advisory, subst (λ z. Memᴰ a.advisory z.advisories) d a.listed, a.names, a.severe)

  -- A configured source alerts of the package, by the configured keys.
  abbrev pub IsAlarming : Option TrustFile → SourcesFile → Pin → Type 0
  IsAlarming trust_toml file p =
      (trust : TrustFile) × (load_trust crypto trust_toml ≡ ok trust)
      × ((src : SourceEntry) × Memᴰ src file.sources × IsAlert trust p src)

  pub collect_warnings_for_pin-IsAlarming :
      (sources_toml : Option SourcesFile) (trust_toml : Option TrustFile) (file : SourcesFile)
      (p : Pin) (ws : List AdvisoryWarning)
      → load_sources sources_toml ≡ ok file
      → collect_warnings_for_pin crypto digest net sources_toml trust_toml p.id p.version
          (some p.content_hash)
        ≡ ok ws
      → (any alarms ws ≡ true) ↔ IsAlarming trust_toml file p
  unfolding collect_warnings_for_pin
  collect_warnings_for_pin-IsAlarming sources_toml trust_toml file p ws loaded h =
      let (sources, a, h1) = >>=-eq-ok (map_err sources_fault (load_sources sources_toml)) _ h in
      let (trust, b, h2) = >>=-eq-ok (load_trust crypto trust_toml) _ h1 in
      let same : sources ≡ file =
        ok-eq (sym (map_err-ok sources_fault (load_sources sources_toml) a) ∙ loaded) in
      let each = collect_from-IsAlert trust p sources.sources ws h2 in
      (
        λ e. let (s, m, al) = each.0 e in (trust, b, (s, subst (λ z. Memᴰ s z.sources) same m, al)),
        λ (t, c, (s, m, al)). each.1 (
          s,
          subst (λ z. Memᴰ s z.sources) (sym same) m,
          subst (λ z. IsAlert z p s) (ok-eq (sym c ∙ b)) al,
        ),
      )
