-- ===== src/Manager/Ops/Newest.antt =====
-- The version that `update` chooses.
use lar.Base.{
  String, true, false, none, some, List, [], ◌∷◌, ◌≡◌, ◌⊎◌, refl, sym, ap, ◌∙◌, subst, Memᴰ,
  Memᴰ-cons, not-Memᴰ-nil, Option-cases, Bool-cases, inl, inr, ⊎_elim,
}
use lar.Semver.{Semver, IsOrdered}
use lar.Manager.Ops.{Best, consider, consider_text, newest}

module _ (sv : Semver) (ord : IsOrdered sv) (current : sv.Version) where
  open sv use {lt, parse}
  open ord use {lt-irrefl, lt-trans, lt-total}

  -- The best version so far, which is the current one at first.
  abbrev top : Best sv → sv.Version
  top none = current
  top (some (v, s)) = v

  abbrev IsAhead : Best sv → Type 0
  IsAhead none = Unit
  IsAhead (some (v, s)) = lt current v ≡ true

  -- Not above a version that is not above another.
  lt-above : (a b c : sv.Version) → lt a b ≡ true → lt a c ≡ false → lt b c ≡ false
  lt-above a b c h k = elim (Bool-cases (lt b c)) [ inl e ↦ cc (k, lt-trans a b c h e) | inr e ↦ e ]

  -- What one candidate makes of the best version: it stays, where the candidate is not a version or
  -- not above it, or the candidate is above it.
  data Considered (best : Best sv) (s : String) : Best sv → Type 0 where
    unread : parse s ≡ none → Considered best s best
    below : (v : sv.Version) → parse s ≡ some v → lt (top best) v ≡ false → Considered best s best
    above :
        (v : sv.Version)
        → parse s ≡ some v
        → lt (top best) v ≡ true
        → lt current v ≡ true
        → Considered best s (some (v, s))

  top-ahead :
      (best : Best sv) (v : sv.Version)
      → IsAhead best
      → lt current v ≡ false
      → lt (top best) v ≡ false
  top-ahead none v a h = h
  top-ahead (some (w, s)) v a h = lt-above current w v a h

  consider-Considered :
      (best : Best sv) (s : String) (v : sv.Version)
      → parse s ≡ some v
      → lt current v ≡ true
      → Considered best s (consider sv v s best)
  unfolding consider
  consider-Considered none s v e h = above v e h h
  consider-Considered (some (w, t)) s v e h = elim (Bool-cases (lt w v)) [
    | inl k ↦ rw k (above v e k h)
    | inr k ↦ rw k (below v e k)
  ]

  consider_text-Considered :
      (best : Best sv) (s : String)
      → IsAhead best
      → Considered best s (consider_text sv current best s)
  unfolding consider_text
  consider_text-Considered best s a = elim (Option-cases (parse s)) [
    | inl e ↦ rw (consider_text, e) (unread e)
    | inr (v, e) ↦ elim (Bool-cases (lt current v)) [
      | inl h ↦ rw (consider_text, e, h) (consider-Considered best s v e h)
      | inr h ↦ rw (consider_text, e, h) (below v e (top-ahead best v a h))
    ]
  ]

  Considered-IsAhead :
      (best next : Best sv) (s : String) → Considered best s next → IsAhead best → IsAhead next
  Considered-IsAhead best _ s (unread e) a = a
  Considered-IsAhead best _ s (below v e h) a = a
  Considered-IsAhead best _ s (above v e h k) a = k

  -- A version that is not above the best one is not above the next best one.
  Considered-top :
      (best next : Best sv) (s : String) (w : sv.Version)
      → Considered best s next
      → lt (top best) w ≡ false
      → lt (top next) w ≡ false
  Considered-top best _ s w (unread e) h = h
  Considered-top best _ s w (below v e k) h = h
  Considered-top best _ s w (above v e k l) h = lt-above (top best) v w k h

  Considered-self :
      (best next : Best sv) (s : String) (w : sv.Version)
      → Considered best s next
      → parse s ≡ some w
      → lt (top next) w ≡ false
  Considered-self best _ s w (unread e) h = cc
  Considered-self best _ s w (below v e k) h =
      let same : v ≡ w = cc in subst (λ x. lt (top best) x ≡ false) same k
  Considered-self best _ s w (above v e k l) h =
      let same : v ≡ w = cc in subst (λ x. lt v x ≡ false) same (lt-irrefl v)

  abbrev IsFrom : List String → Best sv → Type 0
  IsFrom candidates none = Unit
  IsFrom candidates (some (v, s)) = Memᴰ s candidates × (parse s ≡ some v) × (lt current v ≡ true)

  IsFrom-tail :
      (s : String) (candidates : List String) (best : Best sv)
      → IsFrom candidates best
      → IsFrom (s ∷ candidates) best
  IsFrom-tail s candidates none f = tt
  IsFrom-tail s candidates (some (v, t)) (m, e, l) = (Memᴰ.tail m, e, l)

  Considered-IsFrom :
      (best next : Best sv) (s : String) (candidates : List String)
      → Considered best s next
      → (next ≡ best) ⊎ IsFrom (s ∷ candidates) next
  Considered-IsFrom best _ s candidates (unread e) = inl refl
  Considered-IsFrom best _ s candidates (below v e k) = inl refl
  Considered-IsFrom best _ s candidates (above v e k l) = inr (Memᴰ.head refl, e, l)

  step :
      (best : Best sv) (s : String)
      → IsAhead best
      → Considered best s (consider_text sv current best s)
  step = consider_text-Considered

  newest-top :
      (best : Best sv) (candidates : List String) (w : sv.Version)
      → IsAhead best
      → lt (top best) w ≡ false
      → lt (top (newest sv current best candidates)) w ≡ false
  unfolding newest
  newest-top best [] w a h = h
  newest-top best (s ∷ candidates) w a h =
      let next = consider_text sv current best s in
      newest-top next candidates w (Considered-IsAhead best next s (step best s a) a)
        (Considered-top best next s w (step best s a) h)

  newest-above :
      (best : Best sv) (candidates : List String) (s : String) (w : sv.Version)
      → IsAhead best
      → Memᴰ s candidates
      → parse s ≡ some w
      → lt (top (newest sv current best candidates)) w ≡ false
  unfolding newest
  newest-above best [] s w a m e = absurd (not-Memᴰ-nil s m)
  newest-above best (t ∷ candidates) s w a m e =
      let next = consider_text sv current best t in
      let ahead = Considered-IsAhead best next t (step best t a) a in
      ⊎_elim
        (λ same.
          newest-top next candidates w ahead
            (Considered-self best next t w (step best t a) (ap parse (sym same) ∙ e)))
        (λ later. newest-above next candidates s w ahead later e) ((Memᴰ-cons s t candidates).0 m)

  newest-IsFrom :
      (best : Best sv) (candidates : List String)
      → IsAhead best
      → (newest sv current best candidates ≡ best)
        ⊎ IsFrom candidates (newest sv current best candidates)
  unfolding newest
  newest-IsFrom best [] a = inl refl
  newest-IsFrom best (s ∷ candidates) a =
      let next = consider_text sv current best s in
      let last = newest sv current next candidates in
      elim (newest-IsFrom next candidates (Considered-IsAhead best next s (step best s a) a)) [
        | inr f ↦ inr (IsFrom-tail s candidates last f)
        | inl e ↦
            ⊎_elim (λ d. inl (e ∙ d)) (λ f. inr (subst (IsFrom (s ∷ candidates)) (sym e) f))
              (Considered-IsFrom best next s candidates (step best s a))
      ]

  -- A candidate that is newer than the current version, and than which no candidate is newer; or
  -- none, where no candidate is newer than the current version.
  abbrev pub IsNewest : List String → Best sv → Type 0
  IsNewest candidates best =
      IsFrom candidates best
      × ((s : String) (w : sv.Version)
          → Memᴰ s candidates
          → parse s ≡ some w
          → lt (top best) w ≡ false)

  -- Where versions are linearly ordered, the loop of `update` over the candidates ends with a
  -- candidate that is newer than the current version and than which no candidate is newer, and with
  -- none only where no candidate is newer than the current version; texts that are not versions are
  -- passed over.
  pub newest-IsNewest :
      (candidates : List String) → IsNewest candidates (newest sv current none candidates)
  newest-IsNewest candidates = (
    ⊎_elim (λ e. subst (IsFrom candidates) (sym e) tt) (λ f. f) (newest-IsFrom none candidates tt),
    λ s w m e. newest-above none candidates s w tt m e,
  )
