-- ===== src/Base/Hash.antt =====
-- The test that a text looks like `blake3:<hex>`, which several files of the program repeat.
use Prim.Native.String.{len}
use Prim.Native.String.len
use text.Mathlib.TextEquality.{starts_with_iff}
use text.Mathlib.TextPositions.{len-append, len_utf8-pos}
use lar.Base.{
  ◌+◌, ◌<◌, String, ◌<>◌, Bool, true, ◌&&◌, ◌≡◌, ◌≢◌, ◌↔◌, refl, sym, ap, ◌∙◌, arith, ltb,
  starts_with, &&-eq-true, &&-intro,
}

-- `hash.starts_with("blake3:") && hash.len() > "blake3:".len()`
unfoldable pub is_content_hash : String → Bool
is_content_hash s = starts_with s "blake3:" && ltb (len "blake3:") (len s)

abbrev pub IsContentHash : String → Type 0
IsContentHash s = (hex : String) × (hex ≢ "") × ("blake3:" <> hex ≡ s)

len-pos : (s : String) → s ≢ "" → 0 < len s
len-pos String.[] h = absurd (h refl)
len-pos (String.◌∷◌ c s) h = let (k, e) = len_utf8-pos c in omega (arith, len.cons c s, e)

len-blake3 : (s hex : String) → "blake3:" <> hex ≡ s → len s ≡ 7 + len hex
len-blake3 s hex e = ap len (sym e) ∙ len-append "blake3:" hex

pub is_content_hash_iff : (s : String) → (is_content_hash s ≡ true) ↔ IsContentHash s
unfolding is_content_hash
is_content_hash_iff s = (
  λ h.
      let (marked, long) = &&-eq-true (starts_with s "blake3:") (ltb 7 (len s)) h in
      let (hex, e) = (starts_with_iff s "blake3:").0 marked in
      (hex, λ empty. absurd (ground (arith, len-blake3 s hex e, ap len empty)), e),
  λ (hex, full, e).
      let marked = (starts_with_iff s "blake3:").1 (hex, e) in
      let long : ltb 7 (len s) ≡ true = ground (arith, len-blake3 s hex e, len-pos hex full) in
      &&-intro (starts_with s "blake3:") (ltb 7 (len s)) marked long,
)
