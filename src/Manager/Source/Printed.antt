-- ===== src/Manager/Source/Printed.antt =====
-- `id@version` as an install source.
use Prim.Native.Char.{code}
use Prim.Native.String.{String}
use text.Mathlib.TextLemmas.{cons-append, nil-append}
use lar.Base.{ℕ, ◌<>◌, false, none, some, ◌==◌, nat_eq, codes, ◌≡◌, refl, ap, ◌∙◌, arith, ok}
use lar.Base.Split.{Without}
use lar.Manager.Source.{store, rsplit_once, has_separator, has_lar_extension, parse}

rsplit_once-Without : (sep : ℕ) (s : String) → Without sep (codes s) → rsplit_once sep s ≡ none
unfolding rsplit_once
rsplit_once-Without sep String.[] w = refl
rsplit_once-Without sep (String.◌∷◌ c s) (d, w) =
    let differs : nat_eq (code c) sep ≡ false = ground arith in
    rw (rsplit_once-Without sep s w, differs) refl

rsplit_once-append :
    (before after : String)
    → Without b'@' (codes after)
    → rsplit_once b'@' (before <> ("@" <> after)) ≡ some (before, after)
unfolding rsplit_once
rsplit_once-append String.[] after w =
    let at : "@" <> after ≡ String.◌∷◌ "@" after =
      cons-append "@" String.[] after ∙ ap (String.◌∷◌ "@") (nil-append after) in
    ap (rsplit_once b'@') (nil-append ("@" <> after) ∙ at)
    ∙ rw (rsplit_once-Without b'@' after w) refl
rsplit_once-append (String.◌∷◌ c before) after w =
    ap (rsplit_once b'@') (cons-append c before ("@" <> after))
    ∙ rw (rsplit_once, rsplit_once-append before after w) refl

-- An id and a version joined by `@` are read back, where neither is empty, the id has no `/` or `\`,
-- the version has no `@`, and the text does not end like the name of an archive.
pub parse-versioned :
    (id version : String)
    → (id == "") ≡ false
    → (version == "") ≡ false
    → has_separator id ≡ false
    → Without b'@' (codes version)
    → has_lar_extension (id <> ("@" <> version)) ≡ false
    → parse (id <> ("@" <> version)) ≡ ok (store id (some version))
unfolding parse
parse-versioned id version a b c w d = rw (parse, d, rsplit_once-append id version w, a, b, c) refl
