-- ===== src/Repo/Index/Message.antt =====
-- What the signed message of a pin leaves open.
use text.Mathlib.TextLemmas.{append_assoc}
use lar.Base.{String, ◌<>◌, ◌∷◌, ◌≡◌, sym, ap, ◌∙◌, map_err}
use lar.Base.Map.{Map}
use lar.Repo.Error.{bad_signature}
use lar.Repo.Trust.{Crypto, verify_message}
use lar.Repo.Index.{IndexPackage, dependency_lines, index_pin_signing_message, verify_index_package}

-- The line of a dependency, behind a line break.
abbrev pub line : String → String → String
line dep_id req = "\n" <> ("dep=" <> (dep_id <> ("\t" <> req)))

-- The pin without its first dependency, of which the line stands at the end of the file's name.
abbrev pub moved_line : IndexPackage → String → String → Map String → IndexPackage
moved_line p dep_id req deps = record p { file = p.file <> line dep_id req; dependencies = deps }

lines-append :
    (dep_id req rest : String)
    → (line dep_id req) <> rest ≡ "\n" <> ("dep=" <> (dep_id <> ("\t" <> (req <> rest))))
lines-append dep_id req rest =
    append_assoc "\n" ("dep=" <> (dep_id <> ("\t" <> req))) rest
    ∙ ap (λ z. "\n" <> z)
        (append_assoc "dep=" (dep_id <> ("\t" <> req)) rest
          ∙ ap (λ z. "dep=" <> z)
              (append_assoc dep_id ("\t" <> req) rest
                ∙ ap (λ z. dep_id <> z) (append_assoc "\t" req rest)))

-- A pin that has a dependency, and the pin in which the line of that dependency belongs to the file's
-- name instead, are verified alike: the same signature is good for both, or for neither.
pub verify_index_package-moved_line :
    (crypto : Crypto) (public_key : String) (p : IndexPackage) (dep_id req : String)
    (deps : Map String)
    → verify_index_package crypto public_key (record p { dependencies = (dep_id, req) ∷ deps })
      ≡ verify_index_package crypto public_key (moved_line p dep_id req deps)
unfolding verify_index_package index_pin_signing_message dependency_lines
verify_index_package-moved_line crypto public_key p dep_id req deps =
    let rest = dependency_lines deps in
    let same =
      ap (λ z. p.file <> z) (sym (lines-append dep_id req rest))
      ∙ sym (append_assoc p.file (line dep_id req) rest) in
    ap
      (λ m.
        map_err (λ _. bad_signature p.id p.version)
          (verify_message crypto public_key
            ("lar-index-pin-v1\nid="
              <> (p.id
                  <> ("\nversion="
                      <> (p.version
                          <> ("\ncontent_hash=" <> (p.content_hash <> ("\nfile=" <> m)))))))
            p.signature))
      same
