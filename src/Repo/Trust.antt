-- ===== src/Repo/Trust.antt =====
-- crates/lar-repo/src/trust.rs: the trusted publisher keys and the verification of signatures. The
-- crates `base64` and `ed25519_dalek` are a parameter.
use Prim.Native.Char.{code}
use lar.Base.{
  ℕ, ◌/◌, ◌%◌, String, Bool, not, Option, none, some, List, [], ◌∷◌, ◌++◌, ◌==◌, ◌<>◌, nat_eq,
  str_lt, any, find, contains, length, get_elem?, Result, Done, ok, guard, ok_or, ◌>>=◌, ◌>>◌,
  if◌then◌else◌,
}
use lar.Repo.Error.{
  Error, bad_signature, key_exists, key_not_found, invalid_key, invalid_trust, other,
  unsupported_format, duplicate_key_id, key_id_mismatch, base64_prefix, not_base64, wrong_length,
  bad_key,
}
use lar.Repo.Sources.{position, remove_at}

abbrev pub trust_format : ℕ
trust_format = 1

pub record TrustedKey : Type 0 where
  pub id : String
  pub public_key : String
  pub comment : String

pub record TrustFile : Type 0 where
  pub format : ℕ
  pub keys : List TrustedKey

-- `STANDARD.decode` and `encode`, `VerifyingKey::from_bytes` and `as_bytes`, and `verify`.
pub record Crypto : Type 1 where
  pub VerifyingKey : Type 0
  pub decode : String → Option (List ℕ)
  pub encode : List ℕ → String
  pub from_bytes : List ℕ → Option VerifyingKey
  pub as_bytes : VerifyingKey → List ℕ
  pub verify : VerifyingKey → String → List ℕ → Bool

-- `value.strip_prefix(prefix)`
unfoldable pub strip_prefix : String → String → Option String
strip_prefix String.[] value = some value
strip_prefix (String.◌∷◌ c prefix) String.[] = none
strip_prefix (String.◌∷◌ c prefix) (String.◌∷◌ d value) =
    let rest = strip_prefix prefix value in if nat_eq (code c) (code d) then rest else none

abbrev hex_digits : List String
hex_digits =
    "0" ∷ "1" ∷ "2" ∷ "3" ∷ "4" ∷ "5" ∷ "6" ∷ "7" ∷ "8" ∷ "9" ∷ "a" ∷ "b" ∷ "c" ∷ "d" ∷ "e" ∷ "f"
    ∷ []

abbrev hex_digit : ℕ → String
hex_digit n = elim (get_elem? hex_digits n) [ none ↦ "" | some digit ↦ digit ]

unfoldable pub hex_encode : List ℕ → String
hex_encode [] = ""
hex_encode (b ∷ bytes) = hex_digit (b / 16) <> (hex_digit (b % 16) <> hex_encode bytes)

abbrev pub has_key_id : String → TrustedKey → Bool
has_key_id key_id k = k.id == key_id

unfoldable pub find_trusted_key : TrustFile → String → Option TrustedKey
unfolding find
find_trusted_key file key_id = find (has_key_id key_id) file.keys

module _ (crypto : Crypto) where
  unfoldable pub decode_key_bytes : String → Result Error (List ℕ)
  unfolding strip_prefix
  decode_key_bytes value = do
    raw ← ok_or (strip_prefix "base64:" value) (invalid_key base64_prefix)
    ok_or (crypto.decode raw) (invalid_key not_base64)

  unfoldable pub parse_public_key : String → Result Error crypto.VerifyingKey
  unfolding decode_key_bytes
  parse_public_key public_key = do
    bytes ← decode_key_bytes public_key
    guard (nat_eq (length bytes) 32) (invalid_key wrong_length)
    ok_or (crypto.from_bytes bytes) (invalid_key bad_key)

  unfoldable pub parse_signature : String → Result Error (List ℕ)
  unfolding decode_key_bytes
  parse_signature signature = do
    bytes ← decode_key_bytes signature
    guard (nat_eq (length bytes) 64) (other wrong_length)
    ok bytes

  -- The message is a text, of which the UTF-8 bytes are signed.
  unfoldable pub verify_message : String → String → String → Result Error Done
  unfolding parse_public_key parse_signature
  verify_message public_key message signature = do
    verifying ← parse_public_key public_key
    sig ← parse_signature signature
    guard (crypto.verify verifying message sig) (bad_signature "" "")

  unfoldable pub verify_content_hash : String → String → String → Result Error Done
  unfolding verify_message
  verify_content_hash public_key content_hash signature =
      verify_message public_key content_hash signature

  unfoldable pub key_id_from_public : String → Result Error String
  unfolding parse_public_key hex_encode
  key_id_from_public public_key = do
    verifying ← parse_public_key public_key
    ok ("ed25519:" <> hex_encode (crypto.as_bytes verifying))

  unfoldable pub normalize_public_key : String → Result Error String
  unfolding parse_public_key
  normalize_public_key public_key = do
    verifying ← parse_public_key public_key
    ok ("base64:" <> crypto.encode (crypto.as_bytes verifying))

  -- The loop of `validate`; `ids` are the ids before.
  unfoldable pub validate_keys : List String → List TrustedKey → Result Error Done
  unfolding parse_public_key key_id_from_public contains
  validate_keys ids [] = ok tt
  validate_keys ids (key ∷ keys) = do
    guard (not (contains ids key.id)) (invalid_trust (duplicate_key_id key.id))
    parsed ← parse_public_key key.public_key
    expected ← key_id_from_public key.public_key
    guard (key.id == expected) (invalid_trust (key_id_mismatch key.id))
    validate_keys (key.id ∷ ids) keys

  unfoldable pub validate : TrustFile → Result Error Done
  unfolding validate_keys
  validate file = do
    guard (nat_eq file.format trust_format) (invalid_trust (unsupported_format file.format))
    validate_keys [] file.keys

  -- A missing `trust.toml` is an empty one.
  unfoldable pub load_trust : Option TrustFile → Result Error TrustFile
  unfolding validate
  load_trust none = ok (record { format = trust_format; keys = [] })
  load_trust (some file) = do validate file; ok file

  -- What `trust.toml` holds afterwards.
  unfoldable pub save_trust : TrustFile → Result Error TrustFile
  unfolding validate
  save_trust file = do validate file; ok file

  unfoldable pub insert_key : TrustedKey → List TrustedKey → List TrustedKey
  insert_key k [] = k ∷ []
  insert_key k (j ∷ keys) =
      let rest = insert_key k keys in if str_lt j.id k.id then j ∷ rest else k ∷ j ∷ keys

  -- `sort_by(|a, b| a.id.cmp(&b.id))`, which is stable
  unfoldable pub sort_keys : List TrustedKey → List TrustedKey
  unfolding insert_key
  sort_keys [] = []
  sort_keys (k ∷ keys) = insert_key k (sort_keys keys)

  unfoldable pub trust_add :
      Option TrustFile → String → String → Result Error (TrustedKey × TrustFile)
  unfolding load_trust save_trust key_id_from_public normalize_public_key sort_keys any
  trust_add disk public_key comment = do
    file ← load_trust disk
    id ← key_id_from_public public_key
    guard (not (any (has_key_id id) file.keys)) (key_exists id)
    normal ← normalize_public_key public_key
    let entry : TrustedKey = record { id = id; public_key = normal; comment = comment }
    saved ← save_trust (record file { keys = sort_keys (file.keys ++ entry ∷ []) })
    ok (entry, saved)

  unfoldable pub trust_remove : Option TrustFile → String → Result Error (TrustedKey × TrustFile)
  unfolding load_trust save_trust
  trust_remove disk key_id = do
    file ← load_trust disk
    idx ← ok_or (position (has_key_id key_id) file.keys) (key_not_found key_id)
    entry ← ok_or (get_elem? file.keys idx) (key_not_found key_id)
    saved ← save_trust (record file { keys = remove_at file.keys idx })
    ok (entry, saved)
