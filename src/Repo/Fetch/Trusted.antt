-- ===== src/Repo/Fetch/Trusted.antt =====
-- What a pin that `locate_verified_pin` returns has passed.
use lar.Base.{
  ◌≡◌, ap, ◌∙◌, subst, arith, eq_iff, find-some, &&-eq-true, >>=-eq-ok, guard-eq-ok, ok_or-eq-ok,
  map_err-ok, ok-pair, Memᴰ, Memᴰ-cons, not-Memᴰ-nil, ◌⊎◌, inl, inr, Bool-cases, ℕ, String, true,
  false, Option, some, List, [], ◌∷◌, ◌==◌, ok, ok_or,
}
use lar.Repo.Error.{package_not_found, untrusted_key}
use lar.Repo.Sources.{SourceEntry}
use lar.Repo.Trust.{Crypto, TrustFile, TrustedKey, load_trust, find_trusted_key}
use lar.Repo.Index.{IndexPackage, PackageIndex, find_pin, verify_index_package}
use lar.Repo.Advisories.{
  Advisory, AdvisoriesFile, Digest, matches, verify_advisories, require_signature_fields,
}
use lar.Repo.Trust.{
  has_key_id, verify_content_hash, verify_message, parse_public_key, parse_signature,
}
use lar.Repo.Index.{is_pin, index_pin_signing_message}
use lar.Repo.Advisories.{is_absent_placeholder, verify_published, compute_advisories_content_hash}
use lar.Repo.Advisories.Matches.{Names, matches_iff}
use lar.Repo.Fetch.{
  Network, check_matches, check_advisories_for_fetch, read_index, read_advisories,
  locate_verified_pin,
}

module _ (crypto : Crypto) where
  -- A trusted key that signs the message: the signature verifies under its public key.
  pub record IsSigned (trust : TrustFile) (key_id message signature : String) : Type 0 where
    pub key : TrustedKey
    pub trusted : Memᴰ key trust.keys
    pub same_id : key.id ≡ key_id
    pub verifying : crypto.VerifyingKey
    pub public : parse_public_key crypto key.public_key ≡ ok verifying
    pub bytes : List ℕ
    pub parsed : parse_signature crypto signature ≡ ok bytes
    pub verified : crypto.verify verifying message bytes ≡ true

  verify_message-IsSigned :
      (trust : TrustFile) (key_id message signature : String) (key : TrustedKey)
      → find_trusted_key trust key_id ≡ some key
      → verify_message crypto key.public_key message signature ≡ ok tt
      → IsSigned trust key_id message signature
  unfolding find_trusted_key verify_message
  verify_message-IsSigned trust key_id message signature key found h =
      let (m, same) = find-some (has_key_id key_id) trust.keys found in
      let (k, a, h1) = >>=-eq-ok (parse_public_key crypto key.public_key) _ h in
      let (sig, b, h2) = >>=-eq-ok (parse_signature crypto signature) _ h1 in
      record {
        key = key;
        trusted = m;
        same_id = (eq_iff key.id key_id).0 same;
        verifying = k;
        public = a;
        bytes = sig;
        parsed = b;
        verified = ground arith;
      }

  module _ (digest : Digest) where
    -- The advisories of a source: none are published, or a trusted key signs the hash that is
    -- computed again from them.
    abbrev pub AreSigned : AdvisoriesFile → TrustFile → Type 0
    AreSigned file trust =
        (is_absent_placeholder file ≡ true)
        ⊎ ((compute_advisories_content_hash digest file ≡ ok file.content_hash)
            × IsSigned trust file.key_id file.content_hash file.signature)

    verify_published-IsSigned :
        (file : AdvisoriesFile) (trust : TrustFile)
        → verify_published crypto digest file trust ≡ ok tt
        → (compute_advisories_content_hash digest file ≡ ok file.content_hash)
          × IsSigned trust file.key_id file.content_hash file.signature
    unfolding verify_published verify_content_hash
    verify_published-IsSigned file trust h =
        let (_, a, h1) = >>=-eq-ok (require_signature_fields file) _ h in
        let (expected, b, h2) = >>=-eq-ok (compute_advisories_content_hash digest file) _ h1 in
        let (c, h3) = guard-eq-ok (expected == file.content_hash) _ _ h2 in
        let (key, d, h4) =
          >>=-eq-ok (ok_or (find_trusted_key trust file.key_id) (untrusted_key file.key_id)) _ h3 in
        (
          b ∙ ap ok ((eq_iff expected file.content_hash).0 c),
          verify_message-IsSigned trust file.key_id file.content_hash file.signature key
              (ok_or-eq-ok (find_trusted_key trust file.key_id) _ d)
              (map_err-ok _ (verify_message crypto key.public_key file.content_hash file.signature)
                h4),
        )

    pub verify_advisories-AreSigned :
        (file : AdvisoriesFile) (trust : TrustFile)
        → verify_advisories crypto digest file trust ≡ ok tt
        → AreSigned file trust
    unfolding verify_advisories
    verify_advisories-AreSigned file trust h = elim (Bool-cases (is_absent_placeholder file)) [
      | inl e ↦ inl e
      | inr e ↦ inr (verify_published-IsSigned file trust (rw e at h))
    ]

check_matches_lem :
    (id version : String) (advs : List Advisory) (a : Advisory)
    → check_matches id version advs ≡ ok tt
    → Memᴰ a advs
    → a.yanked ≡ false
unfolding check_matches
check_matches_lem id version [] a h m = absurd (not-Memᴰ-nil a m)
check_matches_lem id version (b ∷ advs) a h m = elim ((Memᴰ-cons a b advs).0 m) [
  | inl e ↦ let here : b.yanked ≡ false = ground arith in ap (λ (z : Advisory). z.yanked) e ∙ here
  | inr n ↦ check_matches_lem id version advs a (ground arith) n
]

module _ (crypto : Crypto) (digest : Digest) (net : Network) where
  -- `trust` and `index` and `advisories` are what the trust file and the source say.
  pub record IsTrustedPin (trust_toml : Option TrustFile) (src : SourceEntry) (id version : String)
      (base : net.SourceBase) (pkg : IndexPackage) : Type 0 where
    pub trust : TrustFile
    pub trust_is : load_trust crypto trust_toml ≡ ok trust
    pub base_is : net.parse_uri src.uri ≡ ok base
    pub index : PackageIndex
    pub index_is : read_index crypto digest net base ≡ ok index
    pub listed : Memᴰ pkg index.packages
    pub id_is : pkg.id ≡ id
    pub version_is : pkg.version ≡ version
    pub signed : IsSigned crypto trust pkg.key_id (index_pin_signing_message pkg) pkg.signature
    pub advisories : AdvisoriesFile
    pub advisories_are : read_advisories crypto digest net base ≡ ok advisories
    pub advisories_signed : AreSigned crypto digest advisories trust
    pub not_yanked :
        (a : Advisory)
        → Memᴰ a advisories.advisories
        → Names a id version (some pkg.content_hash)
        → a.yanked ≡ false

  -- A pin that is located is in the source's index under its id and version, a trusted key signs
  -- its identity, file, hash and dependencies, the source's advisories are absent or signed by a
  -- trusted key, and none of them that names the pin yanks it.
  pub locate_verified_pin-IsTrustedPin :
      (trust_toml : Option TrustFile) (src : SourceEntry) (id version : String)
      (base : net.SourceBase) (pkg : IndexPackage)
      → locate_verified_pin crypto digest net trust_toml src id version ≡ ok (base, pkg)
      → IsTrustedPin trust_toml src id version base pkg
  unfolding locate_verified_pin find_pin verify_index_package check_advisories_for_fetch
  locate_verified_pin-IsTrustedPin trust_toml src id version base pkg h =
      let (b, h0, h1) = >>=-eq-ok (net.parse_uri src.uri) _ h in
      let (index, a1, h2) = >>=-eq-ok (read_index crypto digest net b) _ h1 in
      let (trust, a2, h3) = >>=-eq-ok (load_trust crypto trust_toml) _ h2 in
      let (advisories, a3, h4) = >>=-eq-ok (read_advisories crypto digest net b) _ h3 in
      let (_, a4, h5) = >>=-eq-ok (verify_advisories crypto digest advisories trust) _ h4 in
      let (p, a5, h6) =
        >>=-eq-ok (ok_or (find_pin index id version) (package_not_found id version)) _ h5 in
      let (_, a6, h7) =
        >>=-eq-ok (check_advisories_for_fetch advisories id version (some p.content_hash)) _ h6 in
      let (key, a7, h8) =
        >>=-eq-ok (ok_or (find_trusted_key trust p.key_id) (untrusted_key p.key_id)) _ h7 in
      let (_, a8, h9) = >>=-eq-ok (verify_index_package crypto key.public_key p) _ h8 in
      let (m, same) =
        find-some (is_pin id version) index.packages
          (ok_or-eq-ok (find_pin index id version) _ a5) in
      let (same_id, same_version) = &&-eq-true (p.id == id) (p.version == version) same in
      let (base_same, pkg_same) = ok-pair h9 in
      subst (λ z. IsTrustedPin trust_toml src id version z pkg) base_same
        (subst (λ z. IsTrustedPin trust_toml src id version b z) pkg_same
          (record {
            trust = trust;
            trust_is = a2;
            base_is = h0;
            index = index;
            index_is = a1;
            listed = m;
            id_is = (eq_iff p.id id).0 same_id;
            version_is = (eq_iff p.version version).0 same_version;
            signed =
                verify_message-IsSigned crypto trust p.key_id (index_pin_signing_message p)
                  p.signature key (ok_or-eq-ok (find_trusted_key trust p.key_id) _ a7)
                  (map_err-ok _
                    (verify_message crypto key.public_key (index_pin_signing_message p) p.signature)
                    a8);
            advisories = advisories;
            advisories_are = a3;
            advisories_signed = verify_advisories-AreSigned crypto digest advisories trust a4;
            not_yanked = λ a n names.
                check_matches_lem id version (matches advisories id version (some p.content_hash)) a
                  a6 ((matches_iff advisories id version (some p.content_hash) a).1 (n, names));
          }))
