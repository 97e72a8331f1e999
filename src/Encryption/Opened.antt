-- ===== src/Encryption/Opened.antt =====
-- What `decrypt_file_pro` returns was opened by AES-GCM under a key of the private key.
use mathlib.Core.Path.{subst}
use quantum_encryptor.Prelude.{
  ◌≡◌, refl, ap, ◌⊎◌, inl, inr, Bool, true, false, Option, none, some, List, [], ◌∷◌, Bytes, Text,
  if◌then◌else◌, arith, ◌∙◌, ◌||◌, list_eq, list_eq_refl, one_of,
}
use quantum_encryptor.Failure.{Result, ok, err, ok-injective, bind_ok, then_ok, ◌>>=◌}
use quantum_encryptor.Failure
use quantum_encryptor.Backend.{Primitives, Oqs, AesGcm}
use quantum_encryptor.Container.{EncryptedFileParts, parse_encrypted_file_parts}
use quantum_encryptor.Encryption.{
  or_none, file_key, compatible, open_with, another_suite, decrypt_parts, decrypt_parsed,
  decrypt_file_pro, established,
}
use quantum_encryptor.Keys.{private, validate_key_material}
use quantum_encryptor.Kem.{resolve_decryption_kem_algorithms, require_oqs}

module _ (lib : Primitives) (aes : AesGcm) (backend : Option Oqs) where
  -- A candidate of the backend decapsulated a secret, and the key derived from it opened the payload.
  pub record Opens (oqs : Oqs) (parts : EncryptedFileParts)
      (shares : Option (Bytes × Bytes) × Bytes) (candidates : List Text) (plain : Bytes)
      : Type 0 where
    pub candidate : Text
    pub listed : one_of candidate candidates ≡ true
    pub secret : Bytes
    pub aes_key : Bytes
    pub fits : compatible lib aes backend oqs parts shares.1 candidate ≡ ok true
    pub decapsulated : oqs.decap_secret candidate shares.1 parts.ciphertext_kem ≡ ok secret
    pub derived : file_key lib aes backend parts shares.0 secret ≡ ok aes_key
    pub opened :
        aes.decrypt aes_key parts.nonce parts.header_aad parts.encrypted_data_aes ≡ some plain

  opened_first :
      (o : Option Bytes) (rest : Result (Option Bytes)) {plain : Bytes}
      → (elim o [ some p ↦ ok (some p) | none ↦ rest ]) ≡ ok (some plain)
      → (o ≡ some plain) ⊎ (rest ≡ ok (some plain))
  opened_first none rest e = inr e
  opened_first (some p) rest e = inl (ok-injective e)

  or_true : (a b : Bool) → b ≡ true → (a || b) ≡ true
  or_true a b h = ground arith

  either_ok :
      (b : Bool) (m k : Result (Option Bytes)) {plain : Bytes}
      → (if b then m else k) ≡ ok (some plain)
      → ((b ≡ true) × (m ≡ ok (some plain))) ⊎ (k ≡ ok (some plain))
  either_ok true m k e = inl (refl, e)
  either_ok false m k e = inr e

  first_ok :
      (oqs : Oqs) (parts : EncryptedFileParts) (shares : Option (Bytes × Bytes) × Bytes) (c : Text)
      (cs : List Text) (rest : Result (Option Bytes)) {plain : Bytes}
      → compatible lib aes backend oqs parts shares.1 c ≡ ok true
      → (oqs.decap_secret c shares.1 parts.ciphertext_kem >>= λ secret.
          file_key lib aes backend parts shares.0 secret >>= λ aes_key.
          elim (aes.decrypt aes_key parts.nonce parts.header_aad parts.encrypted_data_aes) [
            | some p ↦ ok (some p)
            | none ↦ rest
          ])
        ≡ ok (some plain)
      → Opens oqs parts shares (c ∷ cs) plain ⊎ (rest ≡ ok (some plain))
  unfolding one_of
  first_ok oqs parts shares c cs rest fits e =
      let (secret, decapsulated, e1) =
        bind_ok (oqs.decap_secret c shares.1 parts.ciphertext_kem) _ e in
      let (aes_key, derived, e2) = bind_ok (file_key lib aes backend parts shares.0 secret) _ e1 in
      elim (opened_first (aes.decrypt aes_key parts.nonce parts.header_aad parts.encrypted_data_aes)
        rest e2) [
          | inl opened ↦ inl (record {
            candidate = c;
            listed = rw (list_eq_refl c) refl;
            secret = secret;
            aes_key = aes_key;
            fits = fits;
            decapsulated = decapsulated;
            derived = derived;
            opened = opened;
          })
          | inr later ↦ inr later
        ]

  of_later :
      (oqs : Oqs) (parts : EncryptedFileParts) (shares : Option (Bytes × Bytes) × Bytes) (c : Text)
      (cs : List Text) {plain : Bytes}
      → Opens oqs parts shares cs plain
      → Opens oqs parts shares (c ∷ cs) plain
  unfolding one_of
  of_later oqs parts shares c cs o = record {
    candidate = o.candidate;
    listed = or_true (list_eq o.candidate c) (one_of o.candidate cs) o.listed;
    secret = o.secret;
    aes_key = o.aes_key;
    fits = o.fits;
    decapsulated = o.decapsulated;
    derived = o.derived;
    opened = o.opened;
  }

  open_with-Opens :
      (oqs : Oqs) (parts : EncryptedFileParts) (shares : Option (Bytes × Bytes) × Bytes)
      (candidates : List Text) {plain : Bytes}
      → open_with lib aes backend oqs parts shares candidates ≡ ok (some plain)
      → Opens oqs parts shares candidates plain
  unfolding open_with
  open_with-Opens oqs parts shares [] e = cc
  open_with-Opens oqs parts shares (c ∷ cs) e =
      let (b, tested, e0) = bind_ok (compatible lib aes backend oqs parts shares.1 c) _ e in
      elim (either_ok b _ _ e0) [
        | inl (fits, e1) ↦
            elim (first_ok oqs parts shares c cs (open_with lib aes backend oqs parts shares cs)
              (tested ∙ ap (λ (x : Bool). ok x) fits) e1) [
                | inl opens ↦ opens
                | inr later ↦
                    of_later oqs parts shares c cs (open_with-Opens oqs parts shares cs later)
              ]
        | inr later ↦ of_later oqs parts shares c cs (open_with-Opens oqs parts shares cs later)
      ]

  -- What a call that returned `plain` has found.
  pub record Decrypted (blob secret_key : Bytes) (expected : Option Text) (plain : Bytes)
      (name : Text) : Type 0 where
    pub parts : EncryptedFileParts
    pub oqs : Oqs
    pub shares : Option (Bytes × Bytes) × Bytes
    pub candidates : List Text
    pub loaded : backend ≡ some oqs
    pub resolved : resolve_decryption_kem_algorithms backend parts.metadata.kem_alg ≡ ok candidates
    pub valid :
        (u : Unit {0}) × (validate_key_material lib secret_key parts.metadata.kem_alg private
          ≡ ok u)
    pub parsed : parse_encrypted_file_parts blob ≡ ok parts
    pub suite : name ≡ parts.metadata.kem_alg
    pub wanted : another_suite lib aes backend expected name ≡ false
    pub agreed : established lib aes backend parts secret_key ≡ ok shares
    pub opens : Opens oqs parts shares candidates plain

  or_none-some :
      (r : Result (Option Bytes)) {plain : Bytes} → or_none r ≡ some plain → r ≡ ok (some plain)
  unfolding or_none
  or_none-some (err e) h = cc
  or_none-some (ok o) h = ap (λ (x : Option Bytes). ok x) h

  backend_of : (b : Option Oqs) {oqs : Oqs} → require_oqs b ≡ ok oqs → b ≡ some oqs
  unfolding require_oqs
  backend_of none e = cc
  backend_of (some o) e = ap (λ (x : Oqs). some x) (ok-injective e)

  parts_ok :
      (blob secret_key : Bytes) (expected : Option Text) (parts : EncryptedFileParts)
      {plain : Bytes}
      → parse_encrypted_file_parts blob ≡ ok parts
      → another_suite lib aes backend expected parts.metadata.kem_alg ≡ false
      → decrypt_parts lib aes backend parts secret_key ≡ ok (some plain)
      → Decrypted blob secret_key expected plain parts.metadata.kem_alg
  unfolding decrypt_parts
  parts_ok blob secret_key expected parts parsed same e =
      let e1 = then_ok (validate_key_material lib secret_key parts.metadata.kem_alg private) _ e in
      let (shares, agreed, e2) = bind_ok (established lib aes backend parts secret_key) _ e1 in
      let (candidates, resolved, e3) =
        bind_ok (resolve_decryption_kem_algorithms backend parts.metadata.kem_alg) _ e2 in
      let (oqs, required, e4) = bind_ok (require_oqs backend) _ e3 in
      record {
        parts = parts;
        oqs = oqs;
        shares = shares;
        candidates = candidates;
        loaded = backend_of backend required;
        resolved = resolved;
        valid =
            Failure.first_ok (validate_key_material lib secret_key parts.metadata.kem_alg private) _
              e;
        parsed = parsed;
        suite = refl;
        wanted = same;
        agreed = agreed;
        opens = open_with-Opens oqs parts shares candidates e4;
      }

  name_of : {a b : Text} → ◌≡◌ {A = Option Text} (some a) (some b) → a ≡ b
  name_of e = cc

  parsed_ok :
      (blob secret_key : Bytes) (expected : Option Text) (r : Result EncryptedFileParts)
      {plain : Bytes} {name : Text}
      → parse_encrypted_file_parts blob ≡ r
      → decrypt_parsed lib aes backend r secret_key expected ≡ (some plain, some name)
      → Decrypted blob secret_key expected plain name
  unfolding decrypt_parsed
  parsed_ok blob secret_key expected (err e) parsed h = cc
  parsed_ok blob secret_key expected (ok parts) {plain} {name} parsed h =
      outcome (another_suite lib aes backend expected parts.metadata.kem_alg) refl h
    where
      outcome :
          (b : Bool)
          → another_suite lib aes backend expected parts.metadata.kem_alg ≡ b
          → ◌≡◌ {A = Option Bytes × Option Text}
              (if b then (none, some parts.metadata.kem_alg) else (
                or_none (decrypt_parts lib aes backend parts secret_key),
                some parts.metadata.kem_alg,
              ))
              (some plain, some name)
          → Decrypted blob secret_key expected plain name
      outcome true same e = cc
      outcome false same e =
          subst (Decrypted blob secret_key expected plain)
            (name_of (ap (λ (q : Option Bytes × Option Text). q.1) e))
            (parts_ok blob secret_key expected parts parsed same (
              or_none-some (decrypt_parts lib aes backend parts secret_key)
                (ap (λ (q : Option Bytes × Option Text). q.0) e)))

  -- `decrypt_file_pro` that returns data has parsed the container, which names the suite that was
  -- expected, if any, and for which the private key is valid; the data is what AES-GCM opened under
  -- the container's nonce and header and a key derived from what the loaded backend decapsulated
  -- with the private key, by a mechanism that is compatible and among those resolved for the suite.
  pub decrypt_file_pro-Decrypted :
      (blob secret_key : Bytes) (expected : Option Text) {plain : Bytes} {name : Text}
      → decrypt_file_pro lib aes backend blob secret_key expected ≡ (some plain, some name)
      → Decrypted blob secret_key expected plain name
  unfolding decrypt_file_pro
  decrypt_file_pro-Decrypted blob secret_key expected h =
      parsed_ok blob secret_key expected (parse_encrypted_file_parts blob) refl h
