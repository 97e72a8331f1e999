-- ===== src/Container/Took.antt =====
-- What each stage of the header reader took from a faithful source when it returned.
use mathlib.Core.Path.{subst, subst₂, ap₂}
use quantum_encryptor.Prelude.{
  ℕ, ◌≤◌, ◌<◌, ◌≡◌, refl, sym, ap, ◌∙◌, true, [], ◌++◌, append-nil, append_assoc, arith, inl, inr,
  Bool-cases, Bytes, Text, length, All, All-append_left, All-append_right, IsByte, list_eq,
  list_eq→eq, to_be, from_be, to_be-from_be_u16, to_be-from_be_u32, take, drop, take-append-drop,
  length-drop, ◌==◌,
}
use quantum_encryptor.Prelude.Utf8.{decode_utf8_inv}
use quantum_encryptor.Config.{
  magic_bytes, format_version, header_base_bytes, max_kem_alg_name_bytes, max_kem_ciphertext_bytes,
  x25519_key_bytes,
}
use quantum_encryptor.Failure.{Result, ok, file_format_error, unsupported_algorithm_error}
use quantum_encryptor.Exec.{>>=-eq_ok, check-eq_ok, proceed-eq_ok, outcome_value, outcome_state}
use quantum_encryptor.Container.Source.{BinaryReader, IsFaithful}
use quantum_encryptor.Container.Format.{version_bytes, suite_bytes, ciphertext_bytes, x25519_length}
use quantum_encryptor.Container.Suites.{IsSuite, suite_allowed-IsSuite}
use quantum_encryptor.Container.Faithful.{read_exact_faithful}
use quantum_encryptor.Container.{
  ReadState, read_exact, read_version, read_suite, read_ciphertext, read_x25519, version_supported,
  suite_allowed, plausible, decoded_suite,
}

plausible_inv : (limit n : ℕ) → plausible limit n ≡ true → (0 < n) × (n ≤ limit)
unfolding plausible
plausible_inv limit n h = ground arith

decoded_suite_inv : (name t : Bytes) → decoded_suite name ≡ ok t → IsSuite t → name ≡ t
unfolding decoded_suite
decoded_suite_inv name t e s = decode_utf8_inv name t s.ascii (ground arith)

module _ {S : Type 0} (read : BinaryReader S) (remaining : S → Bytes)
    (faithful : IsFaithful read remaining) where
  -- From `st` to `st'` the source gave up `d`, which was added to the header.
  pub record Took (d : Bytes) (st st' : ReadState S) : Type 0 where
    pub left : remaining st.source ≡ d ++ remaining st'.source
    pub header : st'.header ≡ st.header ++ d

  pub Took-append :
      (d e : Bytes) {st t st' : ReadState S} → Took d st t → Took e t st' → Took (d ++ e) st st'
  Took-append d e h k = record {
    left = h.left ∙ ap (λ (l : Bytes). d ++ l) k.left ∙ sym (append_assoc d e _);
    header = k.header ∙ ap (λ (l : Bytes). l ++ e) h.header ∙ append_assoc _ d e;
  }

  pub exact-Took :
      (size : ℕ) {d : Bytes} {st st' : ReadState S}
      → read_exact read size st ≡ (ok d, st')
      → Took d st st' × (length d ≡ size)
  exact-Took size {d} {st} {st'} e =
      let (left, header, full) = read_exact_faithful read remaining faithful size d st st' e in
      (record { left = left; header = header }, full)

  -- Bytes taken from a source of bytes.
  pub taken-IsByte :
      (d : Bytes) {st st' : ReadState S}
      → Took d st st'
      → All IsByte (remaining st.source)
      → All IsByte d × All IsByte (remaining st'.source)
  taken-IsByte d {st' = st'} k h =
      let h' = subst (All IsByte) k.left h in
      (
        All-append_left IsByte d (remaining st'.source) h',
        All-append_right IsByte d (remaining st'.source) h',
      )

  version-Took_of :
      (fixed : Bytes) {v : ℕ} {st t st' : ReadState S}
      → Took fixed st t
      → length fixed ≡ header_base_bytes
      → All IsByte fixed
      → list_eq (take 6 fixed) magic_bytes ≡ true
      → version_supported (from_be (drop 6 fixed)) ≡ true
      → from_be (drop 6 fixed) ≡ v
      → t ≡ st'
      → Took (version_bytes v) st st' × (version_supported v ≡ true)
  version-Took_of fixed {v} {st} took full bytes magic supported number same =
      (subst₂ (λ d u. Took d st u) shape same took, rw (← number) supported)
    where
      parts : take 6 fixed ++ drop 6 fixed ≡ fixed
      parts = take-append-drop 6 fixed

      number_bytes : to_be 2 (from_be (drop 6 fixed)) ≡ drop 6 fixed
      number_bytes =
          to_be-from_be_u16 (drop 6 fixed) (omega (arith, length-drop 6 fixed))
            (All-append_right IsByte (take 6 fixed) (drop 6 fixed) (rw parts bytes))

      shape : fixed ≡ version_bytes v
      shape =
          sym parts
          ∙ ap₂ (λ (a b : Bytes). a ++ b) (list_eq→eq _ magic_bytes magic)
              (sym number_bytes ∙ ap (to_be 2) number)

  pub version-Took :
      {v : ℕ} {st st' : ReadState S}
      → read_version read st ≡ (ok v, st')
      → All IsByte (remaining st.source)
      → Took (version_bytes v) st st' × (version_supported v ≡ true)
  unfolding read_version
  version-Took {v} {st} {st'} e bytes =
      let (fixed, t, run, e1) = >>=-eq_ok (read_exact read header_base_bytes) _ st e in
      let (took, full) = exact-Took header_base_bytes run in
      let (magic, e2) = check-eq_ok _ file_format_error _ t e1 in
      let (supported, e3) = check-eq_ok _ file_format_error _ t e2 in
      version-Took_of fixed took full (taken-IsByte fixed took bytes).0 magic supported
        (outcome_value e3) (outcome_state e3)

  -- A length field and the bytes that it counts.
  counted :
      (w : ℕ) (front d : Bytes) {st t u : ReadState S}
      → to_be w (from_be front) ≡ front
      → Took front st t
      → Took d t u
      → length d ≡ from_be front
      → Took (to_be w (length d) ++ d) st u
  counted w front d {st} {t} {u} canonical k k' full =
      subst (λ f. Took (f ++ d) st u) (sym canonical ∙ ap (to_be w) (sym full))
        (Took-append front d k k')

  pub suite-Took :
      (v : ℕ) {suite : Text} {st st' : ReadState S}
      → read_suite read v st ≡ (ok suite, st')
      → All IsByte (remaining st.source)
      → Took (suite_bytes suite) st st' × (suite_allowed v suite ≡ true)
  unfolding read_suite
  suite-Took v {suite} {st} {st'} e bytes =
      let (front, t, run, e1) = >>=-eq_ok (read_exact read 2) _ st e in
      let (took, full) = exact-Took 2 run in
      let (_, e2) =
        check-eq_ok (plausible max_kem_alg_name_bytes (from_be front)) file_format_error _ t e1 in
      let (name, u, run', e3) = >>=-eq_ok (read_exact read (from_be front)) _ t e2 in
      let (took', full') = exact-Took (from_be front) run' in
      let (kem_alg, decoded, e4) = proceed-eq_ok (decoded_suite name) _ u e3 in
      let (allowed, e5) = check-eq_ok _ unsupported_algorithm_error _ u e4 in
      let value : kem_alg ≡ suite = outcome_value e5 in
      let allowed' : suite_allowed v suite ≡ true = rw (← value) allowed in
      let spelled : name ≡ suite =
        decoded_suite_inv name suite (decoded ∙ ap ok value)
          (suite_allowed-IsSuite v suite allowed') in
      let canonical = to_be-from_be_u16 front full (taken-IsByte front took bytes).0 in
      (
        subst₂ (λ d s. Took (to_be 2 (length d) ++ d) st s) spelled (outcome_state e5)
            (counted 2 front name canonical took took' full'),
        allowed',
      )

  pub ciphertext-Took :
      {ct : Bytes} {st st' : ReadState S}
      → read_ciphertext read st ≡ (ok ct, st')
      → All IsByte (remaining st.source)
      → Took (ciphertext_bytes ct) st st' × (0 < length ct) × (length ct ≤ max_kem_ciphertext_bytes)
  unfolding read_ciphertext
  ciphertext-Took {ct} {st} {st'} e bytes =
      let (front, t, run, e1) = >>=-eq_ok (read_exact read 4) _ st e in
      let (took, full) = exact-Took 4 run in
      let (sane, e2) = check-eq_ok _ file_format_error _ t e1 in
      let (took', full') = exact-Took (from_be front) e2 in
      let (low, high) = plausible_inv max_kem_ciphertext_bytes (from_be front) sane in
      let canonical = to_be-from_be_u32 front full (taken-IsByte front took bytes).0 in
      (counted 4 front ct canonical took took' full', rw full' low, rw full' high)

  pub x25519-Took :
      (v : ℕ) {x : Bytes} {st st' : ReadState S}
      → read_x25519 read v st ≡ (ok x, st')
      → Took x st st' × (length x ≡ x25519_length v)
  unfolding read_x25519
  x25519-Took v {x} {st} {st'} e = elim (Bool-cases (v == format_version)) [
    | inl current ↦ rw current (exact-Took x25519_key_bytes (rw current at e))
    | inr legacy ↦
        let e' : ◌≡◌ {A = Result Bytes × ReadState S} (ok [], st) (ok x, st') = rw legacy at e in
        rw legacy (
          subst₂ (λ d s. Took d st s × (length d ≡ 0)) (outcome_value e') (outcome_state e')
            (record { left = refl; header = sym (append-nil st.header) }, refl))
  ]
