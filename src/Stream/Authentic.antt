-- ===== src/Stream/Authentic.antt =====
-- `_verify` that returned, and what `decrypt_stream` needs before it writes.
use mathlib.Core.Path.{subst}
use quantum_encryptor.Prelude.{
  ℕ, ◌+◌, ◌≡◌, refl, sym, ap, ◌∙◌, false, Option, none, some, List, [], ◌∷◌, ◌++◌, arith, Bytes,
  Text, length, All, IsByte,
}
use quantum_encryptor.Config.{aes_tag_bytes}
use quantum_encryptor.Failure.{ok, size_limit_error}
use quantum_encryptor.Exec.{
  pure, >>=-eq_ok, proceed-eq_ok, unless-eq_ok, outcome_value, outcome_state,
}
use quantum_encryptor.Backend.{Primitives, Oqs, Aead, StreamingLaw}
use quantum_encryptor.Container.{EncryptedFileHeader, metadata, read_encrypted_file_header}
use quantum_encryptor.Container.Format.{IsLegal, layout}
use quantum_encryptor.Container.Sound.{read_header-IsLegal}
use quantum_encryptor.Stream.Files.{Source, Session, verifying, checkpoint, report}
use quantum_encryptor.Stream.Reader.{exceeds, remaining_size, open_reader, as_source, start_reader}
use quantum_encryptor.Stream.Suite.{encrypted_size_limit, candidate_keys}
use quantum_encryptor.Stream.Taken.{rest_of, as_source-IsFaithful}
use quantum_encryptor.Stream.Processed.{advance, Held, process_payload_ok}
use quantum_encryptor.Stream.Payload.{
  Progress, check_payload_size, process_payload, decryptor, decryptors, accepting, accept, Verified,
  verify,
}

-- `x in xs`
pub data Member {A : Type 0} (x : A) : List A → Type 0 where
  here : (xs : List A) → Member x (x ∷ xs)
  there : (y : A) (xs : List A) → Member x xs → Member x (y ∷ xs)

module _ {C : Type 0} (aead : Aead C) (lib : Primitives) (backend : Option Oqs) where
  -- The source of `sealed` was a header, a payload and a tag, and the context of a key that the
  -- header and the private key give accepted the tag for this header and this payload.
  pub record Authentic (private_key : Bytes) (expected : Option Text) (sealed : Bytes)
      (v : Verified aead lib backend) : Type 0 where
    pub payload : Bytes
    pub tag : Bytes
    pub keys : List Bytes
    pub rest : Bytes
    pub legal : IsLegal v.header
    pub spelled : sealed ≡ v.header.header_aad ++ (payload ++ tag)
    pub tag_size : length tag ≡ aes_tag_bytes
    pub derived : candidate_keys lib backend v.header private_key expected ≡ ok keys
    pub member : Member v.key keys
    pub accepted :
        aead.finalize_with_tag (aead.update (decryptor aead v.header v.key) payload).1 tag
        ≡ some rest
    pub described : v.found ≡ metadata v.header (length payload + aes_tag_bytes)

  Accepts : EncryptedFileHeader → Bytes → Bytes → List Bytes → Bytes → Type 0
  Accepts header tag payload keys key =
      Member key keys
      × ((rest : Bytes) × (aead.finalize_with_tag
              (aead.update (decryptor aead header key) payload).1 tag
            ≡ some rest))

  some_injective : {a b : Bytes} → ◌≡◌ {A = Option Bytes} (some a) (some b) → a ≡ b
  some_injective e = cc

  -- The first context accepted, or it refused and a later one did.
  first-Accepts :
      (header : EncryptedFileHeader) (tag payload k : Bytes) (ks : List Bytes) (o : Option Bytes)
      {key : Bytes}
      → aead.finalize_with_tag (aead.update (decryptor aead header k) payload).1 tag ≡ o
      → (accepting aead tag ks (advance aead payload (decryptors aead header ks)) ≡ some key
          → Accepts header tag payload ks key)
      → (elim o [
        | some rest ↦ some k
        | none ↦ accepting aead tag ks (advance aead payload (decryptors aead header ks))
      ])
        ≡ some key
      → Accepts header tag payload (k ∷ ks) key
  unfolding Accepts
  first-Accepts header tag payload k ks none p later e =
      let (member, accepted) = later e in (there k ks member, accepted)
  first-Accepts header tag payload k ks (some rest) p later e =
      subst (Accepts header tag payload (k ∷ ks)) (some_injective e) (here ks, (rest, p))

  accepting_member :
      (header : EncryptedFileHeader) (tag payload : Bytes) (keys : List Bytes) {key : Bytes}
      → accepting aead tag keys (advance aead payload (decryptors aead header keys)) ≡ some key
      → Accepts header tag payload keys key
  unfolding accepting decryptors
  accepting_member header tag payload [] e = cc
  accepting_member header tag payload (k ∷ ks) e =
      first-Accepts header tag payload k ks
        (aead.finalize_with_tag (aead.update (decryptor aead header k) payload).1 tag) refl
        (accepting_member header tag payload ks) e

  check_size_ok :
      (n : ℕ) (s t : Session) {u : Unit {0}} → check_payload_size n s ≡ (ok u, t) → t ≡ s
  unfolding check_payload_size
  check_size_ok n s t e = ground arith

  start_ok :
      (source : Source) (limit : ℕ) (s t : Session) {u : Unit {0}}
      → start_reader source limit s ≡ (ok u, t)
      → rest_of t ≡ source.rest
  unfolding start_reader
  start_ok source limit s t e = ap (λ (x : Session). rest_of x) (sym (outcome_state e))

  open_ok :
      (source : Source) (limit : ℕ) (s t : Session) {u : Unit {0}}
      → open_reader source limit s ≡ (ok u, t)
      → rest_of t ≡ source.rest
  unfolding open_reader
  open_ok source limit s t e =
      let (_, s1, run1, e1) = >>=-eq_ok checkpoint _ s e in
      let (_, s2, run2, e2) = >>=-eq_ok (start_reader source limit) _ s1 e1 in
      let (_, e3) =
        unless-eq_ok (exceeds (remaining_size source) limit) size_limit_error (pure tt) s2 e2 in
      ap (λ (x : Session). rest_of x) (sym (outcome_state e3)) ∙ start_ok source limit s1 s2 run2

  accept_ok :
      (header : EncryptedFileHeader) (n : ℕ) (o : Option Bytes) (s t : Session)
      {v : Verified aead lib backend}
      → accept aead lib backend header n o s ≡ (ok v, t)
      → (o ≡ some v.key) × (v.header ≡ header) × (v.found ≡ metadata header (n + aes_tag_bytes))
  unfolding accept
  accept_ok header n none s t e = cc
  accept_ok header n (some key) s t e =
      let (_, s1, run1, e1) = >>=-eq_ok (report verifying n n) _ s e in
      let (_, s2, run2, e2) = >>=-eq_ok checkpoint _ s1 e1 in
      let same = outcome_value e2 in
      (
        ap (λ (x : Verified aead lib backend). some x.key) same,
        ap (λ (x : Verified aead lib backend). x.header) (sym same),
        ap (λ (x : Verified aead lib backend). x.found) (sym same),
      )

  -- The facts of the stages of `_verify`, put together.
  stages-Authentic :
      (private_key : Bytes) (expected : Option Text) (sealed left : Bytes)
      (header : EncryptedFileHeader) (keys : List Bytes) (p : Progress aead)
      (v : Verified aead lib backend)
      → IsLegal header × (sealed ≡ layout header ++ left)
      → candidate_keys lib backend header private_key expected ≡ ok keys
      → Held aead (decryptors aead header keys) left p × (length p.tail ≡ aes_tag_bytes)
      → (accepting aead p.tail keys p.contexts ≡ some v.key)
        × (v.header ≡ header)
        × (v.found ≡ metadata header (p.processed + aes_tag_bytes))
      → Authentic private_key expected sealed v
  unfolding Accepts
  stages-Authentic private_key expected sealed left header keys p v (legal, split) derived
        (held, full) (chosen, same, found) =
      let chosen2 = ap (λ (cs : List C). accepting aead p.tail keys cs) (sym held.fed) ∙ chosen in
      let (member, (rest, accepted)) = accepting_member header p.tail held.payload keys chosen2 in
      record {
        payload = held.payload;
        tag = p.tail;
        keys = keys;
        rest = rest;
        legal = subst IsLegal (sym same) legal;
        spelled =
            split
            ∙ ap (λ d. layout header ++ d) held.cut
            ∙ ap (λ d. d ++ (held.payload ++ p.tail)) (sym legal.aad)
            ∙ ap (λ (h : EncryptedFileHeader). h.header_aad ++ (held.payload ++ p.tail)) (sym same);
        tag_size = full;
        derived =
            ap (λ (h : EncryptedFileHeader). candidate_keys lib backend h private_key expected) same
            ∙ derived;
        member = member;
        accepted =
            ap
              (λ (h : EncryptedFileHeader).
                aead.finalize_with_tag (aead.update (decryptor aead h v.key) held.payload).1 p.tail)
              same
            ∙ accepted;
        described =
            found
            ∙ ap (λ k. metadata header (k + aes_tag_bytes)) held.counted
            ∙ ap (λ (h : EncryptedFileHeader). metadata h (length held.payload + aes_tag_bytes))
                (sym same);
      }

  -- With contexts that may be fed in pieces, on a source of bytes, under any short reads and
  -- cancellations: when `_verify` returns, the source was a legal header, a payload and a tag of 16
  -- bytes, and the context of a key that this header and the private key give accepted that tag
  -- for exactly this header and payload.
  pub verify-Authentic :
      (law : StreamingLaw aead) (source : Source) (private_key : Bytes) (expected : Option Text)
      (n : ℕ) (s s' : Session) {v : Verified aead lib backend}
      → All IsByte source.rest
      → verify aead lib backend source private_key expected n s ≡ (ok v, s')
      → Authentic private_key expected source.rest v
  unfolding verify
  verify-Authentic law source private_key expected n s s' {v} bytes e =
      let (limit, _, e0) = proceed-eq_ok (encrypted_size_limit n) _ s e in
      let (_, s1, run1, e1) = >>=-eq_ok (open_reader source limit) _ s e0 in
      let (header, s2, run2, e2) = >>=-eq_ok (read_encrypted_file_header as_source) _ s1 e1 in
      let (_, s3, run3, e3) = >>=-eq_ok (check_payload_size n) _ s2 e2 in
      let (keys, derived, e4) =
        proceed-eq_ok (candidate_keys lib backend header private_key expected) _ s3 e3 in
      let (p, s5, run5, e5) =
        >>=-eq_ok (process_payload aead (decryptors aead header keys) n verifying false) _ s3 e4 in
      let opened = open_ok source limit s s1 run1 in
      let (legal, split) =
        read_header-IsLegal as_source rest_of as_source-IsFaithful run2
          (subst (All IsByte) (sym opened) bytes) in
      let same = ap (λ (x : Session). rest_of x) (check_size_ok n s2 s3 run3) in
      stages-Authentic private_key expected source.rest (rest_of s3) header keys p v
        (legal, sym opened ∙ split ∙ ap (λ d. layout header ++ d) (sym same)) derived
        (process_payload_ok aead law (decryptors aead header keys) n verifying false p s3 s5 run5)
        (accept_ok header p.processed (accepting aead p.tail keys p.contexts) s5 s' e5)
