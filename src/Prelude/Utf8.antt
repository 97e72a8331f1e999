-- ===== src/Prelude/Utf8.antt =====
-- Python's strict UTF-8 codec, `str.encode("utf-8")` and `bytes.decode("utf-8")`, and "ascii".
use mathlib.Core.Path.{subst}
use quantum_encryptor.Prelude.{
  ℕ, ◌+◌, ◌-◌, ◌*◌, ◌/◌, ◌%◌, ◌≤◌, ◌<◌, ◌≡◌, refl, Bool, ◌&&◌, ◌||◌, Option, none, some, ap, sym,
  ◌∙◌, List, [], ◌∷◌, ◌++◌, arith, ltb, leb, if◌then◌else◌, and_then, and_then-eq_some, All, Bytes,
  Text, inl, inr, ◌⊎◌,
}

-- Between two characters, or with some continuation bytes to come, the bits so far and the least
-- code point that this form may encode.
pub data Decoder : Type 0 where
  ready : Decoder
  pending : ℕ → ℕ → ℕ → Decoder

is_surrogate : ℕ → Bool
is_surrogate c = leb 0xd800 c && ltb c 0xe000

-- The first byte of a character.
first_byte : ℕ → Option (Decoder × List ℕ)
first_byte b =
    if ltb b 0x80
    then some (ready, b ∷ [])
    else if leb 0xc0 b && ltb b 0xe0
    then some (pending 0 (b - 0xc0) 0x80, [])
    else if leb 0xe0 b && ltb b 0xf0
    then some (pending 1 (b - 0xe0) 0x800, [])
    else if leb 0xf0 b && ltb b 0xf8
    then some (pending 2 (b - 0xf0) 0x1_0000, [])
    else none

-- `pending k v least` has `k + 1` bytes to come.
next_byte : ℕ → ℕ → ℕ → ℕ → Option (Decoder × List ℕ)
unfolding is_surrogate
next_byte k v least b =
    let w = v * 64 + (b - 0x80) in
    if ltb b 0x80 || leb 0xc0 b
    then none
    else if ltb 0 k
    then some (pending (k - 1) w least, [])
    else if ltb w least || is_surrogate w || ltb 0x10_ffff w
    then none
    else some (ready, w ∷ [])

decode_step : Decoder → ℕ → Option (Decoder × List ℕ)
unfolding first_byte next_byte
decode_step ready b = first_byte b
decode_step (pending k v least) b = next_byte k v least b

decode_from : Decoder → Bytes → Option Text
decode_from ready [] = some []
decode_from (pending k v least) [] = none
decode_from d (b ∷ bs) =
    and_then (decode_step d b) λ (d', out). and_then (decode_from d' bs) λ t. some (out ++ t)

unfoldable pub decode_utf8 : Bytes → Option Text
unfolding decode_from decode_step
decode_utf8 bs = decode_from ready bs

abbrev pub IsAscii : ℕ → Type 0
IsAscii c = c < 128

-- The bytes of one character. A surrogate has none.
encode_char : ℕ → Option Bytes
unfolding is_surrogate
encode_char c =
    if ltb c 0x80
    then some (c ∷ [])
    else if ltb c 0x800
    then some ((0xc0 + c / 64) ∷ (0x80 + c % 64) ∷ [])
    else if is_surrogate c
    then none
    else if ltb c 0x1_0000
    then some ((0xe0 + c / 4096) ∷ (0x80 + c / 64 % 64) ∷ (0x80 + c % 64) ∷ [])
    else some
        ((0xf0 + c / 262144) ∷ (0x80 + c / 4096 % 64) ∷ (0x80 + c / 64 % 64) ∷ (0x80 + c % 64) ∷ [])

-- `none` is a `UnicodeEncodeError`.
unfoldable pub encode_utf8 : Text → Option Bytes
unfolding encode_char
encode_utf8 [] = some []
encode_utf8 (c ∷ cs) = and_then (encode_char c) λ bs. and_then (encode_utf8 cs) λ t. some (bs ++ t)

-- ASCII bytes decode to themselves.
pub decode_utf8_ascii : (bs : Bytes) → All IsAscii bs → decode_utf8 bs ≡ some bs
unfolding decode_utf8
decode_utf8_ascii [] h = refl
decode_utf8_ascii (b ∷ bs) h = ground (arith, decode_utf8_ascii bs h.1)

pub encode_utf8_ascii : (cs : Text) → All IsAscii cs → encode_utf8 cs ≡ some cs
unfolding encode_utf8
encode_utf8_ascii [] h = refl
encode_utf8_ascii (c ∷ cs) h = ground (arith, encode_utf8_ascii cs h.1)

-- A decoding that succeeded took one step and then decoded the rest.
decode_from-cons :
    (d : Decoder) (b : ℕ) (bs : Bytes) (t : Text)
    → decode_from d (b ∷ bs) ≡ some t
    → (d' : Decoder) × (out : List ℕ) × (t' : Text) × (decode_step d b ≡ some (d', out))
      × (decode_from d' bs ≡ some t')
      × (t ≡ out ++ t')
unfolding decode_from
decode_from-cons d b bs t e =
    let ((d', out), go, more) = and_then-eq_some (decode_step d b) _ e in
    let (t', rest, same) = and_then-eq_some (decode_from d' bs) _ more in
    (d', out, t', go, rest, cc)

-- A character in several bytes is not ASCII.
next_byte-shape :
    (k v least b : ℕ) (d : Decoder) (out : List ℕ)
    → next_byte k v least b ≡ some (d, out)
    → ((d ≡ pending (k - 1) (v * 64 + (b - 0x80)) least) × (out ≡ []))
      ⊎ ((c : ℕ) × (out ≡ c ∷ []) × (least ≤ c))
unfolding next_byte
next_byte-shape k v least b d out e = ground arith

first_byte-shape :
    (b : ℕ) (d : Decoder) (out : List ℕ)
    → first_byte b ≡ some (d, out)
    → ((d ≡ ready) × (out ≡ b ∷ []))
      ⊎ ((k v least : ℕ) × (d ≡ pending k v least) × (out ≡ []) × (128 ≤ least))
unfolding first_byte
first_byte-shape b d out e = ground arith

pending-not_IsAscii :
    (k v least : ℕ) (bs : Bytes) (t : Text)
    → 128 ≤ least
    → decode_from (pending k v least) bs ≡ some t
    → ¬ All IsAscii t
pending-not_IsAscii k v least [] t h e a = unfold decode_from in cc
pending-not_IsAscii k v least (b ∷ bs) t h e a =
    let (d, out, t', go, more, same) = decode_from-cons (pending k v least) b bs t e in
    elim (next_byte-shape k v least b d out (unfold decode_step in go)) [
      | inl (onward, nothing) ↦
          pending-not_IsAscii (k - 1) (v * 64 + (b - 0x80)) least bs t h (cc) a
      | inr (c, char, large) ↦
          let (low, _) = subst (All IsAscii) (same ∙ ap (λ (o : List ℕ). o ++ t') char) a in
          absurd (omega arith)
    ]

-- Only ASCII bytes decode to ASCII text, and they are that text.
pub decode_utf8_inv : (bs : Bytes) (t : Text) → All IsAscii t → decode_utf8 bs ≡ some t → bs ≡ t
unfolding decode_utf8
decode_utf8_inv [] t a e = cc
decode_utf8_inv (b ∷ bs) t a e =
    let (d, out, t', go, more, same) = decode_from-cons ready b bs t e in
    elim (first_byte-shape b d out go) [
      | inl (onward, char) ↦
          let shape : t ≡ b ∷ t' = same ∙ ap (λ (o : List ℕ). o ++ t') char in
          let (_, ascii) = subst (All IsAscii) shape a in
          ap (λ (r : Bytes). b ∷ r) (decode_utf8_inv bs t' ascii (cc)) ∙ sym shape
      | inr (k, v, least, onward, nothing, large) ↦
          absurd (pending-not_IsAscii k v least bs t large (cc) a)
    ]
