-- ===== src/Prelude/Base64.antt =====
-- Python's `base64.b64encode`, and the decoder that inverts it.
use Prim.Native.Nat.{ℕ, zero, suc, ◌+◌, ◌-◌, ◌*◌, ◌/◌, ◌%◌, ◌<◌}
use mathlib.Core.Path.{◌≡◌, refl}
use mathlib.Core.Bool.{Bool, true, false, ◌&&◌, ◌||◌}
use mathlib.Core.Option.{Option, none, some}
use mathlib.Core.List.{[], ◌∷◌}
use native.Mathlib.Omega.{arith}
use native.Mathlib.Decide.{ℕ_discrete}
use quantum_encryptor.Prelude.Tests.{leb, ◌==◌, ==_iff, if◌then◌else◌, and_then}
use quantum_encryptor.Prelude.Lists.{get_or, All}
use quantum_encryptor.Prelude.Octets.{Bytes, Text, codes, IsByte}

unfoldable pub base64_char : ℕ → ℕ
base64_char n =
    get_or (codes "ABCDEFGHIJKLMNOPQRSTUVWXYZabcdefghijklmnopqrstuvwxyz0123456789+/") n 61

unfoldable pub b64encode : Bytes → Text
b64encode [] = []
b64encode (a ∷ []) = base64_char (a / 4) ∷ base64_char (a % 4 * 16) ∷ 61 ∷ 61 ∷ []
b64encode (a ∷ b ∷ []) =
    base64_char (a / 4) ∷ base64_char (a % 4 * 16 + b / 16) ∷ base64_char (b % 16 * 4) ∷ 61 ∷ []
b64encode (a ∷ b ∷ c ∷ rest) =
    base64_char (a / 4)
    ∷ base64_char (a % 4 * 16 + b / 16)
    ∷ base64_char (b % 16 * 4 + c / 64)
    ∷ base64_char (c % 64)
    ∷ b64encode rest

-- The value of a digit; other characters have none.
unfoldable pub base64_value : ℕ → ℕ
base64_value c =
    if leb 65 c && leb c 90
    then c - 65
    else if leb 97 c && leb c 122
    then c - 71
    else if leb 48 c && leb c 57
    then c + 4
    else if c == 43
    then 62
    else 63

-- The bytes that four digits stand for, before padding is taken off.
abbrev pub first_byte : ℕ → ℕ → ℕ
first_byte a b = base64_value a * 4 + base64_value b / 16

abbrev pub second_byte : ℕ → ℕ → ℕ
second_byte b c = base64_value b % 16 * 16 + base64_value c / 4

abbrev pub third_byte : ℕ → ℕ → ℕ
third_byte c d = base64_value c % 4 * 64 + base64_value d

-- It inverts the encoder. On a text that the encoder does not produce it gives none, or bytes that
-- are encoded otherwise.
unfoldable pub b64decode : Text → Option Bytes
b64decode [] = some []
b64decode (a ∷ []) = none
b64decode (a ∷ b ∷ []) = none
b64decode (a ∷ b ∷ c ∷ []) = none
b64decode (a ∷ b ∷ c ∷ d ∷ rest) =
    let more = b64decode rest in
    if d == 61
    then (if c == 61
        then some (first_byte a b ∷ [])
        else some (first_byte a b ∷ second_byte b c ∷ []))
    else and_then more (λ bs. some (first_byte a b ∷ second_byte b c ∷ third_byte c d ∷ bs))

abbrev pub is_digit : ℕ → Bool
is_digit c =
    (leb 65 c && leb c 90)
    || (leb 97 c && leb c 122)
    || (leb 48 c && leb c 57)
    || c == 43
    || c == 47

-- What the encoder writes: digits, and the padding.
abbrev pub IsBase64 : ℕ → Type 0
IsBase64 c = (is_digit c || c == 61) ≡ true

digit_right : ℕ → Bool
unfolding base64_char base64_value
digit_right n = base64_value (base64_char n) == n && is_digit (base64_char n)

abbrev all_below : (ℕ → Bool) → ℕ → Bool
all_below f zero = true
all_below f (suc n) = f n && all_below f n

both : (a b : Bool) → (a && b) ≡ true → (a ≡ true) × (b ≡ true)
both a b h = ground arith

all_below_at : (f : ℕ → Bool) (n m : ℕ) → all_below f n ≡ true → m < n → f m ≡ true
all_below_at f zero m h l = absurd (omega arith)
all_below_at f (suc n) m h l = elim (ℕ_discrete m n) [
  | yes same ↦ rw same (both (f n) (all_below f n) h).0
  | no other ↦ all_below_at f n m (both (f n) (all_below f n) h).1 (omega arith)
]

digits_right : all_below digit_right 64 ≡ true
unfolding digit_right
digits_right = refl

digit_lem :
    (n : ℕ) → n < 64 → (base64_value (base64_char n) ≡ n) × (is_digit (base64_char n) ≡ true)
unfolding digit_right
digit_lem n h =
    let (value, digit) =
      both (base64_value (base64_char n) == n) (is_digit (base64_char n))
        (all_below_at digit_right 64 n digits_right h) in
    ((==_iff (base64_value (base64_char n)) n).0 value, digit)

digit_not_pad : (c : ℕ) → is_digit c ≡ true → (c == 61) ≡ false
digit_not_pad c h = ground arith

not_pad : (n : ℕ) → n < 64 → (base64_char n == 61) ≡ false
not_pad n h = digit_not_pad (base64_char n) (digit_lem n h).1

base64_char-IsBase64 : (n : ℕ) → n < 64 → IsBase64 (base64_char n)
base64_char-IsBase64 n h = rw (digit_lem n h).1 refl

first_right :
    (a x : ℕ)
    → a < 256
    → x < 16
    → base64_value (base64_char (a / 4)) * 4 + base64_value (base64_char (a % 4 * 16 + x)) / 16 ≡ a
first_right a x h k =
    rw ((digit_lem (a / 4) (omega arith)).0, (digit_lem (a % 4 * 16 + x) (omega arith)).0)
      (omega arith)

second_right :
    (a b x : ℕ)
    → a < 256
    → b < 256
    → x < 4
    → base64_value (base64_char (a % 4 * 16 + b / 16)) % 16 * 16
        + base64_value (base64_char (b % 16 * 4 + x)) / 4
      ≡ b
second_right a b x h k l =
    rw
      (
        (digit_lem (a % 4 * 16 + b / 16) (omega arith)).0,
        (digit_lem (b % 16 * 4 + x) (omega arith)).0,
      )
      (omega arith)

third_right :
    (b c : ℕ)
    → b < 256
    → c < 256
    → base64_value (base64_char (b % 16 * 4 + c / 64)) % 4 * 64
        + base64_value (base64_char (c % 64))
      ≡ c
third_right b c h k =
    rw ((digit_lem (b % 16 * 4 + c / 64) (omega arith)).0, (digit_lem (c % 64) (omega arith)).0)
      (omega arith)

one_right :
    (a : ℕ)
    → a < 256
    → base64_value (base64_char (a / 4)) * 4 + base64_value (base64_char (a % 4 * 16)) / 16 ≡ a
one_right a h =
    rw ((digit_lem (a / 4) (omega arith)).0, (digit_lem (a % 4 * 16) (omega arith)).0) (omega arith)

two_right :
    (a b : ℕ)
    → a < 256
    → b < 256
    → base64_value (base64_char (a % 4 * 16 + b / 16)) % 16 * 16
        + base64_value (base64_char (b % 16 * 4)) / 4
      ≡ b
two_right a b h k =
    rw ((digit_lem (a % 4 * 16 + b / 16) (omega arith)).0, (digit_lem (b % 16 * 4) (omega arith)).0)
      (omega arith)

-- Decoding undoes encoding.
pub b64decode-b64encode : (d : Bytes) → All IsByte d → b64decode (b64encode d) ≡ some d
unfolding b64decode b64encode
b64decode-b64encode [] h = refl
b64decode-b64encode (a ∷ []) (ha, _) = rw (one_right a ha) refl
b64decode-b64encode (a ∷ b ∷ []) (ha, (hb, _)) =
    rw
      (
        not_pad (b % 16 * 4) (omega arith),
        first_right a (b / 16) ha (omega arith),
        two_right a b ha hb,
      )
      refl
b64decode-b64encode (a ∷ b ∷ c ∷ rest) (ha, (hb, (hc, h))) =
    let ih = b64decode-b64encode rest h in
    rw
      (
        not_pad (c % 64) (omega arith),
        ih,
        first_right a (b / 16) ha (omega arith),
        second_right a b (c / 64) ha hb (omega arith),
        third_right b c hb hc,
      )
      refl

pub b64encode-IsBase64 : (d : Bytes) → All IsByte d → All IsBase64 (b64encode d)
unfolding b64encode
b64encode-IsBase64 [] h = tt
b64encode-IsBase64 (a ∷ []) (ha, _) = (
  base64_char-IsBase64 (a / 4) (omega arith),
  (base64_char-IsBase64 (a % 4 * 16) (omega arith), (refl, (refl, tt))),
)
b64encode-IsBase64 (a ∷ b ∷ []) (ha, (hb, _)) = (
  base64_char-IsBase64 (a / 4) (omega arith),
  (
    base64_char-IsBase64 (a % 4 * 16 + b / 16) (omega arith),
    (base64_char-IsBase64 (b % 16 * 4) (omega arith), (refl, tt)),
  ),
)
b64encode-IsBase64 (a ∷ b ∷ c ∷ rest) (ha, (hb, (hc, h))) = (
  base64_char-IsBase64 (a / 4) (omega arith),
  (
    base64_char-IsBase64 (a % 4 * 16 + b / 16) (omega arith),
    (
      base64_char-IsBase64 (b % 16 * 4 + c / 64) (omega arith),
      (base64_char-IsBase64 (c % 64) (omega arith), b64encode-IsBase64 rest h),
    ),
  ),
)
