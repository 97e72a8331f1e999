-- ===== src/Prelude/Octets.antt =====
-- Python's `bytes` and `str` as lists of numbers: bytes, and code points.
use Prim.Native.Nat.{ℕ, zero, suc, ◌+◌, ◌*◌, ◌/◌, ◌%◌, ◌^◌, ◌<◌}
use Prim.Native.Char.{code}
use Prim.Native.String.{String}
use mathlib.Core.Path.{◌≡◌, refl}
use mathlib.Core.Logic.{◌↔◌}
use mathlib.Core.Bool.{Bool, true, false, ◌&&◌, ◌||◌}
use mathlib.Core.List.{List, [], ◌∷◌}
use native.Mathlib.Omega.{arith}
use quantum_encryptor.Prelude.Tests.{◌==◌, ==_refl}
use quantum_encryptor.Prelude.Lists.{length, All}

abbrev pub Bytes : Type 0
Bytes = List ℕ

abbrev pub Text : Type 0
Text = List ℕ

abbrev pub IsByte : ℕ → Type 0
IsByte b = b < 256

-- The code points of a literal. `String` has its own `[]` and `∷`.
abbrev pub codes : String → Text
codes String.[] = []
codes (String.◌∷◌ c s) = code c ∷ codes s

-- `a == b` on two `bytes` or two `str`.
unfoldable pub list_eq : List ℕ → List ℕ → Bool
list_eq [] [] = true
list_eq [] (y ∷ ys) = false
list_eq (x ∷ xs) [] = false
list_eq (x ∷ xs) (y ∷ ys) = x == y && list_eq xs ys

pub list_eq→eq : (xs ys : List ℕ) → list_eq xs ys ≡ true → xs ≡ ys
unfolding list_eq
list_eq→eq [] [] h = refl
list_eq→eq [] (y ∷ ys) h = cc
list_eq→eq (x ∷ xs) [] h = cc
list_eq→eq (x ∷ xs) (y ∷ ys) h = ground (arith, list_eq→eq xs ys)

pub list_eq_refl : (xs : List ℕ) → list_eq xs xs ≡ true
unfolding list_eq
list_eq_refl [] = refl
list_eq_refl (x ∷ xs) = rw (==_refl x) (list_eq_refl xs)

pub list_eq_iff : (xs ys : List ℕ) → (list_eq xs ys ≡ true) ↔ (xs ≡ ys)
list_eq_iff xs ys = (list_eq→eq xs ys, λ e. rw e (list_eq_refl ys))

-- `x in collection`
unfoldable pub one_of : List ℕ → List (List ℕ) → Bool
one_of x [] = false
one_of x (y ∷ ys) = list_eq x y || one_of x ys

-- An unsigned number of `w` bytes, most significant byte first.
unfoldable pub to_be : ℕ → ℕ → Bytes
to_be zero n = []
to_be (suc w) n = (n / 256 ^ w % 256) ∷ to_be w n

unfoldable pub from_be_acc : ℕ → Bytes → ℕ
from_be_acc acc [] = acc
from_be_acc acc (b ∷ bs) = from_be_acc (acc * 256 + b) bs

unfoldable pub from_be : Bytes → ℕ
unfolding from_be_acc
from_be bs = from_be_acc 0 bs

-- The same with the least significant byte first.
unfoldable pub from_le : Bytes → ℕ
from_le [] = 0
from_le (b ∷ bs) = b + 256 * from_le bs

pub length-to_be : (w n : ℕ) → length (to_be w n) ≡ w
unfolding to_be
length-to_be zero n = refl
length-to_be (suc w) n = omega (arith, length-to_be w n)

pub to_be-IsByte : (w n : ℕ) → All IsByte (to_be w n)
unfolding to_be
to_be-IsByte zero n = tt
to_be-IsByte (suc w) n = (omega arith, to_be-IsByte w n)

-- What `struct.pack` writes for ">H" and ">I", `struct.unpack` reads back.
pub from_be-to_be_u16 : (n : ℕ) → n < 2 ^ 16 → from_be (to_be 2 n) ≡ n
unfolding from_be to_be
from_be-to_be_u16 n h = omega arith

pub from_be-to_be_u32 : (n : ℕ) → n < 2 ^ 32 → from_be (to_be 4 n) ≡ n
unfolding from_be to_be
from_be-to_be_u32 n h = omega arith

-- The other way round, for the bytes themselves.
pub to_be-from_be_u16 : (bs : Bytes) → length bs ≡ 2 → All IsByte bs → to_be 2 (from_be bs) ≡ bs
unfolding from_be to_be
to_be-from_be_u16 [] h p = absurd (omega arith)
to_be-from_be_u16 (a ∷ []) h p = absurd (omega arith)
to_be-from_be_u16 (a ∷ b ∷ []) h p = ground arith
to_be-from_be_u16 (a ∷ b ∷ c ∷ r) h p = absurd (omega arith)

pub to_be-from_be_u32 : (bs : Bytes) → length bs ≡ 4 → All IsByte bs → to_be 4 (from_be bs) ≡ bs
unfolding from_be to_be
to_be-from_be_u32 [] h p = absurd (omega arith)
to_be-from_be_u32 (a ∷ []) h p = absurd (omega arith)
to_be-from_be_u32 (a ∷ b ∷ []) h p = absurd (omega arith)
to_be-from_be_u32 (a ∷ b ∷ c ∷ []) h p = absurd (omega arith)
to_be-from_be_u32 (a ∷ b ∷ c ∷ d ∷ []) h p = ground arith
to_be-from_be_u32 (a ∷ b ∷ c ∷ d ∷ e ∷ r) h p = absurd (omega arith)
