-- ===== src/Prelude/Strings.antt =====
-- The methods of Python's `str` that the program uses on ASCII text, and `str` of a number.
use Prim.Native.Nat.{ℕ, zero, suc, ◌+◌, ◌-◌, ◌*◌, ◌/◌, ◌%◌}
use mathlib.Core.Bool.{Bool, true, false, ◌&&◌, ◌||◌}
use mathlib.Core.Option.{Option, none, some}
use mathlib.Core.List.{List, [], ◌∷◌, ◌++◌}
use quantum_encryptor.Prelude.Tests.{ltb, leb, ◌==◌, if◌then◌else◌}
use quantum_encryptor.Prelude.Lists.{is_empty, length, take}
use quantum_encryptor.Prelude.Octets.{Text, list_eq}

-- The digits of `str(n)`, in front of `acc`. A round divides by ten, so `n` rounds are enough.
unfoldable pub digits : ℕ → ℕ → Text → Text
digits zero n acc = (48 + n % 10) ∷ acc
digits (suc fuel) n acc = elim (ltb n 10) [
  | true ↦ (48 + n) ∷ acc
  | false ↦ digits fuel (n / 10) ((48 + n % 10) ∷ acc)
]

unfoldable pub decimal : ℕ → Text
decimal n = digits n n []

-- The number that a text of digits reads as, `int(text)`; none where a character is no digit.
unfoldable pub number_from : ℕ → Text → Option ℕ
number_from acc [] = some acc
number_from acc (c ∷ cs) =
    let rest = number_from (acc * 10 + (c - 48)) cs in if leb 48 c && leb c 57 then rest else none

-- `str(int(text)) == text`: the number, for a text that is the decimal form of a natural number. The
-- other texts for which Python agrees are negative numbers.
unfoldable pub canonical_number : Text → Option ℕ
canonical_number t = elim (number_from 0 t) [
  | none ↦ none
  | some n ↦ if list_eq (decimal n) t then some n else none
]

-- White space and line boundaries in ASCII.
unfoldable pub is_space : ℕ → Bool
is_space c = (leb 9 c && leb c 13) || (leb 28 c && leb c 32)

unfoldable pub is_break : ℕ → Bool
is_break c = (leb 10 c && leb c 13) || (leb 28 c && leb c 30)

unfoldable pub lstrip : Text → Text
lstrip [] = []
lstrip (c ∷ cs) = let rest = lstrip cs in if is_space c then rest else c ∷ cs

unfoldable pub rstrip : Text → Text
rstrip [] = []
rstrip (c ∷ cs) = let rest = rstrip cs in if is_space c && is_empty rest then [] else c ∷ rest

unfoldable pub strip : Text → Text
strip t = rstrip (lstrip t)

unfoldable pub cons_line : ℕ → List Text → List Text
cons_line c [] = (c ∷ []) ∷ []
cons_line c (l ∷ ls) = (c ∷ l) ∷ ls

-- `splitlines`, after a carriage return or not: it takes a line feed along.
unfoldable pub splitlines_from : Bool → Text → List Text
splitlines_from cr [] = []
splitlines_from cr (c ∷ cs) =
    let rest = splitlines_from (c == 13) cs in
    if cr && c == 10 then rest else if is_break c then [] ∷ rest else cons_line c rest

unfoldable pub splitlines : Text → List Text
splitlines t = splitlines_from false t

unfoldable pub starts_with : Text → Text → Bool
starts_with prefix t = list_eq (take (length prefix) t) prefix

-- `"".join(parts)`
unfoldable pub join : List Text → Text
join [] = []
join (t ∷ ts) = t ++ join ts

-- `text.split(separator)` on a character.
unfoldable pub split : ℕ → Text → List Text
split sep [] = [] ∷ []
split sep (c ∷ cs) = let rest = split sep cs in if c == sep then [] ∷ rest else cons_line c rest

-- `text.split(separator, 1)`: what stands before and after the first separator, if there is one.
unfoldable pub cut : ℕ → Text → Option (Text × Text)
cut sep [] = none
cut sep (c ∷ cs) =
    let rest = cut sep cs in
    if c == sep then some ([], cs) else elim rest [ none ↦ none | some (a, b) ↦ some (c ∷ a, b) ]
