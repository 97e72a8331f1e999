-- ===== src/Pem/Layout.antt =====
-- A text of lines is split into these lines again.
use quantum_encryptor.Prelude.{
  ℕ, zero, suc, ◌+◌, ◌*◌, ◌≤◌, ◌≡◌, refl, sym, ap, ◌∙◌, Bool, true, false, not, ◌&&◌, ◌||◌, List,
  [], ◌∷◌, ◌++◌, append_assoc, arith, Text, All, length, length-append, length-take, length-drop,
  take, drop, take-append-drop, is_empty, list_eq, list_eq→eq, ltb, leb, ◌==◌, Bool-cases, inl, inr,
}
use mathlib.Core.Path.{subst}
use quantum_encryptor.Prelude.Strings.{
  is_space, is_break, lstrip, rstrip, strip, cons_line, splitlines_from, splitlines, starts_with,
  join,
}
use quantum_encryptor.Prelude.Base64.{IsBase64, is_digit}
use quantum_encryptor.Fingerprint.{all_ascii}
use quantum_encryptor.Pem.{last_line, but_last}
use quantum_encryptor.Pem.Files.{chunks, text_of}

-- An ASCII character that ends no line.
abbrev pub is_clean : ℕ → Bool
is_clean c = ltb c 128 && not (leb 10 c && leb c 13) && not (leb 28 c && leb c 30)

abbrev pub IsClean : ℕ → Type 0
IsClean c = is_clean c ≡ true

abbrev pub all_clean : Text → Bool
all_clean [] = true
all_clean (c ∷ cs) = is_clean c && all_clean cs

pub and_true : (a b : Bool) → (a && b) ≡ true → (a ≡ true) × (b ≡ true)
and_true a b h = ground arith

pub all_clean_lem : (t : Text) → all_clean t ≡ true → All IsClean t
all_clean_lem [] h = tt
all_clean_lem (c ∷ cs) h =
    let (a, b) = and_true (is_clean c) (all_clean cs) h in (a, all_clean_lem cs b)

clean_not_return : (c : ℕ) → IsClean c → (c == 13) ≡ false
clean_not_return c h = ground arith

clean_no_break : (c : ℕ) → IsClean c → is_break c ≡ false
unfolding is_break
clean_no_break c h = ground arith

clean-ascii : (c : ℕ) → IsClean c → ltb c 128 ≡ true
clean-ascii c h = ground arith

splitlines_line :
    (l rest : Text)
    → All IsClean l
    → splitlines_from false (l ++ 10 ∷ rest) ≡ l ∷ splitlines_from false rest
unfolding splitlines_from cons_line
splitlines_line [] rest h = unfold is_break in refl
splitlines_line (c ∷ cs) rest (h, hs) =
    rw (clean_not_return c h, clean_no_break c h, splitlines_line cs rest hs) refl

splitlines_text :
    (ls : List Text) (end : Text)
    → All (All IsClean) ls
    → splitlines_from false end ≡ end ∷ []
    → splitlines_from false (text_of ls ++ end) ≡ ls ++ end ∷ []
unfolding text_of
splitlines_text [] end h e = e
splitlines_text (l ∷ ls) end (h, hs) e =
    ap (splitlines_from false) (append_assoc l (10 ∷ text_of ls) end)
    ∙ splitlines_line l (text_of ls ++ end) h
    ∙ ap (λ x. l ∷ x) (splitlines_text ls end hs e)

text_of-append :
    (ls : List Text) (end : Text) → text_of (ls ++ end ∷ []) ≡ text_of ls ++ (end ++ 10 ∷ [])
unfolding text_of
text_of-append [] end = refl
text_of-append (l ∷ ls) end =
    ap (λ x. l ++ 10 ∷ x) (text_of-append ls end)
    ∙ sym (append_assoc l (10 ∷ text_of ls) (end ++ 10 ∷ []))

not_empty-append : (s t : Text) → is_empty t ≡ false → is_empty (s ++ t) ≡ false
not_empty-append [] t h = h
not_empty-append (c ∷ cs) t h = refl

and_false : (b : Bool) → (b && false) ≡ false
and_false true = refl
and_false false = refl

pub rstrip-append : (s t : Text) → is_empty (rstrip t) ≡ false → rstrip (s ++ t) ≡ s ++ rstrip t
unfolding rstrip
rstrip-append [] t h = refl
rstrip-append (c ∷ cs) t h =
    rw (rstrip-append cs t h, not_empty-append cs (rstrip t) h, and_false (is_space c)) refl

-- The lines of a file whose first character and whose last line are no white space.
pub splitlines-text_of :
    (ls : List Text) (end : Text)
    → All (All IsClean) ls
    → lstrip (text_of (ls ++ end ∷ [])) ≡ text_of (ls ++ end ∷ [])
    → rstrip (end ++ 10 ∷ []) ≡ end
    → is_empty end ≡ false
    → splitlines_from false end ≡ end ∷ []
    → splitlines (strip (text_of (ls ++ end ∷ []))) ≡ ls ++ end ∷ []
unfolding splitlines strip
splitlines-text_of ls end clean start finish some_end e =
    ap (λ t. splitlines_from false (rstrip t)) (start ∙ text_of-append ls end)
    ∙ ap (splitlines_from false)
        (rstrip-append (text_of ls) (end ++ 10 ∷ []) (ap is_empty finish ∙ some_end))
    ∙ ap (λ t. splitlines_from false (text_of ls ++ t)) finish
    ∙ splitlines_text ls end clean e

pub last_line-append :
    (first : Text) (ls : List Text) (end : Text) → last_line first (ls ++ end ∷ []) ≡ end
unfolding last_line
last_line-append first [] end = refl
last_line-append first (l ∷ ls) end = last_line-append l ls end

pub but_last-append : (ls : List Text) (end : Text) → but_last (ls ++ end ∷ []) ≡ ls
unfolding but_last
but_last-append [] end = refl
but_last-append (l ∷ []) end = refl
but_last-append (l ∷ m ∷ ls) end = ap (λ x. l ∷ x) (but_last-append (m ∷ ls) end)

-- Characters of base64 are no white space and no boundary.
pub base64-IsClean : (t : Text) → All IsBase64 t → All IsClean t
base64-IsClean [] h = tt
base64-IsClean (c ∷ cs) (h, hs) = (ground arith, base64-IsClean cs hs)

base64_no_space : (c : ℕ) → IsBase64 c → is_space c ≡ false
unfolding is_space
base64_no_space c h = ground arith

lstrip-base64 : (t : Text) → All IsBase64 t → lstrip t ≡ t
unfolding lstrip
lstrip-base64 [] h = refl
lstrip-base64 (c ∷ cs) (h, hs) = rw (base64_no_space c h) refl

pub rstrip-base64 : (t : Text) → All IsBase64 t → rstrip t ≡ t
unfolding rstrip
rstrip-base64 [] h = refl
rstrip-base64 (c ∷ cs) (h, hs) = rw (base64_no_space c h, rstrip-base64 cs hs) refl

pub strip-base64 : (t : Text) → All IsBase64 t → strip t ≡ t
unfolding strip
strip-base64 t h = ap rstrip (lstrip-base64 t h) ∙ rstrip-base64 t h

abbrev pub all_base64 : Text → Bool
all_base64 [] = true
all_base64 (c ∷ cs) = (is_digit c || c == 61) && all_base64 cs

all_base64_lem : (t : Text) → All IsBase64 t → all_base64 t ≡ true
all_base64_lem [] h = refl
all_base64_lem (c ∷ cs) (h, hs) = rw (h, all_base64_lem cs hs) refl

-- A text with another character is not equal to such a text, nor its beginning.
pub list_eq-base64 : (t p : Text) → All IsBase64 t → all_base64 p ≡ false → list_eq t p ≡ false
list_eq-base64 t p h other = elim (Bool-cases (list_eq t p)) [
  | inl same ↦ absurd (clash (all_base64_lem p (subst (All IsBase64) (list_eq→eq t p same) h)))
  | inr differ ↦ differ
]
  where
    clash : all_base64 p ≡ true → ⊥
    clash e = cc

take-IsBase64 : (n : ℕ) (t : Text) → All IsBase64 t → All IsBase64 (take n t)
take-IsBase64 zero t h = tt
take-IsBase64 (suc n) [] h = tt
take-IsBase64 (suc n) (c ∷ cs) (h, hs) = (h, take-IsBase64 n cs hs)

drop-IsBase64 : (n : ℕ) (t : Text) → All IsBase64 t → All IsBase64 (drop n t)
drop-IsBase64 zero t h = h
drop-IsBase64 (suc n) [] h = tt
drop-IsBase64 (suc n) (c ∷ cs) (h, hs) = drop-IsBase64 n cs hs

pub starts_with-base64 :
    (p t : Text) → All IsBase64 t → all_base64 p ≡ false → starts_with p t ≡ false
unfolding starts_with
starts_with-base64 p t h other =
    list_eq-base64 (take (length p) t) p (take-IsBase64 (length p) t h) other

-- A line of the payload: some characters of base64.
abbrev pub IsPayload : Text → Type 0
IsPayload t = All IsBase64 t × (is_empty t ≡ false)

pub chunks-IsPayload : (fuel : ℕ) (t : Text) → All IsBase64 t → All IsPayload (chunks fuel t)
unfolding chunks
chunks-IsPayload zero t h = tt
chunks-IsPayload (suc fuel) [] h = tt
chunks-IsPayload (suc fuel) (c ∷ cs) h = (
  (take-IsBase64 64 (c ∷ cs) h, refl),
  chunks-IsPayload fuel (drop 64 (c ∷ cs)) (drop-IsBase64 64 (c ∷ cs) h),
)

pub join-chunks : (fuel : ℕ) (t : Text) → length t ≤ fuel → join (chunks fuel t) ≡ t
unfolding chunks join
join-chunks zero [] h = refl
join-chunks zero (c ∷ cs) h = absurd (omega arith)
join-chunks (suc fuel) [] h = refl
join-chunks (suc fuel) (c ∷ cs) h =
    ap (λ x. take 64 (c ∷ cs) ++ x)
      (join-chunks fuel (drop 64 (c ∷ cs)) (omega (arith, length-drop 64 (c ∷ cs))))
    ∙ take-append-drop 64 (c ∷ cs)

-- Each line of a chunked text costs one more character.
pub length-text_of-chunks : (fuel : ℕ) (t : Text) → length (text_of (chunks fuel t)) ≤ 2 * length t
unfolding chunks text_of
length-text_of-chunks zero t = omega arith
length-text_of-chunks (suc fuel) [] = omega arith
length-text_of-chunks (suc fuel) (c ∷ cs) = omega (
  arith,
  length-append (take 63 cs) (10 ∷ text_of (chunks fuel (drop 63 cs))),
  length-take 63 cs,
  length-drop 63 cs,
  length-text_of-chunks fuel (drop 63 cs),
)

-- A text of clean lines is ASCII.
all_ascii-line : (l rest : Text) → All IsClean l → all_ascii (l ++ 10 ∷ rest) ≡ all_ascii rest
unfolding all_ascii
all_ascii-line [] rest h = refl
all_ascii-line (c ∷ cs) rest (h, hs) = rw (clean-ascii c h, all_ascii-line cs rest hs) refl

pub all_ascii-text_of : (ls : List Text) → All (All IsClean) ls → all_ascii (text_of ls) ≡ true
unfolding text_of
all_ascii-text_of [] h = unfold all_ascii in refl
all_ascii-text_of (l ∷ ls) (h, hs) = all_ascii-line l (text_of ls) h ∙ all_ascii-text_of ls hs

no_text : length (text_of []) ≡ 0
unfolding text_of
no_text = refl

pub length-text_of :
    (ls ms : List Text) → length (text_of (ls ++ ms)) ≡ length (text_of ls) + length (text_of ms)
unfolding text_of
length-text_of [] ms = omega arith
length-text_of (l ∷ ls) ms = omega (
  arith,
  length-append l (10 ∷ text_of (ls ++ ms)),
  length-append l (10 ∷ text_of ls),
  length-text_of ls ms,
)

pub length-text_of_cons :
    (l : Text) (ls : List Text) → length (text_of (l ∷ ls)) ≡ length l + length (text_of ls) + 1
unfolding text_of
length-text_of_cons l ls = omega (arith, length-append l (10 ∷ text_of ls))

pub file_size :
    (header footer : Text) (ls : List Text) (n m : ℕ)
    → length (text_of ls) ≤ n
    → length header + length footer + n + 2 ≤ m
    → length (text_of (header ∷ (ls ++ footer ∷ []))) ≤ m
file_size header footer ls n m h k = omega (
  arith,
  length-text_of_cons header (ls ++ footer ∷ []),
  length-text_of ls (footer ∷ []),
  length-text_of_cons footer [],
  no_text,
)
