-- ===== src/Api/Bounded.antt =====
-- How much of a body the API is given.
use quantum_encryptor.Prelude.{
  ℕ, ◌+◌, ◌≤◌, ◌<◌, ◌≡◌, refl, ap, ◌∙◌, true, false, List, [], ◌∷◌, arith, ltb, leb, Bool-cases,
  inl, inr, if◌then◌else◌,
}
use quantum_encryptor.Failure.{ok, err}
use quantum_encryptor.Api.Limits.{request_too_large, limited_receive, receive_all}

abbrev pub sum : List ℕ → ℕ
sum [] = 0
sum (n ∷ ns) = n + sum ns

within_limit :
    (limit a b : ℕ)
    → a ≡ b
    → b ≤ limit
    → ok a ≡ (if leb b limit then ok b else err request_too_large)
within_limit limit a b same h = rw (leb_true b limit h) (ap (λ n. ok n) same)
  where
    leb_true : (x y : ℕ) → x ≤ y → leb x y ≡ true
    leb_true x y l = ground arith

ltb_less : (a b : ℕ) → ltb a b ≡ true → a < b
ltb_less a b h = ground arith

not_less : (a b : ℕ) → ltb a b ≡ false → b ≤ a
not_less a b h = ground arith

above_limit : (limit n : ℕ) → limit < n → leb n limit ≡ false
above_limit limit n h = ground arith

-- For a limit that is not passed yet: the application is given every message of a body exactly if
-- the sum of all is within the limit, and else it is stopped with the error of a body too large.
pub receive_all-eq_if :
    (limit received : ℕ) (bodies : List ℕ)
    → received ≤ limit
    → receive_all limit received bodies ≡ (
        if leb (received + sum bodies) limit
        then ok (received + sum bodies)
        else err request_too_large)
unfolding receive_all limited_receive
receive_all-eq_if limit received [] h =
    within_limit limit received (received + 0) (omega arith) (omega arith)
receive_all-eq_if limit received (n ∷ ns) h = elim (Bool-cases (ltb limit (received + n))) [
  | inl above ↦
      rw
        (
          above,
          above_limit limit (received + (n + sum ns))
              (omega (arith, ltb_less limit (received + n) above)),
        )
        refl
  | inr within ↦ rw within (
      receive_all-eq_if limit (received + n) ns (not_less limit (received + n) within)
      ∙ ap (λ t. if leb t limit then ok t else err request_too_large) (omega arith))
]
