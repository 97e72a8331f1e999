-- ===== src/Container/Suites.antt =====
-- The suites that a header may name are ASCII texts of 1 to 64 characters.
use quantum_encryptor.Prelude.{
  ℕ, ◌<◌, ◌≤◌, ◌≡◌, true, List, [], ◌∷◌, arith, Text, length, All, list_eq, list_eq→eq, one_of, inl,
  inr, Bool-cases, ◌==◌,
}
use quantum_encryptor.Prelude.Utf8.{IsAscii}
use quantum_encryptor.Config.{
  allowed_hybrid_kem_algs, allowed_kem_algs, max_kem_alg_name_bytes, format_version,
}
use quantum_encryptor.Algorithms.{is_hybrid_key_algorithm-member, is_allowed_kem_algorithm-member}
use quantum_encryptor.Container.{suite_allowed}

module _ (P : Text → Type 0) where
  -- What holds of each text of a collection holds of a member.
  one_of-All : (x : Text) (ys : List Text) → All P ys → one_of x ys ≡ true → P x
  unfolding one_of
  one_of-All x [] h e = cc
  one_of-All x (y ∷ ys) h e = elim (Bool-cases (list_eq x y)) [
    | inl same ↦ rw (list_eq→eq x y same) h.0
    | inr other ↦ one_of-All x ys h.1 (rw other at e)
  ]

-- 1 to 64 characters, all ASCII.
pub record IsSuite (suite : Text) : Type 0 where
  pub ascii : All IsAscii suite
  pub some_name : 0 < length suite
  pub fits : length suite ≤ max_kem_alg_name_bytes

pub suite_allowed-IsSuite :
    (version : ℕ) (suite : Text) → suite_allowed version suite ≡ true → IsSuite suite
unfolding suite_allowed
suite_allowed-IsSuite version suite e = elim (Bool-cases (version == format_version)) [
  | inl current ↦
      one_of-All IsSuite suite allowed_hybrid_kem_algs (omega arith)
        (is_hybrid_key_algorithm-member suite (rw current at e))
  | inr legacy ↦
      one_of-All IsSuite suite allowed_kem_algs (omega arith)
        (is_allowed_kem_algorithm-member suite (rw legacy at e))
]
