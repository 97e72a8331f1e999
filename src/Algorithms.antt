-- ===== src/Algorithms.antt =====
-- crypto_core.py: which algorithm identifiers a key or a container may name.
use quantum_encryptor.Prelude.{
  ◌≡◌, Bool, true, false, List, Option, none, some, arith, Text, not, ◌&&◌, is_empty, one_of,
}
use quantum_encryptor.Config.{allowed_kem_algs, allowed_key_algs, allowed_hybrid_kem_algs}

-- `None` and the empty text are false.
abbrev pub named : Option Text → (Text → Bool) → Bool
named none test = false
named (some t) test = not (is_empty t) && test t

unfoldable pub is_allowed_kem_algorithm : Option Text → Bool
is_allowed_kem_algorithm kem_alg = named kem_alg (λ t. one_of t allowed_kem_algs)

unfoldable pub is_allowed_key_algorithm : Option Text → Bool
is_allowed_key_algorithm key_alg = named key_alg (λ t. one_of t allowed_key_algs)

unfoldable pub is_hybrid_key_algorithm : Option Text → Bool
is_hybrid_key_algorithm key_alg = named key_alg (λ t. one_of t allowed_hybrid_kem_algs)

-- The identifiers that are allowed are those of the collections.
named-member :
    (t : Text) (allowed : List Text)
    → named (some t) (λ x. one_of x allowed) ≡ true
    → one_of t allowed ≡ true
named-member t allowed h = ground arith

pub is_hybrid_key_algorithm-member :
    (t : Text) → is_hybrid_key_algorithm (some t) ≡ true → one_of t allowed_hybrid_kem_algs ≡ true
unfolding is_hybrid_key_algorithm
is_hybrid_key_algorithm-member t h = named-member t allowed_hybrid_kem_algs h

pub is_allowed_kem_algorithm-member :
    (t : Text) → is_allowed_kem_algorithm (some t) ≡ true → one_of t allowed_kem_algs ≡ true
unfolding is_allowed_kem_algorithm
is_allowed_kem_algorithm-member t h = named-member t allowed_kem_algs h
