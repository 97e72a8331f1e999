-- ===== src/Container/Source.antt =====
-- The protocol `_BinaryReader` of crypto_core.py: `read(size)` on some state, and what the code may
-- expect of a source that behaves.
use quantum_encryptor.Prelude.{ℕ, ◌≤◌, ◌<◌, ◌≡◌, Option, some, ◌++◌, Bytes, length}
use quantum_encryptor.Failure.{Result, ok}

-- `none` is a reply that is no `bytes`, such as the `None` of a source that would block.
abbrev pub BinaryReader : Type 0 → Type 0
BinaryReader S = ℕ → S → Result (Option Bytes) × S

module _ {S : Type 0} (read : BinaryReader S) (remaining : S → Bytes) where
  -- What a read returns is the front of what the source still holds.
  pub record IsFaithful : Type 0 where
    pub at :
        (n : ℕ) (s : S) {d : Bytes} {t : S}
        → read n s ≡ (ok (some d), t)
        → remaining s ≡ d ++ remaining t

  -- From a state that is `Good`, a read returns at most what was asked for, perhaps less, and
  -- nothing only at the end.
  pub record IsSteady (Good : S → Type 0) : Type 0 where
    pub at :
        (n : ℕ) (s : S)
        → 0 < n
        → Good s
        → (d : Bytes) × (t : S) × (read n s ≡ (ok (some d), t))
          × Good t
          × (remaining s ≡ d ++ remaining t)
          × (length d ≤ n)
          × (0 < length (remaining s) → 0 < length d)
