-- ===== src/Container/Faithful.antt =====
-- `read_exact` on any faithful source: what it returns is what the source no longer holds.
use mathlib.Core.Path.{ap₂}
use quantum_encryptor.Prelude.{
  ℕ, zero, suc, ◌-◌, ◌≤◌, ◌<◌, ◌≡◌, sym, ap, ◌∙◌, [], ◌++◌, append-nil, append_assoc, arith, ◌≢◌,
  some, Bytes, length, length-append, dec_lt,
}
use quantum_encryptor.Failure.{ok, ok-injective}
use quantum_encryptor.Exec.{>>=-eq_ok}
use quantum_encryptor.Container.Source.{BinaryReader, IsFaithful}
use quantum_encryptor.Container.{ReadState, read_exact_loop, read_exact}
use quantum_encryptor.Container.Rounds.{loop_done, loop_round}

module _ {S : Type 0} (read : BinaryReader S) where
  zero_round :
      (size : ℕ) (got d : Bytes) (st st' : ReadState S)
      → length got < size
      → read_exact_loop read zero size got st ≢ (ok d, st')
  unfolding read_exact_loop
  zero_round size got d st st' short e = ground arith

module _ {S : Type 0} (read : BinaryReader S) (remaining : S → Bytes) where
  -- From `st` to `st'` a loop that began with `got` ended with `d`, of `size` bytes.
  abbrev Gained : ℕ → Bytes → Bytes → ReadState S → ReadState S → Type 0
  Gained size got d st st' =
      (m : Bytes) × (d ≡ got ++ m)
      × (remaining st.source ≡ m ++ remaining st'.source)
      × (st'.header ≡ st.header)
      × (length d ≡ size)

  stopped :
      (size : ℕ) (got d : Bytes) (st st' : ReadState S)
      → length got ≡ size
      → got ≡ d
      → st ≡ st'
      → Gained size got d st st'
  stopped size got d st st' full same state = (
    [],
    rw append-nil (sym same),
    ap (λ (s : ReadState S). remaining s.source) state,
    ap (λ (s : ReadState S). s.header) (sym state),
    rw (← same) full,
  )

  module _ (faithful : IsFaithful read remaining) where
    round_faithful :
        (size : ℕ) (got p d : Bytes) (st t st' : ReadState S)
        → read (size - length got) st.source ≡ (ok (some p), t.source)
        → t.header ≡ st.header
        → Gained size (got ++ p) d t st'
        → Gained size got d st st'
    round_faithful size got p d st t st' fetched kept (m, same, left, header, full) = (
      p ++ m,
      same ∙ append_assoc got p m,
      faithful.at _ st.source fetched ∙ ap (λ (l : Bytes). p ++ l) left ∙ sym (append_assoc p m _),
      header ∙ kept,
      full,
    )

    loop_full :
        (fuel size : ℕ) (got d : Bytes) (st st' : ReadState S)
        → length got ≡ size
        → read_exact_loop read fuel size got st ≡ (ok d, st')
        → Gained size got d st st'
    loop_full fuel size got d st st' full e =
        let ended = sym (loop_done read fuel size got st (omega arith)) ∙ e in
        stopped size got d st st' full (ok-injective (ap (λ q. q.0) ended)) (ap (λ q. q.1) ended)

    read_exact_loop_faithful :
        (fuel size : ℕ) (got d : Bytes) (st st' : ReadState S)
        → length got ≤ size
        → read_exact_loop read fuel size got st ≡ (ok d, st')
        → Gained size got d st st'
    read_exact_loop_faithful zero size got d st st' room e = elim (dec_lt (length got) size) [
      | yes short ↦ absurd (zero_round read size got d st st' short e)
      | no full ↦ loop_full zero size got d st st' (omega arith) e
    ]
    read_exact_loop_faithful (suc fuel) size got d st st' room e = elim (dec_lt (length got) size) [
      | yes short ↦
          let (p, t, fetched, kept, some_part, fits, e') =
            loop_round read fuel size got d st st' short e in
          round_faithful size got p d st t st' fetched kept (
            read_exact_loop_faithful fuel size (got ++ p) d t st'
              (omega (arith, length-append got p)) e')
      | no full ↦ loop_full (suc fuel) size got d st st' (omega arith) e
    ]

    -- What `read_exact` returns has the length asked for, is added to the header, and is the front
    -- of what the source held.
    pub read_exact_faithful :
        (size : ℕ) (d : Bytes) (st st' : ReadState S)
        → read_exact read size st ≡ (ok d, st')
        → (remaining st.source ≡ d ++ remaining st'.source)
          × (st'.header ≡ st.header ++ d)
          × (length d ≡ size)
    unfolding read_exact
    read_exact_faithful size d st st' e =
        let (got, t, run, added) = >>=-eq_ok (read_exact_loop read size size []) _ st e in
        let (m, same, left, header, full) =
          read_exact_loop_faithful size size [] got st t (omega arith) run in
        let whole : got ≡ d = ok-injective (ap (λ q. q.0) added) in
        let source : t.source ≡ st'.source = ap (λ q. q.1.source) added in
        (
          left ∙ ap₂ (λ (a b : Bytes). a ++ b) (sym same ∙ whole) (ap remaining source),
          sym (ap (λ q. q.1.header) added) ∙ ap₂ (λ (a b : Bytes). a ++ b) header whole,
          rw (← whole) full,
        )
