-- ===== src/Container/Rounds.antt =====
-- One round of the loop of `read_exact`.
use quantum_encryptor.Prelude.{
  ℕ, zero, suc, ◌-◌, ◌≤◌, ◌<◌, ◌≡◌, sym, ap, ◌∙◌, true, some, [], ◌∷◌, ◌++◌, arith, ltb, Bytes,
  length, Option, none,
}
use quantum_encryptor.Failure.{ok}
use quantum_encryptor.Exec.{>>=-eq_ok, proceed-eq_ok}
use quantum_encryptor.Container.Source.{BinaryReader}
use quantum_encryptor.Container.{ReadState, checked_part, fetch, read_exact_loop}

checked_part_ok : (n : ℕ) (p : Bytes) → 0 < length p → length p ≤ n → checked_part n (some p) ≡ ok p
unfolding checked_part
checked_part_ok n [] h k = absurd (omega arith)
checked_part_ok n (x ∷ p) h k = ground arith

checked_part_inv :
    (n : ℕ) (reply : Option Bytes) (p : Bytes)
    → checked_part n reply ≡ ok p
    → (reply ≡ some p) × (0 < length p) × (length p ≤ n)
unfolding checked_part
checked_part_inv n none p e = cc
checked_part_inv n (some []) p e = ground arith
checked_part_inv n (some (x ∷ q)) p e = ground arith

module _ {S : Type 0} (read : BinaryReader S) where
  pub loop_done :
      (fuel size : ℕ) (got : Bytes) (st : ReadState S)
      → size ≤ length got
      → read_exact_loop read fuel size got st ≡ (ok got, st)
  unfolding read_exact_loop
  loop_done zero size got st h = ground arith
  loop_done (suc fuel) size got st h = ground arith

  pub loop_step :
      (fuel size : ℕ) (got p : Bytes) (st : ReadState S) (t : S)
      → read (size - length got) st.source ≡ (ok (some p), t)
      → 0 < length p
      → length p ≤ size - length got
      → read_exact_loop read (suc fuel) size got st
        ≡ read_exact_loop read fuel size (got ++ p) (record { source = t; header = st.header })
  unfolding read_exact_loop fetch
  loop_step fuel size got p st t e some_part fits =
      let more : ltb (length got) size ≡ true = ground arith in
      rw (more, e, checked_part_ok (size - length got) p some_part fits, read_exact_loop)

  fetch_inv :
      (n : ℕ) (st st' : ReadState S) {reply : Option Bytes}
      → fetch read n st ≡ (ok reply, st')
      → (read n st.source ≡ (ok reply, st'.source)) × (st'.header ≡ st.header)
  unfolding fetch
  fetch_inv n st st' e = (λ i. ((e i).0, (e i).1.source), λ i. (sym e i).1.header)

  -- A loop that has not read enough and returns made a round.
  pub loop_round :
      (fuel size : ℕ) (got d : Bytes) (st st' : ReadState S)
      → length got < size
      → read_exact_loop read (suc fuel) size got st ≡ (ok d, st')
      → (p : Bytes) × (t : ReadState S) × (read (size - length got) st.source
          ≡ (ok (some p), t.source))
        × (t.header ≡ st.header)
        × (0 < length p)
        × (length p ≤ size - length got)
        × (read_exact_loop read fuel size (got ++ p) t ≡ (ok d, st'))
  unfolding read_exact_loop
  loop_round fuel size got d st st' short e =
      let more : ltb (length got) size ≡ true = ground arith in
      let (reply, t, fetched, e') =
        >>=-eq_ok (fetch read (size - length got)) _ st (rw (more, read_exact_loop) at e) in
      let (p, checked, e'') = proceed-eq_ok (checked_part (size - length got) reply) _ t e' in
      let (same, full, fits) = checked_part_inv (size - length got) reply p checked in
      let (got_part, kept) = fetch_inv (size - length got) st t fetched in
      (p, t, got_part ∙ ap (λ o. (ok o, t.source)) same, kept, full, fits, e'')
