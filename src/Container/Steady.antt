-- ===== src/Container/Steady.antt =====
-- `read_exact` on a steady source: it returns what the source holds.
use quantum_encryptor.Prelude.{
  ℕ, zero, suc, ◌-◌, ◌≤◌, ◌<◌, ◌≡◌, sym, ap, ◌∙◌, [], ◌∷◌, ◌++◌, append-nil, append_assoc, arith,
  Bytes, length, length-append, append_split,
}
use quantum_encryptor.Failure.{Result, ok}
use quantum_encryptor.Container.Source.{BinaryReader, IsSteady}
use quantum_encryptor.Container.{ReadState, read_exact_loop, read_exact}
use quantum_encryptor.Container.Rounds.{loop_done, loop_step}

rest_length :
    (size : ℕ) (got d p m : Bytes)
    → d ≡ p ++ m
    → length (got ++ d) ≡ size
    → length ((got ++ p) ++ m) ≡ size
rest_length size got d p m same whole =
    ap length (append_assoc got p m) ∙ ap (λ (l : Bytes). length (got ++ l)) (sym same) ∙ whole

rest_shorter :
    (fuel : ℕ) (p m : Bytes) {d : Bytes}
    → d ≡ p ++ m
    → length d ≤ suc fuel
    → 0 < length p
    → length m ≤ fuel
rest_shorter fuel p m same room full = omega (arith, ap length same, length-append p m)

module _ {S : Type 0} (read : BinaryReader S) (remaining : S → Bytes) {Good : S → Type 0}
    (steady : IsSteady read remaining Good) where
  -- The loop, asked for `size` bytes, returns `got ++ d` and leaves `r`.
  abbrev Reads : ℕ → ℕ → Bytes → Bytes → Bytes → ReadState S → Type 0
  Reads fuel size got d r st =
      (t : S) × (read_exact_loop read fuel size got st
        ≡ (ok (got ++ d), record { source = t; header = st.header }))
      × Good t
      × (remaining t ≡ r)

  Reads-round :
      (fuel size : ℕ) (got d p m r : Bytes) (st : ReadState S) (t : S)
      → d ≡ p ++ m
      → read_exact_loop read (suc fuel) size got st
        ≡ read_exact_loop read fuel size (got ++ p) (record { source = t; header = st.header })
      → Reads fuel size (got ++ p) m r (record { source = t; header = st.header })
      → Reads (suc fuel) size got d r st
  Reads-round fuel size got d p m r st t same step (u, run, good, left) =
      let whole : (got ++ p) ++ m ≡ got ++ d =
        append_assoc got p m ∙ ap (λ (l : Bytes). got ++ l) (sym same) in
      let result : Bytes → Result Bytes × ReadState S =
        λ l. (ok l, record { source = u; header = st.header }) in
      (u, step ∙ run ∙ ap result whole, good, left)

  read_exact_loop_steady :
      (fuel size : ℕ) (got d r : Bytes) (st : ReadState S)
      → length (got ++ d) ≡ size
      → length d ≤ fuel
      → Good st.source
      → remaining st.source ≡ d ++ r
      → Reads fuel size got d r st
  read_exact_loop_steady fuel size got [] r st whole room good held = (
    st.source,
    rw append-nil (loop_done read fuel size got st (omega (arith, length-append got []))),
    good,
    held,
  )
  read_exact_loop_steady zero size got (x ∷ d) r st whole room good held = absurd (omega arith)
  read_exact_loop_steady (suc fuel) size got (x ∷ d) r st whole room good held =
      let missing : size - length got ≡ suc (length d) = omega (arith, length-append got (x ∷ d)) in
      let (p, t, e, good', held', fits, some_part) =
        steady.at (size - length got) st.source (omega arith) good in
      let full : 0 < length p = some_part (omega (arith, ap length held)) in
      let (m, same, rest) =
        append_split p (remaining t) (x ∷ d) r (sym held' ∙ held) (omega arith) in
      Reads-round fuel size got (x ∷ d) p m r st t same
        (loop_step read fuel size got p st t e full fits)
        (read_exact_loop_steady fuel size (got ++ p) m r (record { source = t; header = st.header })
          (rest_length size got (x ∷ d) p m same whole) (rest_shorter fuel p m same room full) good'
          rest)

  -- On a steady source that still holds `d`, reading its length returns `d`, however the source
  -- cuts it into parts.
  pub read_exact_steady :
      (size : ℕ) (d r : Bytes) (st : ReadState S)
      → length d ≡ size
      → Good st.source
      → remaining st.source ≡ d ++ r
      → (t : S) × (read_exact read size st ≡ (ok d, record { source = t; header = st.header ++ d }))
        × Good t
        × (remaining t ≡ r)
  unfolding read_exact
  read_exact_steady size d r st whole good held =
      let (t, run, good', left) =
        read_exact_loop_steady size size [] d r st whole (omega arith) good held in
      (t, rw run, good', left)
