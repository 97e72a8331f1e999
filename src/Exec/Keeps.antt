-- ===== src/Exec/Keeps.antt =====
-- A part of the state that an action leaves as it was, whatever the outcome.
use quantum_encryptor.Prelude.{◌≡◌, refl, ◌∙◌, Bool, true, false, if◌then◌else◌}
use quantum_encryptor.Failure.{Result, ok, err}
use quantum_encryptor.Exec.{Exec, lift, proceed, ◌>>=◌, ◌>>◌}

pub record Keeps {S X : Type 0} (view : S → X) {A : Type 0} (m : Exec S A) : Type 0 where
  pub at : (s : S) → view (m s).1 ≡ view s

module _ {S X : Type 0} {view : S → X} {A : Type 0} where
  pub lift-Keeps : (r : Result A) → Keeps view (lift r)
  lift-Keeps r = record { at = λ s. refl }

  pub if-Keeps :
      (b : Bool) {m n : Exec S A} → Keeps view m → Keeps view n → Keeps view (if b then m else n)
  if-Keeps true hm hn = hm
  if-Keeps false hm hn = hn

  -- The same for a match on a decision that begins with `false`.
  pub cond-Keeps :
      (b : Bool) {m n : Exec S A}
      → Keeps view m
      → Keeps view n
      → Keeps view (elim b [ false ↦ n | true ↦ m ])
  cond-Keeps true hm hn = hm
  cond-Keeps false hm hn = hn

module _ {S X : Type 0} {view : S → X} {A B : Type 0} where
  proceed-Keeps :
      (f : A → Exec S B) (r : Result A) (t : S)
      → ((a : A) → Keeps view (f a))
      → view (proceed f r t).1 ≡ view t
  proceed-Keeps f (err e) t hf = refl
  proceed-Keeps f (ok a) t hf = (hf a).at t

  pub >>=-Keeps :
      {m : Exec S A} {f : A → Exec S B}
      → Keeps view m
      → ((a : A) → Keeps view (f a))
      → Keeps view (m >>= f)
  >>=-Keeps {m = m} {f = f} hm hf = record {
    at = λ s. proceed-Keeps f (m s).0 (m s).1 hf ∙ hm.at s;
  }

  pub >>-Keeps : {m : Exec S A} {n : Exec S B} → Keeps view m → Keeps view n → Keeps view (m >> n)
  >>-Keeps {m = m} {n = n} hm hn = record {
    at = λ s. proceed-Keeps (λ a. n) (m s).0 (m s).1 (λ a. hn) ∙ hm.at s;
  }
