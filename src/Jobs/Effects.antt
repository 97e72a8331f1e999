-- ===== src/Jobs/Effects.antt =====
-- A relation between the states before and after, which every part of an operation keeps.
use quantum_encryptor.Prelude.{Bool, true, false, if◌then◌else◌}
use quantum_encryptor.Failure.{Failure, Result, ok, err, ensure}
use quantum_encryptor.Exec.{Exec, lift, check, proceed, ensuring, reraised, on_failure, ◌>>=◌, ◌>>◌}

module _ {S : Type 0} where
  pub record IsPreorder (R : S → S → Type 0) : Type 0 where
    pub same : (s : S) → R s s
    pub chain : {s t u : S} → R s t → R t u → R s u

pub record Does {S A : Type 0} (R : S → S → Type 0) (m : Exec S A) : Type 0 where
  pub at : (s : S) → R s (m s).1

module _ {S : Type 0} {R : S → S → Type 0} (pre : IsPreorder R) where
  pub lift-Does : {A : Type 0} (r : Result A) → Does R (lift r)
  lift-Does r = record { at = λ s. pre.same s }

  proceed-Does :
      {A B : Type 0} (f : A → Exec S B) (r : Result A) (s : S)
      → ((a : A) → Does R (f a))
      → R s (proceed f r s).1
  proceed-Does f (err e) s h = pre.same s
  proceed-Does f (ok a) s h = (h a).at s

  pub >>=-Does :
      {A B : Type 0} {m : Exec S A} {f : A → Exec S B}
      → Does R m
      → ((a : A) → Does R (f a))
      → Does R (m >>= f)
  >>=-Does {m = m} {f = f} h k = record {
    at = λ s. pre.chain (h.at s) (proceed-Does f (m s).0 (m s).1 k);
  }

  pub >>-Does : {A B : Type 0} {m : Exec S A} {k : Exec S B} → Does R m → Does R k → Does R (m >> k)
  >>-Does {m = m} {k = k} h l = record {
    at = λ s. pre.chain (h.at s) (proceed-Does (λ a. k) (m s).0 (m s).1 (λ a. l));
  }

  pub ensuring-Does :
      {A : Type 0} {m : Exec S A} {k : Exec S (Unit {0})}
      → Does R m
      → Does R k
      → Does R (ensuring m k)
  ensuring-Does {m = m} h l = record { at = λ s. pre.chain (h.at s) (l.at (m s).1) }

  reraised-Does :
      {A : Type 0} (k : Exec S (Unit {0})) (r : Result A) (s : S)
      → Does R k
      → R s (reraised k r s).1
  reraised-Does k (ok a) s h = pre.same s
  reraised-Does k (err e) s h = h.at s

  pub on_failure-Does :
      {A : Type 0} {m : Exec S A} {k : Exec S (Unit {0})}
      → Does R m
      → Does R k
      → Does R (on_failure m k)
  on_failure-Does {m = m} {k = k} h l = record {
    at = λ s. pre.chain (h.at s) (reraised-Does k (m s).0 (m s).1 l);
  }

  -- The same for a test on the state.
  pub when-Does :
      {A : Type 0} (b : Bool) (s : S) (p q : Result A × S)
      → R s p.1
      → R s q.1
      → R s (if b then p else q).1
  when-Does true s p q h l = h
  when-Does false s p q h l = l

  pub if-Does : (b : Bool) (s t u : S) → R s t → R s u → R s (if b then t else u)
  if-Does true s t u h l = h
  if-Does false s t u h l = l

  pub check-Does : (b : Bool) (e : Failure) → Does R (check b e)
  check-Does b e = lift-Does (ensure b e)
