-- ===== src/Exec.antt =====
-- A method that changes an object and may raise. What was written before a raise stays written, so
-- the state comes back beside the failure too.
pub mod Keeps
use quantum_encryptor.Prelude.{◌≡◌, refl, ap, ◌⊎◌, inl, inr, Bool, true, false, if◌then◌else◌}
use quantum_encryptor.Failure.{Failure, Result, ok, err, ensure, ok-injective}

abbrev pub Exec {ℓ} : Type ℓ → Type ℓ → Type ℓ
Exec S A = S → Result A × S

module _ {ℓ} {A S : Type ℓ} where
  abbrev pub raise : Failure → Exec S A
  raise failure state = (err failure, state)

  abbrev pub lift : Result A → Exec S A
  lift result state = (result, state)

  abbrev pub pure : A → Exec S A
  pure value = lift (ok value)

module _ {S : Type 0} where
  abbrev pub check : Bool → Failure → Exec S (Unit {0})
  check test failure = lift (ensure test failure)

  abbrev pub modify : (S → S) → Exec S (Unit {0})
  modify change state = (ok tt, change state)

-- What `finally` gives: a failure of the last part is raised in place of the first part's result.
abbrev pub finished {ℓ} : {A : Type ℓ} → Result A → Result (Unit {0}) → Result A
finished result (err failure) = err failure
finished result (ok u) = result

module _ {A S : Type 0} where
  -- `try: first finally: last`
  abbrev pub ensuring : Exec S A → Exec S (Unit {0}) → Exec S A
  ensuring first last state =
      let (result, middle) = first state in
      let (done, end) = last middle in (finished result done, end)

  -- `except BaseException: handler; raise`
  abbrev pub reraised : Exec S (Unit {0}) → Result A → S → Result A × S
  reraised handler (ok value) state = (ok value, state)
  reraised handler (err failure) state =
      (finished (err failure) (handler state).0, (handler state).1)

  abbrev pub on_failure : Exec S A → Exec S (Unit {0}) → Exec S A
  on_failure body handler state =
      let (result, middle) = body state in reraised handler result middle

module _ {ℓ} {B A S : Type ℓ} where
  -- What comes after a first part that ended with `result`.
  abbrev pub proceed : (A → Exec S B) → Result A → S → Result B × S
  proceed rest (err failure) state = (err failure, state)
  proceed rest (ok value) state = rest value state

  infixl 5 ◌>>=◌ ◌>>◌
  abbrev pub ◌>>=◌ : Exec S A → (A → Exec S B) → Exec S B
  ◌>>=◌ first rest state = proceed rest (first state).0 (first state).1

  abbrev pub ◌>>◌ : Exec S A → Exec S B → Exec S B
  first >> next = first >>= λ value. next

  pub proceed-eq_ok :
      (result : Result A) (rest : A → Exec S B) (state : S) {b : B} {end : S}
      → proceed rest result state ≡ (ok b, end)
      → (a : A) × (result ≡ ok a) × (rest a state ≡ (ok b, end))
  proceed-eq_ok (err failure) rest state h = cc
  proceed-eq_ok (ok value) rest state h = (value, refl, h)

  -- A chain that returned: its first part returned, and so did the rest from the state it left.
  pub >>=-eq_ok :
      (m : Exec S A) (f : A → Exec S B) (s : S) {b : B} {s' : S}
      → (m >>= f) s ≡ (ok b, s')
      → (a : A) × (t : S) × (m s ≡ (ok a, t)) × (f a t ≡ (ok b, s'))
  >>=-eq_ok m f s h =
      let (r, t) = m s in let (a, p, q) = proceed-eq_ok r f t h in (a, t, ap (λ r'. (r', t)) p, q)

  pub >>=_step :
      (m : Exec S A) (f : A → Exec S B) (s : S) {a : A} {t : S}
      → m s ≡ (ok a, t)
      → (m >>= f) s ≡ f a t
  >>=_step m f s e = rw e

module _ {S A : Type 0} where
  -- A chain that begins with a test and returned: the test held, and the rest returned.
  pub check-eq_ok :
      (b : Bool) (e : Failure) (k : Exec S A) (s : S) {x : A} {s' : S}
      → (check b e >> k) s ≡ (ok x, s')
      → (b ≡ true) × (k s ≡ (ok x, s'))
  check-eq_ok true e k s h = (refl, h)
  check-eq_ok false e k s h = cc

  -- A test between two actions, of which one was run.
  pub if-eq :
      (b : Bool) (m k : Exec S A) (s : S) {q : Result A × S}
      → (if b then m else k) s ≡ q
      → ((b ≡ true) × (m s ≡ q)) ⊎ ((b ≡ false) × (k s ≡ q))
  if-eq true m k s h = inl (refl, h)
  if-eq false m k s h = inr (refl, h)

  pub unless-eq_ok :
      (b : Bool) (e : Failure) (k : Exec S A) (s : S) {x : A} {s' : S}
      → (if b then raise e else k) s ≡ (ok x, s')
      → (b ≡ false) × (k s ≡ (ok x, s'))
  unless-eq_ok true e k s h = cc
  unless-eq_ok false e k s h = (refl, h)

  pub when-eq_ok :
      (b : Bool) (e : Failure) (k : Exec S A) (s : S) {x : A} {s' : S}
      → (if b then k else raise e) s ≡ (ok x, s')
      → (b ≡ true) × (k s ≡ (ok x, s'))
  when-eq_ok true e k s h = (refl, h)
  when-eq_ok false e k s h = cc

  -- Two outcomes that are equal have equal values and leave equal states.
  pub outcome_value : {a b : A} {s t : S} → ◌≡◌ {A = Result A × S} (ok a, s) (ok b, t) → a ≡ b
  outcome_value e = ok-injective (ap (λ q. q.0) e)

  pub outcome_state : {a b : A} {s t : S} → ◌≡◌ {A = Result A × S} (ok a, s) (ok b, t) → s ≡ t
  outcome_state e = ap (λ q. q.1) e
