-- ===== src/Failure.antt =====
-- Exceptions as values: the classes that crypto_core.py, crypto_stream.py and crypto_archive.py
-- declare and those of Python that they raise or handle. The texts of messages are left out.
use quantum_encryptor.Prelude.{ℕ, Text, ◌≡◌, refl, Bool, true, false, if◌then◌else◌}

pub data Failure : Type 0 where
  crypto_core_error crypto_dependency_error unsupported_algorithm_error file_format_error : Failure
  password_required_error weak_password_error unencrypted_private_key_error : Failure
  unsupported_kdf_error authentication_failed_error size_limit_error : Failure
  invalid_key_format_error invalid_recipient_fingerprint_error : Failure
  recipient_fingerprint_mismatch_error operation_cancelled archive_error : Failure
  archive_cancelled_error os_error value_error struct_error runtime_error type_error key_error :
      Failure
  unexpected_error : Failure
  -- `JobError` of api_jobs.py, with its status and its code.
  job_error : ℕ → Text → Failure
  -- No exception of the program: the fuel of a loop of this model ran out.
  out_of_fuel : Failure

-- A function that returns a value or raises.
pub data Result {ℓ} (A : Type ℓ) : Type ℓ where
  ok : A → Result A
  err : Failure → Result A

module _ {ℓ κ} {A : Type ℓ} {B : Type κ} where
  infixl 5 ◌>>=◌ ◌>>◌
  abbrev pub ◌>>=◌ : Result A → (A → Result B) → Result B
  err failure >>= rest = err failure
  ok value >>= rest = rest value

  abbrev pub ◌>>◌ : Result A → Result B → Result B
  err failure >> next = err failure
  ok value >> next = next

-- `if not test: raise failure`
abbrev pub ensure : Bool → Failure → Result (Unit {0})
ensure false failure = err failure
ensure true failure = ok tt

-- A test that did not raise held.
pub ensure-eq_ok :
    (test : Bool) (failure : Failure) {u : Unit {0}} → ensure test failure ≡ ok u → test ≡ true
ensure-eq_ok false failure h = cc
ensure-eq_ok true failure h = refl

pub ok-injective {ℓ} : {A : Type ℓ} {a b : A} → ok a ≡ ok b → a ≡ b
ok-injective e = cc

-- A chain that returned: its parts returned.
pub bind_ok :
    {A B : Type 0} (r : Result A) (f : A → Result B) {b : B}
    → (r >>= f) ≡ ok b
    → (a : A) × (r ≡ ok a) × (f a ≡ ok b)
bind_ok (err e) f h = cc
bind_ok (ok a) f h = (a, refl, h)

pub then_ok : {A B : Type 0} (r : Result A) (k : Result B) {b : B} → (r >> k) ≡ ok b → k ≡ ok b
then_ok (err e) k h = cc
then_ok (ok a) k h = h

-- The first part of a chain that returned, returned.
pub first_ok :
    {A B : Type 0} (r : Result A) (k : Result B) {b : B} → (r >> k) ≡ ok b → (a : A) × (r ≡ ok a)
first_ok (err e) k h = cc
first_ok (ok a) k h = (a, refl)

-- A test that did not raise held, and its value was returned.
pub if-eq_ok :
    {A : Type 0} (test : Bool) (value : A) (failure : Failure) {b : A}
    → (if test then ok value else err failure) ≡ ok b
    → (test ≡ true) × (value ≡ b)
if-eq_ok false value failure h = cc
if-eq_ok true value failure h = (refl, ok-injective h)
