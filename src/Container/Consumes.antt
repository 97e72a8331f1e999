-- ===== src/Container/Consumes.antt =====
-- Actions that read a known front of a steady source, and how they chain.
use quantum_encryptor.Prelude.{◌≡◌, ap, Bool, true, ◌++◌, append_assoc, Bytes}
use quantum_encryptor.Failure.{Failure, Result, ok}
use quantum_encryptor.Exec.{Exec, lift, check, ◌>>=◌, ◌>>◌}
use quantum_encryptor.Container.{ReadState}

module _ {S : Type 0} (remaining : S → Bytes) (Good : S → Type 0) where
  -- From `st`, which holds `d ++ r`, the action returns `a` and leaves `r`.
  pub record Consumes {A : Type 0} (m : Exec (ReadState S) A) (a : A) (d r : Bytes)
      (st : ReadState S) : Type 0 where
    pub end : S
    pub run : m st ≡ (ok a, record { source = end; header = st.header ++ d })
    pub good : Good end
    pub left : remaining end ≡ r

  pub Consumes-bind :
      {A B : Type 0} (m : Exec (ReadState S) A) (f : A → Exec (ReadState S) B) {a : A} {b : B}
      {d d' r : Bytes} {st : ReadState S}
      → (c : Consumes m a d (d' ++ r) st)
      → Consumes (f a) b d' r (record { source = c.end; header = st.header ++ d })
      → Consumes (m >>= f) b (d ++ d') r st
  Consumes-bind m f {b} {d} {d'} {st} c k = record {
    end = k.end;
    run =
        rw (c.run, k.run)
          (ap (λ (h : Bytes). (ok b, record { source = k.end; header = h }))
            (append_assoc st.header d d'));
    good = k.good;
    left = k.left;
  }

  pub Consumes-check :
      {B : Type 0} (test : Bool) (e : Failure) (k : Exec (ReadState S) B) {b : B} {d r : Bytes}
      {st : ReadState S}
      → test ≡ true
      → Consumes k b d r st
      → Consumes (check test e >> k) b d r st
  Consumes-check test e k pass c = record {
    end = c.end;
    run = rw pass c.run;
    good = c.good;
    left = c.left;
  }

  pub Consumes-lift :
      {A B : Type 0} (x : Result A) (f : A → Exec (ReadState S) B) {a : A} {b : B} {d r : Bytes}
      {st : ReadState S}
      → x ≡ ok a
      → Consumes (f a) b d r st
      → Consumes (lift x >>= f) b d r st
  Consumes-lift x f e c = record { end = c.end; run = rw e c.run; good = c.good; left = c.left }

  -- What comes after `m` reads nothing more.
  pub Consumes-then :
      {A B : Type 0} (m : Exec (ReadState S) A) (f : A → Exec (ReadState S) B) {a : A} {b : B}
      {d r : Bytes} {st : ReadState S}
      → (c : Consumes m a d r st)
      → f a (record { source = c.end; header = st.header ++ d })
        ≡ (ok b, record { source = c.end; header = st.header ++ d })
      → Consumes (m >>= f) b d r st
  Consumes-then m f c e = record { end = c.end; run = rw c.run e; good = c.good; left = c.left }
