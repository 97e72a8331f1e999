-- ===== src/Stream/Taken.antt =====
-- What a read that returned has taken from its source.
use quantum_encryptor.Prelude.{
  ℕ, zero, suc, ◌+◌, ◌≤◌, ◌<◌, ◌≡◌, refl, sym, ap, ◌∙◌, Bool, true, false, Option, none, some, List,
  [], ◌∷◌, ◌++◌, arith, Bytes, length, take, drop, take-append-drop, ltb, min, inl, inr,
  if◌then◌else◌,
}
use quantum_encryptor.Failure.{Result, ok, err, ok-injective, size_limit_error}
use quantum_encryptor.Exec.{proceed, proceed-eq_ok, >>=-eq_ok, outcome_value, outcome_state}
use quantum_encryptor.Container.Source.{IsFaithful}
use quantum_encryptor.Stream.Files.{
  Source, Session, Reader, ReadReply, gives, bad_data, read_error, source_step, source_script,
  source_read, checkpoint,
}
use quantum_encryptor.Stream.Reader.{
  read_size, asked_size, pull, received, add_count, within_limit, reader_read, as_source,
}
use quantum_encryptor.Stream.Written.{checkpoint-cases}

pub record Took (size : Option ℕ) (r : Reader) (got : Bytes) (r' : Reader) : Type 0 where
  pub rest : r.source.rest ≡ got ++ r'.source.rest
  pub count : r'.count ≡ r.count + length got
  pub limit : r'.limit ≡ r.limit
  pub total : r'.total ≡ r.total
  pub within : r'.count ≤ r'.limit
  pub ended : got ≡ [] → 0 < read_size size r → r'.source.rest ≡ []

take-nil_drop : (n : ℕ) (d : Bytes) → 0 < n → take n d ≡ [] → drop n d ≡ []
take-nil_drop zero d h e = absurd (omega arith)
take-nil_drop (suc n) [] h e = refl
take-nil_drop (suc n) (b ∷ bs) h e = cc

-- A read of the source cuts its bytes in two.
Cut : ℕ → Source → Bytes → Source → Type 0
Cut n s d s' = (s.rest ≡ d ++ s'.rest) × (d ≡ [] → 0 < n → s'.rest ≡ [])

taken : Option Bytes → Bytes
taken none = []
taken (some d) = d

take-Cut :
    (n k : ℕ) (s : Source) {d : Bytes}
    → (0 < n → 0 < k)
    → take k s.rest ≡ d
    → Cut n s d (record s { rest = drop k s.rest })
unfolding Cut
take-Cut n k s room same = (
  sym (take-append-drop k s.rest) ∙ ap (λ x. x ++ drop k s.rest) same,
  λ empty some_size. take-nil_drop k s.rest (room some_size) (same ∙ empty),
)

some-injective : {a b : Bytes} → ◌≡◌ {A = Result (Option Bytes)} (ok (some a)) (ok (some b)) → a ≡ b
unfolding taken
some-injective e = ap taken (ok-injective e)

source_step-Cut :
    (n : ℕ) (r : ReadReply) (s : Source) {d : Bytes}
    → (source_step n r s).0 ≡ ok (some d)
    → Cut n s d (source_step n r s).1
source_step-Cut n (gives k) s e = take-Cut n (min n (k + 1)) s (λ h. omega arith) (some-injective e)
source_step-Cut n bad_data s e = cc
source_step-Cut n read_error s e = cc

source_script-Cut :
    (n : ℕ) (rs : List ReadReply) (s : Source) {d : Bytes}
    → (source_script n rs s).0 ≡ ok (some d)
    → Cut n s d (source_script n rs s).1
unfolding Cut
source_script-Cut n [] s e = take-Cut n n s (λ h. h) (some-injective e)
source_script-Cut n (r ∷ rs) s e = source_step-Cut n r (record s { replies = rs }) e

source_read-Cut :
    (n : ℕ) (s : Source) {d : Bytes}
    → (source_read n s).0 ≡ ok (some d)
    → Cut n s d (source_read n s).1
unfolding source_read
source_read-Cut n s e = source_script-Cut n s.replies s e

checkpoint_reader : (s t : Session) {u : Unit {0}} → checkpoint s ≡ (ok u, t) → t.reader ≡ s.reader
checkpoint_reader s t e =
    let (c, outcome) = checkpoint-cases s in elim outcome [ inl p ↦ cc | inr p ↦ cc ]

received_all : (n : ℕ) (reply : Option Bytes) {d : Bytes} → received n reply ≡ ok d → reply ≡ some d
unfolding received
received_all n none e = cc
received_all n (some x) e = ground arith

not_above : (a b : ℕ) → ltb a b ≡ false → b ≤ a
not_above a b h = ground arith

within_limit_ok :
    (s t : Session) {u : Unit {0}}
    → within_limit s ≡ (ok u, t)
    → (t ≡ s) × (s.reader.count ≤ s.reader.limit)
unfolding within_limit
within_limit_ok s t e = cases (ltb s.reader.limit s.reader.count) refl e
  where
    cases :
        (b : Bool)
        → ltb s.reader.limit s.reader.count ≡ b
        → ◌≡◌ {A = Result (Unit {0}) × Session}
            (if b then (err size_limit_error, s) else (ok tt, s))
            (ok _, t)
        → (t ≡ s) × (s.reader.count ≤ s.reader.limit)
    cases true p q = cc
    cases false p q = (sym (outcome_state q), not_above s.reader.limit s.reader.count p)

asked_ok :
    (size : Option ℕ) (s t : Session) {n : ℕ}
    → asked_size size s ≡ (ok n, t)
    → (t ≡ s) × (n ≡ read_size size s.reader)
unfolding asked_size
asked_ok size s t e = (sym (outcome_state e), sym (outcome_value e))

-- The fields of the reader that a read leaves alone.
Settled : Reader → Reader → Type 0
Settled r r' = (r'.limit ≡ r.limit) × (r'.total ≡ r.total)

pull_ok :
    (n : ℕ) (s t : Session) {reply : Option Bytes} {d : Bytes}
    → pull n s ≡ (ok reply, t)
    → reply ≡ some d
    → Cut n s.reader.source d t.reader.source
      × (t.reader.count ≡ s.reader.count)
      × Settled s.reader t.reader
unfolding pull Settled
pull_ok n s t {d = d} e p =
    let left = ap (λ (q : Result (Option Bytes) × Session). q.1) e in
    (
      rw (sym left) (
          source_read-Cut n s.reader.source (
            ap (λ (q : Result (Option Bytes) × Session). q.0) e
            ∙ ap (λ (o : Option Bytes). ok o) p)),
      rw (sym left) refl,
      (rw (sym left) refl, rw (sym left) refl),
    )

add_ok :
    (n : ℕ) (s t : Session) {u : Unit {0}}
    → add_count n s ≡ (ok u, t)
    → (t.reader.source ≡ s.reader.source)
      × (t.reader.count ≡ s.reader.count + n)
      × Settled s.reader t.reader
unfolding add_count Settled
add_ok n s t e =
    let left = ap (λ (q : Result (Unit {0}) × Session). q.1) e in
    (rw (sym left) refl, rw (sym left) refl, (rw (sym left) refl, rw (sym left) refl))

-- The parts of a read, put together.
parts-Took :
    (n : ℕ) (size : Option ℕ) (r r2 r3 : Reader) {d : Bytes}
    → n ≡ read_size size r
    → Cut n r.source d r2.source × (r2.count ≡ r.count) × Settled r r2
    → (r3.source ≡ r2.source) × (r3.count ≡ r2.count + length d) × Settled r2 r3
    → r3.count ≤ r3.limit
    → Took size r d r3
unfolding Settled Cut
parts-Took n size r r2 r3 {d} asked ((cut, ended), same, (limit2, total2))
      (source3, count3, (limit3, total3)) within =
    record {
      rest = cut ∙ ap (λ (x : Source). d ++ x.rest) (sym source3);
      count = count3 ∙ ap (λ k. k + length d) same;
      limit = limit3 ∙ limit2;
      total = total3 ∙ total2;
      within = within;
      ended = λ empty low. ap (λ (x : Source). x.rest) source3 ∙ ended empty (rw asked low);
    }

Took-along :
    {size : Option ℕ} {r q r' q' : Reader} {d got : Bytes}
    → r ≡ q
    → d ≡ got
    → r' ≡ q'
    → Took size r d r'
    → Took size q got q'
Took-along start same end h = rw (sym start, sym same, sym end) h

-- The runs of the parts, put together.
runs-Took :
    (size : Option ℕ) (s s1 s2 s3 s5 s6 s7 s' : Session) {n : ℕ} {reply : Option Bytes}
    {d got : Bytes} {u u5 u6 u7 : Unit {0}}
    → checkpoint s ≡ (ok u, s1)
    → asked_size size s1 ≡ (ok n, s2)
    → pull n s2 ≡ (ok reply, s3)
    → received n reply ≡ ok d
    → add_count (length d) s3 ≡ (ok u5, s5)
    → within_limit s5 ≡ (ok u6, s6)
    → checkpoint s6 ≡ (ok u7, s7)
    → ◌≡◌ {A = Result Bytes × Session} (ok d, s7) (ok got, s')
    → Took size s.reader got s'.reader
runs-Took size s s1 s2 s3 s5 s6 s7 s' {n} {reply} {d} run1 run2 run3 good run5 run6 run7 e =
    let (same2, asked) = asked_ok size s1 s2 run2 in
    let (same6, within) = within_limit_ok s5 s6 run6 in
    let start : s2.reader ≡ s.reader =
      ap (λ (x : Session). x.reader) same2 ∙ checkpoint_reader s s1 run1 in
    let end : s5.reader ≡ s'.reader =
      sym (checkpoint_reader s6 s7 run7 ∙ ap (λ (x : Session). x.reader) same6)
      ∙ ap (λ (x : Session). x.reader) (outcome_state e) in
    let asked2 = asked ∙ ap (λ (x : Session). read_size size x.reader) (sym same2) in
    Took-along start (outcome_value e) end (
      parts-Took n size s2.reader s3.reader s5.reader asked2
        (pull_ok n s2 s3 run3 (received_all n reply good)) (add_ok (length d) s3 s5 run5) within)

pub reader_read-Took :
    (size : Option ℕ) (s s' : Session) {got : Bytes}
    → reader_read size s ≡ (ok got, s')
    → Took size s.reader got s'.reader
unfolding reader_read
reader_read-Took size s s' {got} e =
    let (_, s1, run1, e1) = >>=-eq_ok checkpoint _ s e in
    let (n, s2, run2, e2) = >>=-eq_ok (asked_size size) _ s1 e1 in
    let (reply, s3, run3, e3) = >>=-eq_ok (pull n) _ s2 e2 in
    let (d, good, e4) = proceed-eq_ok (received n reply) _ s3 e3 in
    let (_, s5, run5, e5) = >>=-eq_ok (add_count (length d)) _ s3 e4 in
    let (_, s6, run6, e6) = >>=-eq_ok within_limit _ s5 e5 in
    let (_, s7, run7, e7) = >>=-eq_ok checkpoint _ s6 e6 in
    runs-Took size s s1 s2 s3 s5 s6 s7 s' run1 run2 run3 good run5 run6 run7 e7

-- A chunk of the default size is empty only at the end.
pub chunk_ended : (s s' : Session) → reader_read none s ≡ (ok [], s') → s.reader.source.rest ≡ []
unfolding read_size
chunk_ended s s' e =
    let took = reader_read-Took none s s' e in
    took.rest ∙ took.ended refl (omega (arith, took.within, took.count, took.limit))

as_source_value :
    (r : Result Bytes) (s t : Session) {d : Bytes}
    → proceed (λ got s'. (ok (some got), s')) r s ≡ (ok (some d), t)
    → (r ≡ ok d) × (s ≡ t)
as_source_value (err e) s t h = cc
as_source_value (ok got) s t h =
    (ap (λ (x : Bytes). ok x) (some-injective (ap (λ q. q.0) h)), ap (λ q. q.1) h)

abbrev pub rest_of : Session → Bytes
rest_of s = s.reader.source.rest

pub as_source-IsFaithful : IsFaithful as_source rest_of
unfolding as_source
as_source-IsFaithful = record {
  at = λ n s {d} {t} e.
      let (value, left) =
        as_source_value (reader_read (some n) s).0 (reader_read (some n) s).1 t e in
      (reader_read-Took (some n) s t (
        ap (λ (r : Result Bytes). (r, (reader_read (some n) s).1)) value
        ∙ ap (λ (x : Session). (ok d, x)) left)).rest;
}
