-- ===== src/Stream/Files.antt =====
-- The binary files that the streams work on, and the state of one operation.
use quantum_encryptor.Prelude.{
  ℕ, ◌+◌, Bool, true, false, ◌&&◌, Option, none, some, List, [], ◌∷◌, ◌++◌, Bytes, length, take,
  drop, ltb, leb, min, if◌then◌else◌,
}
use quantum_encryptor.Failure.{Result, ok, err, os_error, operation_cancelled}
use quantum_encryptor.Exec.{Exec, modify}

-- `gives k` returns at most `k + 1` bytes. `bad_data` is no `bytes`, or more than was asked for.
pub data ReadReply : Type 0 where
  gives : ℕ → ReadReply
  bad_data read_error : ReadReply

pub record Source : Type 0 where
  pub rest : Bytes
  pub seekable : Bool
  pub replies : List ReadReply

-- `wrote k` is the count that `write` returns; `no_count` is no `int`, or an exception.
pub data WriteReply : Type 0 where
  wrote : ℕ → WriteReply
  no_count : WriteReply

pub record Sink : Type 0 where
  pub written : Bytes
  pub replies : List WriteReply

-- A reply within the bounds of the request.
abbrev pub source_step : ℕ → ReadReply → Source → Result (Option Bytes) × Source
source_step n (gives k) s =
    (ok (some (take (min n (k + 1)) s.rest)), record s { rest = drop (min n (k + 1)) s.rest })
source_step n bad_data s = (ok none, s)
source_step n read_error s = (err os_error, s)

abbrev pub source_script : ℕ → List ReadReply → Source → Result (Option Bytes) × Source
source_script n [] s = (ok (some (take n s.rest)), record s { rest = drop n s.rest })
source_script n (r ∷ rs) s = source_step n r (record s { replies = rs })

-- `source.read(n)`
unfoldable pub source_read : ℕ → Source → Result (Option Bytes) × Source
source_read n s = source_script n s.replies s

-- `sink.write(remaining)`: the count, if it is one. A sink whose count is out of bounds has kept
-- nothing.
unfoldable pub sink_write : Bytes → Sink → Option ℕ × Sink
sink_write d s = elim s.replies [
  | [] ↦ (some (length d), record s { written = s.written ++ d })
  | no_count ∷ rs ↦ (none, record s { replies = rs })
  | wrote k ∷ rs ↦ (
    some k,
    if ltb 0 k && leb k (length d)
        then record s { written = s.written ++ take k d; replies = rs }
        else record s { replies = rs },
  )
]

-- The fields of `_Reader`.
pub record Reader : Type 0 where
  pub source : Source
  pub limit : ℕ
  pub count : ℕ
  pub total : Option ℕ

pub data Phase : Type 0 where
  encrypting verifying decrypting : Phase

-- One call of `progress`.
pub record Report : Type 0 where
  pub phase : Phase
  pub processed : ℕ
  pub total : ℕ

pub record Session : Type 0 where
  pub reader : Reader
  pub sink : Sink
  pub snapshot : Sink
  pub cancels : List Bool
  pub reports : List Report

-- `_checkpoint`
unfoldable pub checkpoint : Exec Session (Unit {0})
checkpoint s = elim s.cancels [
  | [] ↦ (ok tt, s)
  | true ∷ later ↦ (err operation_cancelled, record s { cancels = later })
  | false ∷ later ↦ (ok tt, record s { cancels = later })
]

-- `_report`
unfoldable pub report : Phase → ℕ → ℕ → Exec Session (Unit {0})
report phase processed total = modify (λ s. record s {
  reports = s.reports ++ record { phase = phase; processed = processed; total = total } ∷ [];
})
