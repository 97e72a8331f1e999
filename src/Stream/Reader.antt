-- ===== src/Stream/Reader.antt =====
-- `_remaining_size` and `_Reader` of crypto_stream.py.
use quantum_encryptor.Prelude.{
  ℕ, ◌+◌, ◌-◌, Bool, false, Option, none, some, Bytes, length, ltb, min, if◌then◌else◌,
}
use quantum_encryptor.Config.{stream_chunk_bytes}
use quantum_encryptor.Failure.{Result, ok, err, os_error, size_limit_error}
use quantum_encryptor.Exec.{Exec, pure, raise, lift, modify, proceed, ◌>>=◌, ◌>>◌}
use quantum_encryptor.Container.Source.{BinaryReader}
use quantum_encryptor.Stream.Files.{Source, Reader, Session, source_read, checkpoint}

unfoldable pub remaining_size : Source → Option ℕ
remaining_size s = if s.seekable then some (length s.rest) else none

abbrev pub exceeds : Option ℕ → ℕ → Bool
exceeds none limit = false
exceeds (some total) limit = ltb limit total

unfoldable pub start_reader : Source → ℕ → Exec Session (Unit {0})
start_reader source limit = modify (λ s. record s {
  reader = record { source = source; limit = limit; count = 0; total = remaining_size source };
})

-- `_Reader.__init__`
unfoldable pub open_reader : Source → ℕ → Exec Session (Unit {0})
open_reader source limit = do
  checkpoint
  start_reader source limit
  (if exceeds (remaining_size source) limit then raise size_limit_error else pure tt)

-- The size that `_Reader.read` asks for; `none` is the default of -1.
unfoldable pub read_size : Option ℕ → Reader → ℕ
read_size none r = min stream_chunk_bytes (min (r.limit + 1 - r.count) stream_chunk_bytes)
read_size (some n) r = min stream_chunk_bytes (min (r.limit + 1 - r.count) n)

unfoldable pub asked_size : Option ℕ → Exec Session ℕ
asked_size size s = (ok (read_size size s.reader), s)

unfoldable pub pull : ℕ → Exec Session (Option Bytes)
pull n s =
    let (reply, source) = source_read n s.reader.source in
    (
      reply,
      record s {
        reader = record {
          source = source;
          limit = s.reader.limit;
          count = s.reader.count;
          total = s.reader.total;
        };
      },
    )

-- `not isinstance(data, bytes) or len(data) > size`
unfoldable pub received : ℕ → Option Bytes → Result Bytes
received n none = err os_error
received n (some d) = if ltb n (length d) then err os_error else ok d

unfoldable pub add_count : ℕ → Exec Session (Unit {0})
add_count n = modify (λ s. record s {
  reader = record {
    source = s.reader.source;
    limit = s.reader.limit;
    count = s.reader.count + n;
    total = s.reader.total;
  };
})

unfoldable pub within_limit : Exec Session (Unit {0})
within_limit s = if ltb s.reader.limit s.reader.count then (err size_limit_error, s) else (ok tt, s)

-- `_Reader.read`
unfoldable pub reader_read : Option ℕ → Exec Session Bytes
reader_read size = do
  checkpoint
  n ← asked_size size
  reply ← pull n
  got ← lift (received n reply)
  add_count (length got)
  within_limit
  checkpoint
  pure got

-- A `_Reader` as the source of `_read_encrypted_file_header`.
unfoldable pub as_source : BinaryReader Session
as_source n s =
    proceed (λ got s'. (ok (some got), s')) (reader_read (some n) s).0 (reader_read (some n) s).1
