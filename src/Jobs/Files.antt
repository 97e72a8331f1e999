-- ===== src/Jobs/Files.antt =====
-- api_jobs.py: the temporary files of a job.
use quantum_encryptor.Prelude.{
  min, ℕ, zero, suc, ◌+◌, Bool, false, Option, none, some, [], ◌∷◌, Bytes, length, take, drop,
  is_empty, if◌then◌else◌,
}
use quantum_encryptor.Config.{stream_chunk_bytes}
use quantum_encryptor.Failure.{ok, out_of_fuel}
use quantum_encryptor.Exec.{Exec, raise, pure, lift, ◌>>=◌, ◌>>◌}
use quantum_encryptor.Stream.Files.{Sink, sink_write}
use quantum_encryptor.Stream.Writer.{accepted}

-- What was written to it, where it is read next, and whether its `close` raises an `OSError`.
pub record TemporaryFile : Type 0 where
  pub sink : Sink
  pub position : ℕ
  pub close_raises : Bool

unfoldable pub file_write : Bytes → Exec TemporaryFile (Option ℕ)
file_write d f = let (count, sink) = sink_write d f.sink in (ok count, record f { sink = sink })

unfoldable pub file_loop : ℕ → Bytes → Exec TemporaryFile (Unit {0})
file_loop fuel [] = pure tt
file_loop zero (b ∷ bs) = raise out_of_fuel
file_loop (suc fuel) (b ∷ bs) = do
  count ← file_write (b ∷ bs)
  k ← lift (accepted (length (b ∷ bs)) count)
  file_loop fuel (drop k (b ∷ bs))

-- `write_all`: a write that is accepted takes at least a byte.
unfoldable pub write_file : Bytes → Exec TemporaryFile (Unit {0})
write_file d = file_loop (length d) d

-- A chunk of an upload in pieces of at most `STREAM_CHUNK_BYTES`, with a round for each byte.
unfoldable pub write_pieces : ℕ → Bytes → Exec TemporaryFile (Unit {0})
write_pieces zero d = pure tt
write_pieces (suc fuel) d =
    if is_empty d
    then pure tt
    else (write_file (take stream_chunk_bytes d) >> write_pieces fuel (drop stream_chunk_bytes d))

-- `file.seek(0)` and `file.read(STREAM_CHUNK_BYTES)`. The file is not buffered, so a read may be
-- short: it gives at most `short + 1` bytes, and one at least before the end.
unfoldable pub rewind : TemporaryFile → TemporaryFile
rewind f = record f { position = 0 }

unfoldable pub read_chunk : ℕ → TemporaryFile → Bytes × TemporaryFile
read_chunk short f =
    let got = take (min stream_chunk_bytes (short + 1)) (drop f.position f.sink.written) in
    (got, record f { position = f.position + length got })

-- What an output holds, which is nothing before it is opened.
unfoldable pub content_of : Option TemporaryFile → Bytes
content_of none = []
content_of (some f) = f.sink.written

-- Whether closing raises; there may be no file.
unfoldable pub raises : Option TemporaryFile → Bool
raises none = false
raises (some f) = f.close_raises
