-- ===== src/Stream/Writer.antt =====
-- `_write_all` of crypto_stream.py.
use quantum_encryptor.Prelude.{
  ℕ, zero, suc, ◌&&◌, Option, none, some, [], ◌∷◌, Bytes, length, drop, ltb, leb, if◌then◌else◌,
}
use quantum_encryptor.Failure.{Result, ok, err, os_error, out_of_fuel}
use quantum_encryptor.Exec.{Exec, pure, raise, lift, ◌>>=◌, ◌>>◌}
use quantum_encryptor.Stream.Files.{Sink, Session, sink_write, checkpoint}

-- The sink of the caller, or the temporary snapshot of the ciphertext.
pub data Target : Type 0 where
  to_sink to_snapshot : Target

abbrev pub file : Target → Session → Sink
file to_sink s = s.sink
file to_snapshot s = s.snapshot

abbrev pub with_file : Target → Sink → Session → Session
with_file to_sink f s = record s { sink = f }
with_file to_snapshot f s = record s { snapshot = f }

unfoldable pub push : Target → Bytes → Exec Session (Option ℕ)
push t d s = let (count, f) = sink_write d (file t s) in (ok count, with_file t f s)

-- `not isinstance(written, int) or written <= 0 or written > len(remaining)`
unfoldable pub accepted : ℕ → Option ℕ → Result ℕ
accepted n none = err os_error
accepted n (some k) = if ltb 0 k && leb k n then ok k else err os_error

unfoldable pub write_loop : Target → ℕ → Bytes → Exec Session (Unit {0})
write_loop t fuel [] = pure tt
write_loop t zero (b ∷ bs) = raise out_of_fuel
write_loop t (suc fuel) (b ∷ bs) = do
  checkpoint
  count ← push t (b ∷ bs)
  k ← lift (accepted (length (b ∷ bs)) count)
  write_loop t fuel (drop k (b ∷ bs))

-- A write that is accepted takes at least a byte, so `len(data)` rounds are enough.
unfoldable pub write_all : Target → Bytes → Exec Session (Unit {0})
write_all t d = write_loop t (length d) d
