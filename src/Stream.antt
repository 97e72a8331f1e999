-- ===== src/Stream.antt =====
-- crypto_stream.py: bounded reading, complete writing and the payload loops, over sources, sinks
-- and callers that an environment drives. What a read or a write does is a script of replies, and
-- `cancelled` a schedule of answers, so short reads, short writes, bad replies and cancellation at
-- any checkpoint are all runs of the model. Once a script is used up, reads and writes are whole
-- and nothing is cancelled, which is also the caller that passes no `cancelled`.
pub mod Files
pub mod Reader
pub mod Writer
pub mod Written
pub mod Suite
pub mod Payload
pub mod Untouched
pub mod Release
pub mod Taken
pub mod Consumed
pub mod Processed
pub mod Authentic
pub mod Examples
