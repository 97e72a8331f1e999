-- ===== src/Lib.antt =====
-- Quantum Encryptor: a verification library for the Python code at the root of the repository.
--
-- Config holds the constants of crypto_config.py under their names in lower case. Failure and Exec
-- give exceptions as values and methods that change an object and may raise. Prelude has the shared
-- names, lists and bytes; Prelude/Utf8 is Python's strict UTF-8 codec.
--
-- Algorithms and Container model crypto_core.py: the algorithm identifiers, the reader of an
-- encrypted-file header over any binary source, and the parser of a container in memory.
-- Container/Source is the protocol `_BinaryReader` with what the code may expect of a source.
-- Container/Format states the byte layout apart from the code. The loop of `read_exact` runs on fuel,
-- one round for each byte asked for; a round takes at least a byte, so a steady source never runs out.
--
-- Worker models api_worker.py: the leases of one crypto worker as a heap of lease objects, its
-- operations as steps, and the futures of the executor, which the environment completes in any order.
--
-- Backend is what is used of `cryptography` and liboqs: hashes, X25519, KEMs and AES-GCM contexts are
-- parameters, and the laws that theorems rely on are records beside them. Keys models the raw key
-- material of crypto_core.py, Kem the choice of a KEM and the derivation of content keys.
--
-- Stream models crypto_stream.py. A source, a sink and the caller's `cancelled` are scripts, so short
-- reads and writes, bad replies and a cancellation at any checkpoint are all runs. Stream/Files and
-- Stream/Reader have the files and `_Reader`, Stream/Writer `_write_all`, Stream/Suite the header and
-- the keys, Stream/Payload the loops and `encrypt_stream`, `inspect_stream`, `verify_stream` and
-- `decrypt_stream`. `_write_all` has a round for each byte and a payload loop one for each byte left
-- and one more; a round takes at least a byte.
--
-- Fingerprint models the fingerprints of public keys and their check in crypto_core.py, Encryption
-- models encrypt_file_pro, decrypt_file_pro and the generation of keys of crypto_core.py.
--
-- PrivateKey models the password policy and the encryption of private keys of crypto_core.py. The KDF
-- and the Unicode tables behind `password.lower().split()` are parameters.
--
-- Pem models the PEM key files of crypto_core.py: the strict parser, whose loop over the lines fills in
-- the record `Lines`, its metadata lines in Pem/Metadata, and writing, loading, inspection, recovery
-- and change of a password in Pem/Files. Texts are ASCII; a round of `chunks` takes a line of base64,
-- so a round for each character is enough. Prelude/Strings has the methods of `str` that are used, and
-- Prelude/Base64 the codec.
--
-- Jobs models api_jobs.py: the store of the one large-file job as a heap of job objects over the worker
-- of api_worker.py, and `_process` over Pem and Stream. A coroutine is cut at its `await`s into
-- operations, which Jobs/Step puts in any order: Jobs/Upload has the parts of `upload`, Jobs/Execute
-- `start` and `_execute` with what the thread assigns, Jobs/Download the parts of `download`, `reap` and
-- `close`. Writing one chunk to the input file is one operation. Jobs/Harmless, Jobs/Effects and
-- Jobs/Local carry a relation through every operation, Jobs/Touches and Jobs/Fades are two such.
--
-- Api models the middleware of api_app.py that decides which requests reach the API: the port and the
-- authorities, the guard of requests that change state in Api/Guard and the limits on bodies in
-- Api/Limits. Api/Headers has the headers that SecurityHeadersMiddleware sets and the fallback names of
-- downloads. `urlsplit` and the parser of cookies are parameters.
--
-- Not modelled: the rest of the web API, archives, the agent tools and the
-- scripts. Texts of exceptions and log lines are left out everywhere.
pub mod Prelude
pub mod Failure
pub mod Exec
pub mod Config
pub mod Algorithms
pub mod Container
pub mod Worker
pub mod Backend
pub mod Keys
pub mod Kem
pub mod Stream
pub mod Encryption
pub mod Fingerprint
pub mod PrivateKey
pub mod Pem
pub mod Jobs
pub mod Api
