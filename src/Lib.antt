-- ===== src/Lib.antt =====
-- Ryu Rooms: rooms in which a host and a few guests talk to one local model.
--
-- The backend keeps its rooms in SQLite (backend/src/store.rs). Each operation of the store takes the
-- one connection, runs its statements, and releases it; between two operations anyone else may run
-- one. The runtime (backend/src/inference.rs) calls the store, keeps the one generation of each room,
-- and publishes what changed (backend/src/realtime.rs). Texts of the database are sealed by the
-- crypto crate (crates/core/crypto), which the store sees as a pair of functions. The same crate seals
-- files and append-only logs under the keys of the same ciphers.
--
-- Which file models what:
--   Prelude, Result, Text, Table: tests on numbers, the result type, the operations of Rust's `str`
--     that the sources use, and SQL on tables as lists of rows in the order of insertion.
--   Limits: backend/src/limits.rs, its constants and validators.
--   Model: backend/src/model.rs, and the parse functions at the end of backend/src/store.rs.
--   Seal: what the store takes of the crypto crate; Seal/StoreSeal:
--     crates/core/crypto/src/plugin_keys/store_seal.rs, which provides it.
--   Bytes: byte strings, big-endian numbers, and the UTF-8 form of a text with `String::from_utf8`.
--   Content: crates/core/crypto/src/content.rs. Context: the associated data of a place. Keys: the keys
--     of a store, its retired roots and its sub-ciphers. Envelope: sealing and opening of texts and
--     bytes; Envelope/ForStore puts a cipher under Seal/StoreSeal.
--   SealedLog: crates/core/crypto/src/sealed_log.rs, the scan and what reads by it; Writer: creating,
--     appending and opening to append; Compacting: a log into a sealed file. Steps, Written and Reading
--     follow a scan over what a writer wrote; RoundTrip, Recovery, Counting and Ending state what holds.
--   SealedFile: crates/core/crypto/src/sealed_file.rs, the writer; Reader: opening and ranges. Pieces and
--     Joins are about the writer; Layout, Written, Loading, Chunks, Ranges, Opening and Reopening lead to
--     RoundTrip.
--   Custody: crates/core/crypto/src/custody.rs with the key files and the ladder of
--     crates/core/crypto/src/lib.rs, over a folder and a keychain as one state. Ladder:
--     `load_master_key_guarded`. Vault: the retired keys. Resolve: `candidates` and `resolve`. Keeping and
--     Giving carry a predicate on the folder, or on the result, through the steps of a run.
--   Store: the tables, the errors, and the action `Exec`, which returns the store beside its result.
--     Ids: ids, times, sealing of single values. Read: `snapshot`. Rooms: `create_room` and the other
--     readers. Invites: `exchange_invite`, `issue_invite`, `revoke_invite`, `resolve_session`. Turns:
--     `append_user_turn`. Runs: `append_delta`, `finish_run`, `stop_run`. Closing: `close_room` and
--     `recover_running`. A method that takes the connection twice is two actions: `create_rows`,
--     `accept_turn`, `admit` and `settle` are the transactions of `create_room`, `append_user_turn`,
--     `exchange_invite` and `finish_run`. Effect, Admission, Rotation, Stopping and Extending say what
--     each does to the database; Consistent and its children state the invariant and that each action
--     keeps it; Lifecycle is the relation of any sequence of these actions.
--   Runtime: `RoomRuntime` and its operations; Runtime/Generating: the loop of `run_generation`, one
--     step for each thing that its `select!` gives. Runtime/Follows and Runtime/Moves connect the
--     runtime to the lifecycle of the store; Runtime/Guards and Runtime/Wired are about its map and
--     the channels of its tasks, Quiet
--     about a task whose run is over, Partial about the text that it streams.
--   Examples: a concrete world, with the theorems at concrete values.
--
-- Parameters: SHA-256, chrono's printing and parsing of times, `Url::parse`, and the sealing are the
-- fields of `External`; what one call draws (clock, uuids, nonces) is a `Draw`. A time is a number of
-- nanoseconds. The laws that the theorems need of them are hypotheses: that a sealed text opens in its
-- context (`IsFaithful`; for the store's seal it comes from the cipher's law, `IsCipher`), and
-- that one printed time parses back. The crates under crates/core/crypto (hkdf, hmac, sha2, hex,
-- chacha20poly1305, base64, rand) are the fields of `Primitives`, with their laws in `IsLawful`; that a
-- ciphertext is hard to forge is not among them. The keychain of the system, the probe of a key against
-- sealed data, the evidence of sealed data, the fresh key and which writes succeed are fields of
-- `CustodyInputs`. A key stands for the AEAD that is made from it, a file
-- is its bytes, and an error of anyhow is a `ContentSealError` or a message without its numbers.
--
-- Bounds: three loops of the crypto crate run on fuel: the scan of a log, with one more than the length
-- of the file, since a record takes bytes; `write_plain`, with one more than the bytes, since a round
-- takes one; and `read_range`, with one more than the length of the range. The count of records takes
-- the length of the file. Running out is the error `out_of_fuel`, which the code does not have. Lengths
-- and indices are written in 4 or 8 bytes as the code writes them. Nothing else runs on fuel. Tables, messages and deltas are lists and strings, over which the
-- functions are structural; the counters are natural numbers, since the sources only compare them with
-- the constants of backend/src/limits.rs.
--
-- Not modelled: SQLite itself, its file and the migration of columns, a poisoned lock, a table that is
-- not of the declared types, tokio's broadcast channels behind the event hub (the runtime keeps the log
-- of what it publishes), the HTTP surface, the file system under the sealed files and logs (syncing,
-- renaming, modes, and two processes at one key file at the same time), the commands that adopt, retire,
-- import and export master keys, the derived keys of other processes and the sealed SQL of the crypto
-- crate, the host's sidecar runtime, and the user interface.
pub mod Bytes
pub mod Prelude
pub mod Result
pub mod Text
pub mod Limits
pub mod Model
pub mod Seal
pub mod Content
pub mod Custody
pub mod SealedFile
pub mod SealedLog
pub mod Table
pub mod Store
pub mod Runtime
pub mod Examples
