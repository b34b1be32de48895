-- ===== src/Lib.antt =====
-- A verification library for botjim, a file transfer tool: one Go process sends a tree of files
-- to another, directly or through a relay, in chunks that can be resumed.
--
-- The parts and their files. Paths are from the repository's root.
--
-- - internal/protocol/protocol.go, the bytes on a connection: Wire/Encoder is the `enc` buffer,
--   Wire/Decoder the `dec` cursor with its sticky error, Wire/Varint encoding/binary's varints,
--   Wire/Words the little-endian words, Wire/Crc the checksum, Wire/Stream a buffered reader.
--   Protocol/Handshake is MarshalHandshake (`marshal_handshake`) and ReadHandshake
--   (`read_handshake`), Protocol/Ctrl is CtrlStream with Send (`send`) and Recv (`recv`),
--   Protocol/Control the message types.
-- - internal/protocol/messages.go: Protocol/Messages, Protocol/Init and Protocol/Entry have a
--   record per message, `encode_<message>` for its Encode and `decode_<message>` for its Decode;
--   the decoder's body stands in a `do` block under the message's name.
-- - internal/protocol/data.go: Protocol/Data has `data_hello`, `accept_data_stream`, WriteChunk,
--   ReadChunk, ChunkSum and WriteChunkSummed, and the trailer check of
--   internal/engine/receiver.go.
-- - internal/chunking/chunking.go: Chunking, with the names of the source.
-- - internal/manifest/manifest.go: Manifest has the entry, Manifest/Roots RelBase and
--   commonAncestor; the walk of the file system is left out, but for its exclusion patterns
--   (Paths).
-- - internal/sidecar/sidecar.go: Sidecar has the resume metadata and each operation on it, under
--   the source's name, and Sidecar/Names the names of the files.
-- - internal/relay/swarm_picker.go: Relay/Picker, over the sets and counts of Relay/TaskSet, has
--   newPicker (`new_picker`), pick, complete and fail; Relay/Accounting, Runs, Progress and
--   Rarest prove. internal/relay/spool.go: Relay/Spool has a round of the loops of Write
--   (`write_round`) and Read (`read_round`); Relay/SpoolFifo, SpoolRead and SpoolLimit prove.
-- - internal/fsutil/fsutil.go: Paths has RelOK (`rel_ok`).
-- - internal/engine/receiver.go: Engine/Disk has the bytes of a file, Engine/RxFile rxFile with
--   absorbChunk (`absorb_chunk`) and its retries, Engine/Ending commitFile, claimResult, finalize
--   and the flush of the sidecar, Engine/Opening what a file starts with: adoptFinalAsPart, hashInto,
--   rehashPart and the end of prepareRegular. internal/engine/sender.go: Engine/TxFile has
--   verifyClaims, the answer of gateOpen and sendChunk; Engine/Limiter is
--   internal/engine/limiter.go. Engine/Table is the invariant of the
--   chunk table; Engine/Loops, TableSteps, Sound, Absorb, Verdict and Closing carry it through
--   the handlers, Adoption, Recheck and Resumption through the start; Claims and Answers are
--   about the sender's judgement, Frames and Sending about its frames. Engine/Delivery has the
--   events of a file and their sequences (`step`, `run`); Arrival, Progress, Fresh, Journey and
--   Outcome are about sequences.
-- - internal/engine/sender.go, the table of files: Sender has the state (txFile, Sender), Sender/Handlers
--   the walk's callback (`emit`, `take_credit`) and gateOpen (`gate_open`), Sender/Outcomes
--   fileResult, failFile, retryChunk, the chunk requests and taskDone, Sender/Scheduler a pass of
--   runScheduler (`schedule`) and a worker's round (`work`), Sender/Steps the switch of readCtrl
--   and the steps of all goroutines of Run in any order (`step`, `run`), Sender/Batches
--   appendBatch and flushBatch. Sender/Ids, Lookup and Files are about sets, lookups and single
--   files; Credits, CreditSteps, CreditEnds, CreditRetries, CreditRun and Ceiling about the
--   walker's credits; Resolution, ResolutionSteps, ResolutionEnds, ResolutionWork and Completion
--   about outcomes; Feeding, Quiet, QuietEnds, Queue, Bitmaps and Scheduled about the scheduler's
--   queue; ManifestSent about the batches.
-- - internal/compress/compress.go: Compress has both codecs.
-- - internal/audit/audit.go: Audit has the hash chain of the journal, with Open (`resume`),
--   Append and Verify.
--
-- How the parts meet: the sender walks its files into entries, whose chunk size comes from
-- Chunking, and sends them as manifest batches in control frames; the receiver keeps a sidecar
-- per part file, answers with its bitmap, and takes chunk frames from the data streams. Each
-- relative path in a manifest goes through RelOK. What a file already holds the receiver offers as
-- claims, a bitmap with a hash per chunk; the sender compares them with its source and answers
-- Commit or ClaimResult, and a complete file goes to the finalizer only then. A relay holds what it forwards in a spool per
-- direction, and a swarm joiner asks its picker which chunk to fetch next.
--
-- Conventions. A byte is a number below 256, a Go string or slice the list of its bytes. A uintN
-- field is a number, and a predicate `Is<Message>` says that it fits. An int64 is an integer,
-- and the places where the source's arithmetic wraps around go through `wrap64` or the `to_`
-- functions. A reader on a stream takes the bytes that will ever arrive, so a stream that ends
-- early is an error value and not a wait. Every recursion is on a list, on a count that the
-- source checked, on the ten bytes that a varint may take or on the eight bits of a byte, so no
-- fuel is chosen.
--
-- A handler of the engine is one step on the file that it works on: the interleaving of steps is
-- in the order of the events, that of two handlers within a step is not modelled. A failing write
-- is a number of bytes after which it fails, and any of fsync, close and rename may fail. The
-- source does not change while it is sent. A handler of the sender is one step on its whole table,
-- although gateOpen gives up the mutex while it verifies claims. The walker's wait for a credit is a step that
-- any others may come before. The scheduler's pass gets the number of tasks that the channel takes
-- before a send finds it full, which is all that it learns of the workers. A worker's frame goes out, or its
-- write fails, or the context ends first (`Fate`); what a failed write leaves on the stream is not
-- modelled. The counts of entries do not wrap
-- around, as nobody sends 2^64 entries; those of bytes do. After Cancel or Done the reader stops, which is a
-- sequence of steps that ends there.
--
-- Parameters. The zstd and lz4 libraries are arguments of the codecs; that they decode what they
-- encode is a hypothesis, for zstd of chunks within the limit that the decoder is given, for lz4 of
-- blocks that are not empty. crypto/sha256 is an argument of the definitions that use it, with no hypothesis:
-- the theorem exhibits a collision where it must. path.Match, filepath.Clean and filepath.Dir
-- are arguments too, and so is the order in which Go ranges over a map, with the hypothesis that
-- it visits the keys and no others, and for the audit log the digest and the decimal form of a
-- number. A Boolean argument of a spool's round says whether the disk works.
--
-- Not modelled: JSON, files and clocks, goroutines and locks, the transfer engine's
-- other loops and the session, the relay's connections and cryptography, the command line and the user
-- interfaces.
pub mod Prelude
pub mod Wire
pub mod Chunking
pub mod Manifest
pub mod Protocol
pub mod Sidecar
pub mod Relay
pub mod Paths
pub mod Audit
pub mod Compress
pub mod Engine
pub mod Sender
