-- ===== src/Lib.antt =====
-- Mari Paint: the model of its core and of its recording pipeline, and what is proved of them.
--
-- The program is a painting application whose strokes are evidence: each point of a stroke becomes a
-- frame with its origin, goes to a journal on disk, and from there to another process.
--
-- Core, the canvas (include/mari/core, core/src).
--   Core/Errors is result.hpp: Result<T> is a value or an error code.
--   Core/Origin is origin.hpp: the origin codes as bytes, AgentId, StrokeSource, StrokeOriginStats;
--     Core/Origin/Totals counts strokes with it.
--   Core/Tile is tile.cpp: a map from coordinates to tiles, as an association list, with `at`,
--     `writable`, `erase` and `clear`. There a tile is its pixels. Core/Tile/Sharing has the buffers
--     of BufferTile with their reference counts: mutablePixels copies a buffer that is shared.
--     Core/Tile/Region has bounds and collectTiles: its loops have the number of columns and of rows
--     as fuel.
--   Core/Geometry is the Rect of types.hpp with tileIndexFor, over the values of int32_t.
--   Core/Undo is undo.cpp: TileSnapshotCommand with captureBefore, captureAfter and restore, and
--     Core/Undo/Stack is UndoStack over any command. Its trimming loop has the length of the list as
--     fuel, since each round erases one command.
--   Core/Layers is layer.cpp: the layer tree. A layer object is named by its id, `objects` is the heap,
--     `index` and `parents` are index_ and parents_. The recursion over a subtree and the loop of
--     isDescendant (which has no answer when its fuel runs out) have one more than the next id as fuel: the steps from a layer to the root meet
--     different ids (Core/Layers/Depth). Sound is the invariant, Add, Move and Remove keep it, and
--     Reached has the trees that the interface's calls lead to.
-- Crypto is include/mari/crypto and crypto/src.
--   Crypto/Sha256 is sha256.cpp: the compression, the object that takes a message in parts, the hash
--     of a file. The loop over whole blocks has the number of bytes as fuel. Standard is FIPS 180-4,
--     written apart from the code; Compression, Padding and Refinement compare the two.
-- Io, files (include/mari/io, io).
--   Io/Tar is io/brush/src/tar.cpp: readTar over the bytes of an archive. Each round of its loop takes
--     a block, so the number of blocks and one more is enough fuel. Io/Reader is byte_reader.hpp.
-- Sigan, the recording pipeline (include/mari/sigan, sigan/src).
--   Sigan/Wire and Sigan/Frame are frame.cpp: encodeFrame, decodeFrame, narrowId, crc32. A float is
--     its bit pattern.
--   Sigan/Journal is journal.cpp: Records has the layout of a record, Writer the operations of the
--     writing side over a stream of the C library (the record Disk: how much of a write is taken,
--     whether a flush works, and how much of the file can be read again), Scan the reader, with the length of the file as fuel, since each
--     round takes at least nine bytes. Gaps is seqGaps, whose inner loop has one round more than its
--     limit as fuel.
--   Sigan/Handshake is handshake.cpp: the negotiation, in Text the readers of JSON over the rest of the
--     text, and in Fields the encoding and decoding. Each round of a reader's loop takes a byte (the loop of decodeHandshake
--     has no result when its fuel runs out), and
--     the recursion of skipValue has twice the bytes as fuel.
--   Sigan/Sink is the interface ISiganSink, with the promises of its comments as laws.
--   Sigan/Publisher is publisher.cpp: State has the fields of SiganPublisher and the frame that
--     publish makes, Steps its operations, Run a session: any calls of the owner in any order. The
--     clock's readings and the conversion to milliseconds in floating point are arguments.
--     Recovered joins it with the recovery of a journal, Totals its counts with those of the log.
--   Sigan/Prooflog is prooflog.cpp: the strokes of a journal's frames, and their counts by origin.
-- Record, the wiring (include/mari/record, record/src, include/mari/agent/recording.hpp).
--   Record/Recorder is SiganRecorder, over the publisher: points, ends of strokes, operations on regions
--     as pairs of frames. The conversion of an integer to float is a parameter. Calls has any calls
--     in any order. Record/Factory is SiganRecorderFactory over handles of recorders: the file system
--     and the opening of a recorder are arguments. Record/Tally is RecordingTally.
-- App, the application (include/mari/app, app/src).
--   App/Events is events.cpp: Event has AppEvent and what the fire functions put into it, Subscriber
--     the queue and the worker of one subscriber, a function for each critical section, so that an
--     interleaving of threads is a sequence of these, and Hub the bus. A dispatch is its section under
--     the lock, and then its calls of listeners and its offers, each a step that those of other
--     threads may stand before.
-- Examples applies the theorems at concrete inputs.
--
-- Counters have 64 bits and wrap around, except where a theorem bounds the length of a run.
--
-- Not modelled: selections and documents; floating-point rasterisation (stroke); the file formats
-- (io) but tar and the reader of bytes; the JSON interface (agent, cli, mcp); the plug-in hosts and
-- the platform code, which are input and output; of the modelled files the names for logs, the text
-- of the process log (buildProofLog), which prints floating-point numbers, the cache of blank
-- tiles and the snapshot of a map of tiles, the opacity, the blend mode and the flattening of
-- layers, and the duplication of a layer.
pub mod Io
pub mod Prelude
pub mod Core
pub mod Crypto
pub mod Sigan
pub mod App
pub mod Record
pub mod Examples
