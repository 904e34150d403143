-- ===== src/Lib.antt =====
-- The TuxIO object format: encodings of values, tags, headers and sections, and the files that hold them.
--
-- src/lib.rs states what the encoding traits promise: what a value announces as its size, what its writer appends and what its
-- readers take are one number, and the readers give the value back. Codec holds the traits as records of operations, and
-- `Encodes` states the promise for one value; RoundTrips states it for each implementation.
--
-- Parts, from the bottom up:
--   Prelude, Word      lists by native numbers; little-endian words, two's complement, the 64-bit `usize`
--   Error, Io          the errors of src/lib.rs, a result with panics as a third outcome; `Read` and `Cursor`
--   Codec              the traits TuxIOType, WritableObjectType, ReadableObjectType, TypedObjectType of src/lib.rs
--   Types              src/types.rs, src/types/num.rs, src/types/alloc.rs, src/types/time.rs,
--                      src/types/option.rs
--   Compression        src/compression_types.rs and its types.rs
--   Header             src/header.rs, and the seek helpers of src/lib.rs
--   Value              src/value.rs with what macros/src/value_enum generates for it
--   Map, Tags          src/tags.rs and src/tags/meta_key.rs, over a map as a list of pairs in iteration order;
--                      Map/Encoded is src/types/map.rs
--   Fs                 Layout, Error, Prefix: src/fs/layout.rs, src/fs/error.rs, `encode_prefix` of src/fs/writer.rs
--                      Object: src/fs/reader.rs, and what src/fs/object.rs does with an open file
--                      Disk: the file system, as far as the sources use it
--                      Support, Encoder: src/fs/compression.rs, and the decoding half of src/fs/object.rs
--                      TempFile, Writer: src/fs/writer.rs
--                      Store: opening by path and the atomic updates of src/fs/object.rs
--                      AsyncWriter, AsyncObject, AsyncStore: src/fs/async_io.rs, in the same three parts
--   Examples           the theorems at concrete inputs
--
-- A writer appends to its output, and stands for what it appends. A decoder under the bound `Read` takes bytes off a list; one
-- under `Read + Seek` moves a cursor. An open object is a cursor over its file's bytes, and a read of it returns what is there:
-- reads that are cut short by signals, and other I/O errors of a read, are not modelled. A method that changes the object or its
-- file's position returns the new object.
--
-- A disk is a map from paths to file numbers, the bytes of each file, the next number, and the counter for temporary names.
-- What touches it is an action, which gives a result and the disk it leaves, also when it fails; `?` is the bind of actions,
-- and what Rust drops on the way out is written as `or_drop` and `and_drop`. `System` is a parameter: how paths are taken
-- apart and joined, and which opens, creations, writes, renames, removals, syncs and clones of a handle are refused, and
-- with what error. A write is done in whole or refused, and its refusal stands for that of the seek in front of it and of
-- the flush behind it too; what a refused in-place update leaves in the file is not modelled. `IsTidy` names what the
-- theorems on a disk rely on: a temporary name differs from the destination, and no removal is refused. An async function is
-- its sequence of steps, run to the end: the buffer of an async file, a future that is dropped half way, and two futures or
-- processes that interleave, are not modelled.
--
-- A text is the list of its UTF-8 bytes, a float its bit pattern, a path its bytes. `usize` has 64 bits. Arithmetic that
-- leaves its range panics, as in a build with overflow checks; the layout theorems assume sums below 2 ^ 64, which the sizes
-- of data in memory keep. Loops are recursion on the count that the file or the value gives, so that they need no fuel; the
-- copy of a content has its length as fuel, and the search for a temporary name the 32 attempts of the source. `finish`
-- calls itself through `finish_by_rewriting`; `finish_calls` has the number of nested calls as fuel, and `finish` is
-- `finish_calls` of 2: the second call is that of the replacement, whose layout is computed for the sections that it
-- carries.
--
-- The crate http is a parameter: `HeaderNames` holds a header name's text and its parser, which accepts every name's own text.
-- The crates zstd and flate2 are the parameter `Codecs`: a stream encoder with a state of any type, and a decoder; where a theorem
-- relies on it, `IsFaithful` says that decoding gives back what the encoder took. `Features` says which of them are built in.
-- Not modelled: src/tokio_io.rs and the async halves of the codecs, flushing an encoder in the middle of the content,
-- HashSet as an encoded type, the features uuid, bytes, chrono and get-size2, and the parsing half of the macros.
pub mod Prelude
pub mod Error
pub mod Io
pub mod Word
pub mod Codec
pub mod Types
pub mod Compression
pub mod Header
pub mod Value
pub mod Map
pub mod Tags
pub mod RoundTrips
pub mod Fs
pub mod Examples
