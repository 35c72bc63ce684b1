-- ===== src/Lib.antt =====
-- The runtime of Cap'n Proto for Rust: how messages are framed, packed, kept in segments and read.
--
-- A message is a list of segments of eight-byte words. src/serialize.rs puts a table of their lengths
-- in front of them and writes them to a stream; src/serialize_packed.rs does the same through a
-- stream that leaves out zero bytes. src/private/arena.rs keeps the segments, hands out words of a
-- message that is being built, and limits how many words a reader may traverse. src/message.rs has the
-- allocators behind it and the root of a message. src/private/layout.rs reads structs and lists, which
-- pointers in the words describe, without trusting them.
--
-- The files, and what they model:
-- Base: tests on native numbers, lists, and `Outcome`, which is `Result` with what else a Rust program
--   can do: panic, access memory out of bounds, or (of the model only) run out of fuel.
-- Words: `Word` of src/lib.rs as eight bytes, and words as bytes and back.
-- Io: `BufRead` as the list of the buffers that it will show, and `read_exact` of src/util.rs.
-- Packed: src/serialize_packed.rs. Write and Read follow `PackedWrite::write` and `PackedRead::read`
--   statement by statement. Format and Decoding are the independent descriptions: the encoding of a list of
--   words, and a decoder of a flat list of bytes. Encoding is what the writer does without its buffer.
-- Serialize: src/serialize.rs, over any reader and writer. Channel is the interface that the plain and
--   the packed streams fill, so that one proof serves both.
-- Arena: src/private/arena.rs. Builder has `BuilderArena`, Reader has `ReaderArena`, whose cache is an
--   association list. The limit, which Rust shares through a `Cell`, is a state that is passed on.
-- Message: src/message.rs, the options, both allocators and `get_root_internal`; Access has the typed
--   access to the root of a reader and of a builder.
-- Layout: src/private/layout.rs. Pointer has `WirePointer` and its fields, Memory the state of a run of
--   the reading functions, Reading `follow_fars`, `read_struct_pointer` and `read_list_pointer`, Size
--   `total_size`, Readers the readers' fields. Texts has text and data (src/text.rs, src/data.rs).
--   Contract says how the promises of parts of a run make that of the whole. Memory itself is a
--   function from addresses to bytes.
-- Layout.Building: the functions of src/private/layout.rs that write. A run passes on the arena, the
--   memory and the state of the message that is copied from. Objects has `allocate`, `zero_object`,
--   `follow_builder_fars` and `transfer_pointer`, Structs, ListPointers, StructLists and Blobs the
--   pointers to structs, lists, and text and data, Copying `set_struct_pointer`, `set_list_pointer` and
--   `copy_pointer`. Leads says when a pointer leads to an object, directly or through a far pointer,
--   SetUp, Finds and Found are about how `allocate` makes it do so, Stands and Unused about where the
--   object lies. Readable is the view of a reader of the segments that the message is written out as,
--   which are those of `get_segments_for_output`.
-- Layout.Builders: `StructBuilder`, `ListBuilder`, `PointerBuilder` and the elements of lists.
-- Lists: the typed lists (src/primitive_list.rs, src/enum_list.rs, src/struct_list.rs, src/list_list.rs,
--   src/text_list.rs, src/data_list.rs) and `ListIter` of src/traits.rs.
-- AnyPointer: src/any_pointer.rs, with the operations of a pipeline of src/private/capability.rs.
--
-- Numbers are natural numbers, with the wrap-around of `u32`, `u64` and `usize` (64 bits) written out
-- where the source can reach it. Products of a count and a size that the source widens first are left
-- as they are. Loops run on fuel only in `read_exact` (a byte a round), `PackedWrite::write` (a word
-- a round), `PackedRead::read` (two rounds a word) and going through a `ListIter` (a round for each
-- element and one more); the theorems on them show that the fuel given is enough. `total_size` and
-- `copy_pointer` are by recursion on the nesting limit. `zero_object`, which
-- the code lets recurse as deep as the old object goes, runs on fuel too; it is called only where a
-- pointer that is not null is overwritten. All other loops run on what they count.
--
-- Parameters: the allocator and `malloc`, the buffers in which a stream arrives, the table of segments
-- of a message, the bytes of memory, whether bytes are UTF-8, what a type of generated code does with a
-- pointer, and capabilities. Sources do not fail and are not interrupted.
--
-- Not modelled: the promises and hooks of src/capability.rs, which belong to the RPC layer, the null
-- arena of a detached reader, the formatting of errors, and what the compiler generates.
pub mod Base
pub mod Words
pub mod Io
pub mod Packed
pub mod Serialize
pub mod Arena
pub mod Message
pub mod Layout
pub mod Lists
pub mod AnyPointer
