-- ===== src/Lib.antt =====
-- A model of oxihipo, a reader and writer of the HIPO event format.
--
-- The program. A HIPO file is a file header, a run of records and a trailer that lists them. A
-- record has a header of 56 bytes and holds events; an event is a header of 16 bytes and a run of
-- structures (banks); a bank holds the columns of a schema, one behind the other; a dictionary
-- record carries the schemas. The reader parses the file header, builds the event index from the
-- trailer, locates the record of an event, parses the record header and walks over the structures
-- of the event; where the trailer cannot be read, or there is none, it builds the index by a walk over
-- the records. An iterator goes over the records, and a chain over its files. A record's payload is decompressed, brought to little-endian order and cut into events
-- by its index array. The writer fills banks row by row, puts them into events, gathers events into
-- records up to a limit, and closes the file with a trailer that lists the records.
--
-- Which file models which part:
--   Wire/Bytes.antt         src/wire/bytes.rs: words in byte buffers, byte order
--   Wire/Constants/*        src/wire/constants.rs: offsets and masks (Words), enumerations (Tags)
--   Wire/RecordHeader.antt  src/wire/record_header.rs: RecordHeader::parse and write
--   Wire/FileHeader.antt    src/wire/file_header.rs: FileHeader::parse and write
--   Wire/EventIndex.antt    src/wire/event_index.rs: FileEventIndex and locate
--   Schema/Types.antt       src/schema/types.rs: DataType, Schema::from_columns, cell offsets
--   Schema/Index.antt       src/schema/types.rs: SchemaIndex
--   Schema/Dict.antt        src/schema/dict.rs: Dict::try_add and the lookups
--   Event/Structures.antt   src/event/event.rs: StructureHeader, Event, the iterator of structures
--   Event/BankBuilder.antt  src/event/build.rs: BankBuilder
--   Event/Builder.antt      src/event/build.rs: EventBuilder
--   Event/Composite.antt    src/event/composite.rs: CompositeFormat, Composite and its getters
--   Record/Codec.antt       src/compress.rs: decompress and compress_at around the codec libraries
--   Record/Endian.antt      src/wire/endian.rs: the byte swap of a big-endian payload
--   Record/Decode.antt      src/wire/record.rs: decode_record_into, Record and its events
--   Record/Builder.antt     src/write/record.rs: Compression, RecordBuilder, the one-block record
--   Write/Writer.antt       src/write/writer.rs: Writer, from append_raw to finish
--   Read/Filter.antt        src/read/filter.rs: Filter::bind and check
--   Read/Inner.antt         src/read/inner.rs: from_source, the index, and the index of a salvage
--   Read/Iter.antt          src/read/iter.rs: EventIter, the events of a file
--   Read/Chain.antt         src/read/chain.rs: Chain::event and ChainEventIter
--   Read/Located.antt       src/error.rs: at_offset and with_path
--   Read/Occupancy.antt     src/read/occupancy.rs: merge and note
--   Tag.antt                src/tag.rs: TagSet and TagRegistry
--   Prelude/Results.antt    src/error.rs: HipoError, and the outcome of an operation
-- The modules below each of these hold its lemmas; Wire/Fields.antt treats a header as a list of
-- words; Prelude passes on what all share. The modules named Tests apply the results at concrete
-- inputs.
--
-- How the model reads the code. A byte buffer is the list of its bytes, a name the list of its code
-- points, and a word a native number with its wrap written out; signed and floating-point values are
-- bit patterns. A method that changes its receiver returns the new record. Result has a third
-- outcome, panic, for an index out of range, because release builds abort there. `usize` has 64 bits.
--
-- Bounds. The walk over an event and structure_count run on fuel, one round more than the buffer
-- has bytes; each round passes over eight bytes, and too few rounds would show as a panic. The swap of
-- the structures of a big-endian event has the same fuel. The walk over the records of a file and the
-- search for the next record run on one round more than the file has bytes, and each round moves on
-- by four bytes at least. A call of an iterator has a round for each record, or file, and one more; a
-- round uses one up.
--
-- Parameters. The source of a file's bytes is a ReadAt; Serves says that it gives the bytes of a
-- file and IsSource that it answers with bytes or an error. The parse of the split records, the
-- filter's test on them and the bytes of their events are the fields of SplitRecords. The parse of
-- the dictionary record, which reads schema text, is an argument of from_source. The file below the
-- writer is a Disk; Reliable says that a write that succeeds has written its bytes. The writer
-- takes the record builder as a Format, with what it relies on in Describes; the one-block builder
-- is such a Format. IsCalm says that neither of them aborts. The LZ4, gzip and zstd libraries are
-- the fields of Backends, together with the capacity that a recycled buffer has; Lossless says what
-- the code relies on of the libraries: a stream decodes to what was encoded, and LZ4 and gzip
-- expand no further than the bound that the code puts on plausible sizes. zstd may, so IsPlausible,
-- where zstd is used, says of a payload that its stream is within the bound. A file does not change
-- while a call reads it; what a chain writes to its files between calls is any change of their
-- sources.
--
-- Not modelled: by-bank and per-column records, the file header and the dictionary record that the
-- writer puts first, its closures for events and its Drop implementation, schema text, the text
-- form of the tag registry, the floating-point getters of composite banks, what a failed load
-- leaves in its buffers and a failed write in the file, the filter on by-bank and per-column
-- records, the occupancy scan around its tallies, the parallel and the column scans of a chain, how
-- it writes tags in place and the union of its dictionaries, the dictionary record of a file and
-- how a salvage finds it, threads, the typed accessors and the Python bindings.
-- Buffers that are only reused to save allocations are lists.
pub mod Prelude
pub mod Wire
pub mod Event
pub mod Schema
pub mod Read
pub mod Tag
pub mod Record
pub mod Write
