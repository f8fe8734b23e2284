-- ===== src/Read/FileTests.antt =====
-- The index, the iterator and the random access at a concrete file of two records.
use mathlib.Core.List.{append-nil}
use mathlib.Core.Path.{subst}
use oxihipo.Prelude.{
  ℕ, ◌+◌, ◌-◌, ◌*◌, ◌≤◌, ◌≡◌, ◌≢◌, inl, refl, sym, ap, ◌∙◌, arith, true, false, List, [], ◌∷◌, ◌++◌,
  map, Option, none, some, replicate, length, take, drop, take-append-drop, All, All-take, All-drop,
  Bytes, Result, ok, err, panic, io, ok-injective,
}
use oxihipo.Wire.Bytes.{
  IsByte, copy_at, slice, le_value, le_bytes, be_bytes, swap_bytes, read_le, write_le,
}
use oxihipo.Wire.Bytes.Laws.{slice-append, slice_total}
use oxihipo.Wire.Fields.{read_word}
use oxihipo.Wire.Constants.Tags.{Codec, Layout, codec, for_pair, tag, from_tag, from_word}
use oxihipo.Wire.RecordHeader
use oxihipo.Wire.RecordHeader.{RecordHeader, from_words}
use oxihipo.Wire.FileHeader.{FileHeader}
use oxihipo.Wire.EventIndex.{FileEventIndex}
use oxihipo.Wire.EventIndex
use oxihipo.Wire.Bytes.{little}
use oxihipo.Schema.Dict
use oxihipo.Schema.Dict.{Dict}
use oxihipo.Record.Codec.{Backends, Lossless, compress, compress_at, deflate}
use oxihipo.Record.Builder.{
  Compression, build_payload, write_index, block_header, block_bit_info,
  build_single_block_record_bytes, pair,
}
use oxihipo.Write.Writer.{WriterOptions, WriteSummary, IndexEntry, trailer_rows, trailer_event}
use oxihipo.Write.Writer.Tracks.{Item, Written, bytes_of}
use oxihipo.Write.Writer.Finish.{Finished, Pieces, patched}
use oxihipo.Write.Writer.Block.{block_format}
use oxihipo.Write.Writer.Trailer.{find-trailer_event, index_header}
use oxihipo.Event.Structures.{find}
use oxihipo.Read.Inner.{
  ReadAt, Serves, IsSource, build_index, build_index_from_trailer, build_index_by_scanning,
  salvage_index,
}
use oxihipo.Read.Inner.Framed.{IsBounded}
use oxihipo.Read.Inner.Sound.{AllSmall}
use oxihipo.Read.Inner.Scan.{index_items}
use oxihipo.Read.Inner.Rows.{length-trailer_rows}
use oxihipo.Read.Inner.Whole.{
  build_index-Finished, build_index_from_trailer-scanning, build_index_by_scanning-cut,
}
use oxihipo.Read.Inner.Salvage.{salvage_index-Finished}
use oxihipo.Read.Inner.Total.{build_index_by_scanning-ne-panic}
use oxihipo.Read.Iter
use oxihipo.Read.Iter.{FileInner, SplitRecords, OwnedEvent, EventIter, CurrentRecord, event_bytes}
use oxihipo.Read.Iter.Load.{slice_inside}
use oxihipo.Read.Iter.Stream.{Yields}
use oxihipo.Read.Iter.Written.{file_of, new-Yields_all}
use oxihipo.Read.Chain.{Chain, RecordCache, events, event, from_inners}
use oxihipo.Read.Chain.Cache.{IsTrue, with_cache, answer, event-with_cache}
use oxihipo.Read.Chain.Stale.{rewritten, event_stale}
use oxihipo.Read.Chain.Stream.{FilesYield, ChainYields, flat, events-ChainYields}
use oxihipo.Read.Chain.Access.{event-Finished}

-- Codecs that store their input.
abbrev pub identity : Backends
identity = record {
  lz4_decompress = λ src limit. some src;
  lz4_compress = λ hc src. some src;
  gzip_decode = λ src limit. some src;
  gzip_encode = λ src. some src;
  zstd_decode = λ src limit. some src;
  zstd_encode = λ level src. some src;
  capacity = λ src expected. 0;
}

abbrev some_length : Option Bytes → ℕ
some_length none = 0
some_length (some x) = length x

bounded : (src out : Bytes) → some src ≡ some out → length src ≤ length out * 1056 + 65536
bounded src out e = omega (arith, ap some_length e)

pub identity-Lossless : Lossless identity
identity-Lossless = record {
  lz4 = λ hc src out limit e h. sym e;
  gzip = λ src out limit e h. sym e;
  zstd = λ level src out limit e h. sym e;
  lz4_ratio = λ hc src out e. bounded src out e;
  gzip_ratio = λ src out e. bounded src out e;
}

-- A file in memory.
abbrev or_io : Result Bytes → Result Bytes
or_io (ok bs) = ok bs
or_io (err e) = err e
or_io panic = err io

abbrev pub image : Bytes → ReadAt
image content = record { read_exact_at = λ offset n. or_io (slice content offset (offset + n)) }

pub image-Serves : (content : Bytes) → Serves (image content) content
image-Serves content = record {
  inside = λ pre bytes post offset n whole at len.
      ap (λ x. or_io (slice x offset (offset + n))) whole
      ∙ ap or_io (slice-append pre bytes post offset (offset + n) at (omega (arith, at, len)));
}

or_io-ne-panic : (r : Result Bytes) → or_io r ≢ panic
or_io-ne-panic (ok bs) e = cc e
or_io-ne-panic (err p) e = cc e
or_io-ne-panic panic e = cc e

or_io-ok : (r : Result Bytes) (buf : Bytes) → or_io r ≡ ok buf → r ≡ ok buf
or_io-ok (ok bs) buf e = e
or_io-ok (err p) buf e = cc e
or_io-ok panic buf e = cc e

image-IsSource : (content : Bytes) → All IsByte content → IsSource (image content)
image-IsSource content h = record {
  returns = λ offset n. or_io-ne-panic (slice content offset (offset + n));
  bytes = λ offset n buf e.
      let cut = or_io-ok (slice content offset (offset + n)) buf e in
      let (up, inside) = slice_inside content offset (offset + n) buf cut in
      subst (All IsByte)
        (ok-injective (sym (slice_total content offset (offset + n) up inside) ∙ cut))
        (All-take IsByte (offset + n - offset) (drop offset content)
          (All-drop IsByte offset content h));
}

abbrev plain : Compression
plain = record { codec = Codec.none; layout = Layout.per_chunk; zstd_level = 3; encodings = false }

-- One event in each record.
abbrev pub one_each : WriterOptions
one_each = record { compression = plain; max_record_events = 1; max_record_bytes = 1000 }

abbrev bytes_in : Result Bytes → Bytes
bytes_in (ok bs) = bs
bytes_in (err e) = []
bytes_in panic = []

abbrev item_with : ℕ → ℕ → ℕ → Bytes → Item
item_with position number word ev = record {
  chunk = ev ∷ [];
  user_word_1 = word;
  user_word_2 = 0;
  bytes = bytes_in (build_single_block_record_bytes identity (ev ∷ []) word 0 plain number);
  entry = record {
    position = position;
    record_length = 64;
    event_count = 1;
    user_word_1 = word;
    user_word_2 = 0;
  };
}

abbrev first_item : Item
first_item = item_with 56 1 1 (5 ∷ 6 ∷ [])

abbrev second_item : Item
second_item = item_with 120 2 2 (7 ∷ [])

pub first_item-Written : Written (block_format identity) one_each 56 0 first_item
unfolding build_single_block_record_bytes build_payload write_index write_le copy_at le_bytes
    compress compress_at deflate codec for_pair block_bit_info block_header be_bytes le_value
    read_le swap_bytes from_tag from_word tag read_word from_words RecordHeader.parse
    RecordHeader.write slice
first_item-Written = record {
  built = refl;
  filled = omega arith;
  limited = record { few = omega arith; small = inl (omega arith) };
  position = refl;
  record_length = refl;
  header = block_header ((5 ∷ 6 ∷ []) ∷ []) 1 0 plain 1 2 8;
  parsed = refl;
  event_count = refl;
  first_word = refl;
  second_word = refl;
}

second_item-Written : Written (block_format identity) one_each 120 1 second_item
unfolding build_single_block_record_bytes build_payload write_index write_le copy_at le_bytes
    compress compress_at deflate codec for_pair block_bit_info block_header be_bytes le_value
    read_le swap_bytes from_tag from_word tag read_word from_words RecordHeader.parse
    RecordHeader.write slice
second_item-Written = record {
  built = refl;
  filled = omega arith;
  limited = record { few = omega arith; small = inl (omega arith) };
  position = refl;
  record_length = refl;
  header = block_header ((7 ∷ []) ∷ []) 2 0 plain 2 3 8;
  parsed = refl;
  event_count = refl;
  first_word = refl;
  second_word = refl;
}

length-items : (length first_item.bytes ≡ 64) × (length second_item.bytes ≡ 64)
unfolding build_single_block_record_bytes build_payload write_index write_le copy_at le_bytes
    compress compress_at deflate codec for_pair block_bit_info block_header be_bytes le_value
    read_le swap_bytes from_tag from_word tag read_word from_words RecordHeader.parse
    RecordHeader.write slice
length-items = (refl, refl)

abbrev pub evs : List Bytes
evs = (5 ∷ 6 ∷ []) ∷ (7 ∷ []) ∷ []

abbrev pub items : List Item
items = first_item ∷ second_item ∷ []

abbrev entries : List IndexEntry
entries = map (λ (i : Item). i.entry) items

abbrev pub trailer_bytes : Bytes
trailer_bytes = bytes_in (
    build_single_block_record_bytes identity (trailer_event entries ∷ []) 0 0
      (pair Codec.none Layout.per_chunk) 0)

-- A header of zeros: its words are not read here.
abbrev zeros : Bytes
zeros = replicate 56 0

abbrev zero_pieces : Pieces zeros
zero_pieces = record {
  before = replicate 20 0;
  flags = replicate 4 0;
  between = replicate 16 0;
  trailer_position = replicate 8 0;
  rest = replicate 8 0;
  parts = refl;
  length_before = refl;
  length_flags = refl;
  length_between = refl;
  length_position = refl;
}

abbrev whole_file : Bytes
whole_file = patched zero_pieces (56 + length (bytes_of items)) (bytes_of items ++ trailer_bytes)

abbrev summary : WriteSummary
summary = record { events = 2; records = 2; bytes = length whole_file }

pub trailer_made :
    build_single_block_record_bytes identity
      (trailer_event entries ∷ [])
      0
      0
      (pair Codec.none Layout.per_chunk)
      0
    ≡ ok trailer_bytes
unfolding build_single_block_record_bytes build_payload write_index write_le copy_at le_bytes
    compress compress_at deflate codec for_pair block_bit_info block_header be_bytes le_value
    read_le swap_bytes from_tag from_word tag read_word from_words RecordHeader.parse
    RecordHeader.write slice trailer_event trailer_rows pair
trailer_made = refl

pub second_placed :
    Written (block_format identity) one_each (56 + length first_item.bytes) 1 second_item
second_placed =
    subst (λ n. Written (block_format identity) one_each (56 + n) 1 second_item) {x = 64}
      (sym length-items.0) second_item-Written

abbrev fin : Finished (block_format identity) one_each zeros evs summary whole_file
fin = record {
  items = items;
  trailer = trailer_bytes;
  header = zero_pieces;
  all_events = refl;
  laid = (first_item-Written, (second_placed, tt));
  trailer_built = trailer_made;
  content = refl;
  events = refl;
  records = refl;
  bytes = refl;
}

pub items-AllSmall : AllSmall identity plain items
items-AllSmall = (
  record {
    fits = omega arith;
    first_word = omega arith;
    second_word = omega arith;
    bytes = omega (arith, length-items.0);
    plausible = tt;
  },
  (
    record {
      fits = omega arith;
      first_word = omega arith;
      second_word = omega arith;
      bytes = omega (arith, length-items.1);
      plausible = tt;
    },
    tt,
  ),
)

abbrev header : FileHeader
header = record {
  file_number = 1;
  header_length = 56;
  record_count = 0;
  index_array_length = 0;
  bit_info = 0;
  user_header_length = 0;
  user_register = 0;
  trailer_position = 56 + length (bytes_of items);
  user_int1 = 0;
  user_int2 = 0;
  endianness = little;
}

length-whole_file : length whole_file ≡ 332
unfolding build_single_block_record_bytes build_payload write_index write_le copy_at le_bytes
    compress compress_at deflate codec for_pair block_bit_info block_header be_bytes le_value
    read_le swap_bytes from_tag from_word tag read_word from_words RecordHeader.parse
    RecordHeader.write slice trailer_event trailer_rows pair
length-whole_file = refl

abbrev source : ReadAt
source = image whole_file

abbrev index : FileEventIndex
index = index_items EventIndex.new 56 items

indexed : build_index source (length whole_file) identity header ≡ ok index
indexed =
    build_index-Finished identity one_each source identity-Lossless refl zeros evs summary
      whole_file header fin items-AllSmall (omega arith) (image-Serves whole_file)
      (omega (arith, length-whole_file)) (omega arith) refl refl

build_index_from_trailer-scanning_example :
    (build_index_from_trailer source (length whole_file) identity (56 + length (bytes_of items)) 56
      ≡ ok index)
    × (build_index_by_scanning source (length whole_file) 56 (56 + length (bytes_of items)) true
        ≡ ok index)
build_index_from_trailer-scanning_example =
    build_index_from_trailer-scanning identity one_each source identity-Lossless refl zeros evs
      summary whole_file true fin items-AllSmall (omega arith) (image-Serves whole_file)
      (omega (arith, length-whole_file))

-- The same file, cut in its second record.
abbrev cut_file : Bytes
cut_file = zeros ++ (bytes_of (first_item ∷ []) ++ take 60 second_item.bytes)

length-cut : (length cut_file ≡ 180) × (length (drop 60 second_item.bytes) ≡ 4)
unfolding build_single_block_record_bytes build_payload write_index write_le copy_at le_bytes
    compress compress_at deflate codec for_pair block_bit_info block_header be_bytes le_value
    read_le swap_bytes from_tag from_word tag read_word from_words RecordHeader.parse
    RecordHeader.write slice
length-cut = (refl, refl)

first_item-IsBounded : IsBounded first_item
first_item-IsBounded = record {
  events = omega arith;
  first_word = omega arith;
  second_word = omega arith;
  bytes = omega (arith, length-items.0);
}

second_item-IsBounded : IsBounded second_item
second_item-IsBounded = record {
  events = omega arith;
  first_word = omega arith;
  second_word = omega arith;
  bytes = omega (arith, length-items.1);
}

build_index_by_scanning-cut_example :
    build_index_by_scanning (image cut_file) (length cut_file) 56 0 true
    ≡ ok (index_items EventIndex.new 56 (first_item ∷ []))
build_index_by_scanning-cut_example =
    build_index_by_scanning-cut identity one_each (image cut_file) zeros (take 60 second_item.bytes)
      (drop 60 second_item.bytes) cut_file (first_item ∷ []) second_item (first_item-Written, tt)
      (first_item-IsBounded, tt)
      (subst (λ n. Written (block_format identity) one_each (56 + n) 1 second_item) {x = 64}
        (sym length_first) second_item-Written)
      second_item-IsBounded (sym (take-append-drop 60 second_item.bytes))
      (omega (arith, length-cut.1)) (omega arith) refl (image-Serves cut_file)
      (omega (arith, length-cut.0))
  where
    length_first : length (bytes_of (first_item ∷ [])) ≡ 64
    length_first = ap length (append-nil first_item.bytes) ∙ length-items.0

salvage_index-Finished_example : salvage_index source (length whole_file) identity 56 ≡ ok index
salvage_index-Finished_example =
    salvage_index-Finished identity one_each source zeros evs summary whole_file identity-Lossless
      refl fin items-AllSmall (omega arith) (omega arith) (image-Serves whole_file)
      (omega (arith, length-whole_file)) (omega arith)

-- 64 bytes that hold no record.
build_index_by_scanning-ne-panic_example :
    build_index_by_scanning (image (replicate 64 7)) 64 0 0 true ≢ panic
build_index_by_scanning-ne-panic_example =
    build_index_by_scanning-ne-panic (image (replicate 64 7))
      (image-IsSource (replicate 64 7) sevens) 64 (omega arith) 0 0 true (omega arith)
  where
    sevens : All IsByte (replicate 64 7)
    sevens = ground arith

-- No split records.
abbrev no_split : SplitRecords
no_split = record {
  synthesize_by_bank = λ raw i. err io;
  synthesize_per_column = λ raw i. err io;
  parse_by_bank = λ raw. err io;
  parse_per_column = λ raw. err io;
  check_by_bank = λ f raw i. err io;
  check_per_column = λ f raw i. err io;
}

abbrev inner : FileInner
inner = file_of [] source (length whole_file) Dict.new index

abbrev iterator : Option (List ℕ) → EventIter
iterator tags = record {
  inner = inner;
  dict = Dict.new;
  filter = none;
  record_tags = tags;
  cur = CurrentRecord.nothing;
  next_record = 0;
  next_event = 0;
  finished = false;
}

opened_iterator : (tags : Option (List ℕ)) → Iter.new inner Dict.new none tags ≡ ok (iterator tags)
unfolding Iter.new
opened_iterator tags = refl

abbrev chain : Chain
chain = from_inners (inner ∷ []) Dict.new

-- The chain after the event of number 0 was fetched.
first_answer :
    (owned : OwnedEvent) × (cache : Option RecordCache) × (event identity no_split
        (from_inners (inner ∷ []) Dict.new)
        0
      ≡ ok (some owned, cache))
    × (event_bytes identity no_split owned ≡ ok (5 ∷ 6 ∷ []))
first_answer =
    event-Finished identity one_each source identity-Lossless refl no_split zeros evs summary
      whole_file header index [] Dict.new Dict.new 0 (5 ∷ 6 ∷ []) fin items-AllSmall (omega arith)
      (omega arith) (image-Serves whole_file) (omega (arith, length-whole_file)) (omega arith) refl
      refl indexed refl

abbrev warm : Chain
warm = with_cache (from_inners (inner ∷ []) Dict.new) first_answer.1

cold-IsTrue : IsTrue identity no_split (from_inners (inner ∷ []) Dict.new)
unfolding from_inners IsTrue
cold-IsTrue = λ e inner span cached file there. cc cached

warm-IsTrue : IsTrue identity no_split warm
warm-IsTrue =
    (event-with_cache identity no_split (from_inners (inner ∷ []) Dict.new) 0 cold-IsTrue).1
      (some first_answer.0) first_answer.1 first_answer.2

event-with_cache_example :
    (answer (event identity no_split warm 0)
      ≡ answer (event identity no_split (with_cache warm none) 0))
    × ((ev : Option OwnedEvent) (cache : Option RecordCache)
        → event identity no_split warm 0 ≡ ok (ev, cache)
        → IsTrue identity no_split (with_cache warm cache))
event-with_cache_example = event-with_cache identity no_split warm 0 warm-IsTrue

-- The same event, when the file is empty by then.
event_stale_example :
    event identity no_split (rewritten (λ f. image []) warm) 0
    ≡ ok (some first_answer.0, first_answer.1)
event_stale_example =
    event_stale identity no_split (λ f. image []) (from_inners (inner ∷ []) Dict.new) 0
      first_answer.0 first_answer.1 first_answer.2

-- The file twice.
abbrev twice : Chain
twice = record {
  files = inner ∷ inner ∷ [];
  file_event_offsets = 0 ∷ 2 ∷ 4 ∷ [];
  dict = Dict.new;
  filter = none;
  record_tags = none;
  record_cache = none;
}

one_file :
    (it : EventIter) × (Iter.new inner Dict.new none none ≡ ok it) × Yields identity no_split it evs
one_file = (
  iterator none,
  opened_iterator none,
  new-Yields_all identity one_each source identity-Lossless refl no_split zeros evs summary
      whole_file header index [] Dict.new Dict.new (iterator none) fin items-AllSmall (omega arith)
      (image-Serves whole_file) (omega (arith, length-whole_file)) (omega arith) refl refl indexed
      (opened_iterator none),
)

both_files : FilesYield identity no_split none none twice.files (evs ∷ evs ∷ [])
unfolding FilesYield
both_files = (one_file, (one_file, tt))

events-ChainYields_example : ChainYields identity no_split (events twice) (flat (evs ∷ evs ∷ []))
events-ChainYields_example = events-ChainYields identity no_split twice (evs ∷ evs ∷ []) both_files

find-trailer_event_example :
    find (trailer_event entries) 32111 1
    ≡ ok (some (index_header 64, take 64 (trailer_rows entries)))
find-trailer_event_example =
    find-trailer_event entries 64 (length-trailer_rows entries) (omega arith)
