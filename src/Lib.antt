-- ===== src/Lib.antt =====
-- ripindex: a full-text index for files, with positional postings in immutable segments.
--
-- The parts, and the files that model them:
-- - src/format: the files of the index. Each is a body in an envelope with a magic number, a
--   version, and a footer with the body's length and CRC-32. Format.antt has the errors and the
--   bounds-checked reads of mod.rs, Format/Varint.antt the variable-length numbers of varint.rs,
--   Format/Envelope.antt envelope.rs, Format/Del.antt the deletion bitmaps of del.rs,
--   Format/Doc.antt the documents table of doc.rs, with `verify` in Format/Doc/Check.antt,
--   Format/Overlay.antt the patches of overlay.rs, Format/Manifest.antt the manifest of
--   manifest.rs, which names the live segments, and Format/Idx the posting lists of idx.rs:
--   Idx/Postings.antt is `encode_postings`, Idx/Cursor.antt `DiskCursor`. A function keeps its
--   name, a method too unless the name is taken, and a Rust `Result<T, FormatError>` is a
--   `Result`. Idx/List.antt is `DiskPostingList` with its full check.
-- - src/index: Index/Postings.antt has the traits of postings.rs as a record of operations and
--   laws, `PostingSource`, and Index/Memory.antt the posting lists, the cursor and the term
--   store of memory.rs. Format/Idx/Source.antt and Index/Memory/Gallop.antt fill it with the
--   lists of the disk and of the memory. Index/Table.antt is the table of documents of
--   doc_table.rs.
-- - src/query: exec.rs is Query/Exec.antt, over any `PostingSource` and the segments of
--   Query/Source.antt, and its operations on sorted hits are Query/Hits.antt.
--   Query/Highlight.antt is `highlight_terms` of mod.rs. The lexer and the recursive-descent
--   parser of parser.rs are Query/Syntax.antt, Query/Lexer.antt and Query/Parser.antt.
-- - src/tokenizer.rs: Tokenizer.antt, where an iterator is the list of what it gives.
-- - src/store: Store/State.antt has the committed state of state.rs and
--   Store/State/Reconcile.antt its `reconcile`, which compares that state with a crawl, in the
--   types of src/crawler.rs in Crawl.antt, and plans deletions, patches and reindexes.
--   Store/Watcher.antt is the schedule of watcher.rs that calls for a reconcile, over a world of
--   hints and time, and Store/Watcher/Scripted.antt the world of a script, which the program's
--   tests use. Store/Merge.antt is `plan_merges` of merge.rs, and Store/Merge/Carry.antt the
--   part of its `finish_one` that carries later deletions forward.
--
-- The numbers are natural numbers with the wrap-around written out; `usize` has 64 bits. A byte
-- slice is a list of numbers below 256. A method that changes its object returns the changed
-- object. The checksum of the crate crc32fast is a parameter, the record `Crc32` of
-- Format/Checksum.antt, with its documented behaviour: a checksum of 32 bits, and a hasher that
-- is fed in pieces. The tokenizer's `atoms` is a parameter of the parser, and Unicode's words
-- and classes of characters are the parameter `Unicode` of the tokenizer. The contents of files
-- and xxh3-64, which hashes them, are parameters of `reconcile`, and the source of hints, the
-- clock, the stop flag and the reconcile are those of `run`. The share of deleted documents and
-- the tier of a segment are parameters of `plan_merges`. The scores of bm25.rs are
-- floating-point numbers, and are the parameter `Bm25`, of which nothing is assumed.
--
-- Bounds and fuel: `put_u64` runs ten rounds, since 128 ^ 10 exceeds 2 ^ 64. The `while` of
-- `DiskCursor::seek` has two rounds more than the postings that remain, and each round loads one
-- or ends. The loops of `eval_term` and `eval_phrase` have a round for each posting and one
-- more, the alignment in a phrase has rounds for each cursor and each posting of the first list,
-- the doubling loop of the seek in memory one for each posting, and the binary search of the
-- overlay one for each patch. The lexer has a round for each character, and the parser five
-- calls for each token and six more. `run` of the watcher, which a silent source and no stop
-- would keep going, has fuel for the script and the triggers after which it stops. The theorems
-- on them include that this is enough.
--
-- Not modelled: the dictionary of an .idx file, the index builder, the ranking in `search`,
-- snippets, the writer, the rest of the merges, live updates and the recovery of the store, and
-- the daemon. File, process and socket I/O, with the crawl and the watcher's source
-- `NotifySource`, the command line, benchmarks and floating-point scores, averages and the
-- governor's rates are outside the model.
pub mod Common
pub mod Crawl
pub mod Format
pub mod Index
pub mod Query
pub mod Store
pub mod Tests
pub mod Tokenizer
