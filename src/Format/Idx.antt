-- ===== src/Format/Idx.antt =====
-- src/format/idx.rs: the parts of a term index file. `Postings` writes one posting list, `Cursor`
-- reads it; `Layout` says which bytes a posting list has.
pub mod Postings
pub mod Cursor
pub mod Layout
pub mod Encodes
pub mod Reads
pub mod Stands
pub mod Yields
pub mod Seek
pub mod List
pub mod Source
