-- ===== src/Index.antt =====
-- src/index: the traits of posting lists, the index in memory, and the table of documents.
pub mod Postings
pub mod Memory
pub mod Table
