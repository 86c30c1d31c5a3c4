-- ===== src/Query.antt =====
-- src/query: query syntax, and evaluation over posting lists.
pub mod Syntax
pub mod Lexer
pub mod Parser
pub mod Hits
pub mod Source
pub mod Exec
pub mod Highlight
