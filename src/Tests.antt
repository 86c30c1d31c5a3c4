-- ===== src/Tests.antt =====
-- Runs of the model on concrete inputs, and each theorem with hypotheses applied to one.
mod Varint
mod Envelope
mod Del
mod Manifest
mod Idx
mod Query
mod Exec
mod Memory
mod Doc
mod Overlay
mod Table
mod State
mod Watcher
mod Merge
mod Tokenizer
