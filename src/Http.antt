-- ===== src/Http.antt =====
-- proto/proto.go: the reader and editor of HTTP/1 payloads.
pub mod Search
pub mod Equal
pub mod Title
pub mod Header
pub mod Path
pub mod Chunked
pub mod Whole
pub mod State
