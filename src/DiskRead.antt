-- ===== src/DiskRead.antt =====
-- disk.go: how `ReadExtentInto` fills a range: from the write cache, the previous write cache, and then
-- the segments.
pub mod WriteCache
pub mod Requests
pub mod Segments
pub mod Layers
pub mod Cached
pub mod Emptying
pub mod Gathering
pub mod Planning
pub mod Fetching
pub mod Serving
pub mod Reading
pub mod Written
pub mod Examples
mod WrittenExample
