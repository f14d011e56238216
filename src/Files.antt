-- ===== src/Files.antt =====
-- api.go, file.go, update.go: files that are written through a temporary file and a rename, copied,
-- and read whole. What the operating system answers is an argument; the disk is the content of the
-- path that is written, and of the temporary file.
pub mod Stream
pub mod Snapshot
pub mod Clone
