-- ===== src/Writer.antt =====
-- gamecollect/db/writer.py
pub mod Table
pub mod Action
pub mod Rows
pub mod Matches
pub mod Events
pub mod Entities
pub mod Methods
pub mod Partition
pub mod Append
pub mod Batches
pub mod Columns
pub mod Upserts
pub mod Atomicity
pub mod Valid
mod Tests
