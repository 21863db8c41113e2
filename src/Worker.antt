-- ===== src/Worker.antt =====
-- The analysis worker of backend/app/workers/tasks.py: the rows that it reads and writes, and what a
-- result does to a row. Its children hold the cache, the fetching, a batch, the loop over
-- a run, the retry pass and the whole task.
pub mod Rows
pub mod Cache
pub mod Apply
pub mod Fetch
pub mod Batch
pub mod Run
pub mod Retry
pub mod Task
pub mod Tests
