-- ===== src/Worker.antt =====
-- worker/tasks.py: the Celery worker that parses, embeds and stores a document's chunks.
pub mod Throttle
pub mod Embed
pub mod Stored
pub mod Resume
pub mod Jobs
pub mod JobRows
pub mod Deliveries
pub mod Done
pub mod Sweeps
mod Examples
mod JobExamples
pub mod Window
pub mod Paced
