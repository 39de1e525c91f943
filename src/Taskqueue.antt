-- ===== src/Taskqueue.antt =====
-- services/novel-fetcher/internal/taskqueue: the durable repository with a wake-up signal, the
-- reports of a running task, and the payloads of the API.
pub mod Queue
pub mod Payload
pub mod Flags
