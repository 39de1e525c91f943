-- ===== src/Worker.antt =====
-- services/novel-fetcher/internal/worker/runner.go: the loop that runs one task at a time, the
-- controls of the running task, and the wake-up signal between the clients and the loop.
pub mod Runner
pub mod Finalizing
pub mod Signaled
pub mod Loop
pub mod Wakeup
