-- ===== src/Handover.antt =====
-- The messages between src/process_generator.c and src/scheduler.c: what fork_and_send puts in the queue
-- passes the test of check_for_new_processes.
pub mod Sent
pub mod Accepted
