-- ===== src/Scheduler.antt =====
-- src/scheduler.c, with log_event of src/file_handlers.c.
-- The state holds the global variables, the PCBs that check_for_new_processes allocates (none is
-- ever freed: a pointer is the place in `store`), the two kinds of messages that wait in the
-- message queue, and what leaves the program: signals, log lines and execution periods, the
-- latest first. The k-th call of get_clk reads `clock k`. Console output and sleeping are left
-- out; opening the files and the message queue succeeds. Integers do not overflow.
pub mod State
pub mod Dispatch
pub mod Loop
pub mod Sound
pub mod Handlers
pub mod Rounds
pub mod Turns
pub mod Run
pub mod Example
mod Tests
