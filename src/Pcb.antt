-- ===== src/Pcb.antt =====
-- src/process.h, src/PCB.h: what the input file says of a process, and what the system keeps.
use os_scheduler.Base.{ℕ, Option}
use os_scheduler.Base.Int.{ℤ}

pub record Process : Type 0 where
  pub id : ℤ
  pub arrival_time : ℤ
  pub runtime : ℤ
  pub priority : ℤ
  pub memory_size : ℤ

-- The strings of the `state` field; `unset` is the field before the scheduler writes it.
pub data RunState : Type 0 where
  unset started resumed stopped finished : RunState

-- `memory_block` is the block's address, `none` for NULL.
pub record Pcb : Type 0 where
  pub pid : ℤ
  pub start_time : ℤ
  pub wait_time : ℤ
  pub remaining_time : ℤ
  pub state : RunState
  pub memory_block : Option ℕ
  pub process : Process
