-- ===== src/MemoryManager/Tests.antt =====
-- A process gets a block and gives it back: src/memory_manager.c at one state.
use os_scheduler.Base.{ℕ, ◌≡◌, refl, none, some, [], ◌∷◌, arith, ◌==◌, if◌then◌else◌}
use os_scheduler.Base.Int.{pos, negsuc, pos_part}
use os_scheduler.Base.Outcome.{Ends}
use os_scheduler.Pcb.{Process, Pcb, unset}
use os_scheduler.Buddy.{Place, get_smallest_block_available}
use os_scheduler.HashMap.{hashmap_create}
use os_scheduler.MemoryManager.{MemoryManager, get_oldest_fit, get_smallest_block}
use os_scheduler.Nodes.{null, Heap, node, write}
use os_scheduler.LinkedList.{LinkedList}
use os_scheduler.LinkedList.Add.{IsListOf}
use os_scheduler.MemoryManager.Waiting
use os_scheduler.MemoryManager.Waiting.{Fit, get_oldest_fit-Fit}
use os_scheduler.MemoryManager.Release.{OldestFit, get_oldest_fit_correct}

abbrev sized : (id size : ℕ) → Process
sized id size = record {
  id = pos id;
  arrival_time = pos 0;
  runtime = pos 5;
  priority = pos 1;
  memory_size = pos size;
}

abbrev child : Pcb
child = record {
  pid = pos 101;
  start_time = negsuc 0;
  wait_time = pos 0;
  remaining_time = pos 5;
  state = unset;
  memory_block = none;
  process = sized 1 200;
}

abbrev whole : Place
whole = record {
  before = [];
  block = record { address = 7; size = 1024; start = 0; allocated = 0 };
  after = [];
}

abbrev half_used : MemoryManager
half_used = record {
  memory =
      record { address = 7; size = 512; start = 0; allocated = 400 }
      ∷ record { address = 8; size = 512; start = 512; allocated = 0 }
      ∷ [];
  memory_map = hashmap_create 100;
  memory_log = [];
}

-- A process of 600 waits behind 512 bytes in use, and one of 300 gets past it.
oldest_that_fits :
    get_oldest_fit half_used (sized 1 600 ∷ sized 2 300 ∷ sized 3 10 ∷ [])
    ≡ (some (sized 2 300), sized 1 600 ∷ sized 3 10 ∷ [])
unfolding get_oldest_fit get_smallest_block get_smallest_block_available pos_part
oldest_that_fits = refl

get_oldest_fit_correct_example :
    OldestFit half_used
      (sized 1 600 ∷ sized 2 300 ∷ sized 3 10 ∷ [])
      (get_oldest_fit half_used (sized 1 600 ∷ sized 2 300 ∷ sized 3 10 ∷ []))
get_oldest_fit_correct_example =
    get_oldest_fit_correct half_used (sized 1 600 ∷ sized 2 300 ∷ sized 3 10 ∷ [])

-- The same processes, at the addresses 7, 8 and 9 of a list of three nodes.
abbrev three_at : ℕ → Process
three_at a = if a == 7 then sized 1 600 else if a == 8 then sized 2 300 else sized 3 10

abbrev three_nodes : Heap
three_nodes =
    write (write (write (λ _. none) 16 (some (node 32 null 7))) 32 (some (node 48 16 8))) 48
      (some (node null 32 9))

abbrev three : LinkedList
three = record { head = 16; tail = 48; size = pos 3 }

three-IsListOf : IsListOf three_nodes three ((16, 7) ∷ (32, 8) ∷ (48, 9) ∷ [])
unfolding write
three-IsListOf = record {
  linked =
      ((λ e. ground arith), refl, ((λ e. ground arith), refl, ((λ e. ground arith), refl, tt)));
  distinct = (refl, (refl, (refl, tt)));
  at_head = refl;
  at_tail = refl;
  counted = refl;
}

get_oldest_fit-Fit_example :
    Ends
      (Fit half_used three_at
        (get_oldest_fit half_used (sized 1 600 ∷ sized 2 300 ∷ sized 3 10 ∷ [])))
      (Waiting.get_oldest_fit 4 half_used three_at three_nodes three)
get_oldest_fit-Fit_example =
    get_oldest_fit-Fit half_used three_at 4 three_nodes three ((16, 7) ∷ (32, 8) ∷ (48, 9) ∷ [])
      (omega arith) three-IsListOf
