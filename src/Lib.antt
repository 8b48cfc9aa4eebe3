-- ===== src/Lib.antt =====
-- A model of the OS scheduler simulator in C, and what is proved of it.
--
-- The program. The process generator forks the clock, the scheduler and one process per line of the
-- input, and sends the scheduler a PCB through a message queue when a process arrives. The
-- scheduler keeps the PCBs in a queue, a ring under Round Robin and a heap under HPF and SRTN, and
-- gives the CPU to a process by SIGCONT and takes it back by SIGSTOP. The running process sends
-- SIGUSR2 in each time unit and SIGUSR1 at its end. Memory comes from a buddy allocator, and a hash
-- map remembers the block of each process.
--
-- The files, with the code that they model:
--   Base           what the files share: lists under native indices, C integers, outcomes of a run
--   PriorityQueue  src/DS/priority_queue.c: pq_enqueue, pq_dequeue, pq_front, pq_change_priority;
--                  Order, Up and Down have the heap order and the two loops that restore it,
--                  Queue and Change the operations, Bounded the same where no int overflows
--   Buddy          src/buddy_memory.c: allocate_memory, deallocate_memory, merge_block, split_block;
--                  Slot, Tiling and Parted have the layout, Fit, Allocate, Merge, Deallocate and
--                  Whole the operations on it, Empty the end of all, Address, Fresh, FreshMerge and Head the addresses
--   Nodes          the nodes of src/DS/linked_list.h and src/DS/circular_queue.h in a heap: Chain has
--                  runs of linked nodes, Relink, Swap and Free what writes do to them
--   HashMap        src/DS/hash_map.c: hashmap_create, hashmap_put, hashmap_get, hashmap_remove,
--                  and Free hashmap_free
--   CircularQueue  src/DS/circular_queue.c: the ring as the order of its objects, and Order its laws;
--                  Pointers has the code with head, tail, next and prev, Ring, Refine and Turn that it
--                  implements the ring of objects, Reach any calls, Release cq_free
--   LinkedList     src/DS/linked_list.c: Add, Remove and Release have its operations
--   IQueue         src/DS/IQueue.c: the interface over the two queues, Good has
--                  the invariant, Laws the operations, for a client that does not know the queue,
--                  Contents the objects
--   Pcb            src/PCB.h, src/process.h
--   MemoryManager  src/memory_manager.c, and log_memory_event of src/file_handlers.c; Release has the
--                  blocks of the processes, Waiting get_oldest_fit over the pointers of the list
--   Arguments      parse_args of src/process_generator.c
--   Generator      src/process_generator.c: create_processes, fork_and_send, handle_child_exit;
--                  Assign and Admit have one process, Pass the waiting list, Arrive a pass of the
--                  loop, Exit the exit of a child, Run any passes and exits, Missed a process that
--                  is never admitted
--   InputFile      read_input_file of src/file_handlers.c: Scan has one line, Lines the text
--   RoundNumber    round_number of src/file_handlers.c, and Trimmed what it keeps
--   Running        src/process.c: Countdown has the reports of a child process, Time the clock
--   Scheduler      src/scheduler.c, and log_event of src/file_handlers.c. State has the globals,
--                  Dispatch the handlers, Loop the policies and a round of scheduler_loop; Sound has
--                  the invariant, Handlers and Rounds keep it, Turns has Round Robin, Run the
--                  steps in any order, and Example one run
--   Handover       the messages of fork_and_send at check_for_new_processes: Sent has what each of them
--                  is, Accepted what the scheduler makes of them
--
-- How the code is modelled. A function that changes an object takes its state and returns the next
-- one. A run ends as an Outcome: done, fault (an access out of bounds, or through a null or freed
-- pointer) or starved (the fuel of the model ran out). `Ends P m` says that m ends as done with a
-- value that satisfies P. Addresses are numbers, and NULL is `none`. Every call of malloc succeeds;
-- in Buddy its addresses are a parameter. The clock is a parameter of the scheduler, of the
-- generator and of a child: the k-th reading of it. fork and msgsnd are parameters of the
-- generator, and any of them may fail. At the level of the pointers a heap maps addresses to nodes,
-- NULL is 0, and a new node comes with its address. The integers of the scheduler and the
-- priorities are unbounded: where an int of the code overflows, which is undefined, the model is
-- not the code, and a fault is an access to memory only; the hash wraps at 64 bits as in the code.
--
-- Fuel. A node moves up at most as often as its index, and down at most as often as the heap is
-- long; probing gets as many rounds as the map has places; a block is split at most as often as its
-- size; a merge removes a block each time; a list is freed or searched in as many turns as it has
-- nodes, and one; a text is read in as many turns as it has characters, and one; the generator
-- sends at most the processes that wait; a child needs as many turns as its runtime times the
-- readings between two ticks. A theorem on what a function returns states that it returns.
--
-- Not modelled: free_queue, which only frees memory and has no caller, console output and the
-- readings of the clock that it shows, the averages of the performance file, which are floats,
-- signals that arrive inside a round of the scheduler or a pass of the generator, main and
-- clear_and_exit of src/process_generator.c, the files that src/file_handlers.c opens, and the
-- shared memory of src/clk.c.
pub mod Base
pub mod PriorityQueue
pub mod Buddy
pub mod HashMap
pub mod Nodes
pub mod LinkedList
pub mod CircularQueue
pub mod IQueue
pub mod Pcb
pub mod MemoryManager
pub mod Arguments
pub mod Generator
pub mod InputFile
pub mod RoundNumber
pub mod Running
pub mod Scheduler
pub mod Handover
