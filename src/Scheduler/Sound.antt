-- ===== src/Scheduler/Sound.antt =====
-- src/scheduler.c: the invariant of the globals between two events, and the changes that keep it.
use os_scheduler.Base.{
  ℕ, ◌+◌, ◌<◌, ◌≤◌, ◌≡◌, refl, sym, ap, ◌∙◌, ◌⊎◌, inl, inr, Option, none, some, List, [], ◌∷◌, ◌++◌,
  arith, ◌==◌, length, set, get_or, get_or-set, get_or-append, length-set, length-append,
  Bool-cases, All-weaken,
}
use os_scheduler.Base.Int.{ℤ, pos}
use os_scheduler.PriorityQueue.{PqueueNode}
use os_scheduler.Pcb.{Process, unset, started, resumed, stopped, finished, Pcb}
use os_scheduler.IQueue.{SchedulingAlgorithm, IQueue, circular, priority}
use os_scheduler.IQueue.Good.{IsGood, Within, Serves, Keeps, Added, AtFront}
use os_scheduler.Scheduler.State.{Signal, sigcont, sigstop, LogLine, Scheduler}

abbrev pub nobody : Pcb
nobody = record {
  pid = pos 0;
  start_time = pos 0;
  wait_time = pos 0;
  remaining_time = pos 0;
  state = unset;
  memory_block = none;
  process = record {
    id = pos 0;
    arrival_time = pos 0;
    runtime = pos 0;
    priority = pos 0;
    memory_size = pos 0;
  };
}

-- The part of a PCB that never changes.
abbrev pub identity : Pcb → ℤ × Process
identity pcb = (pcb.pid, pcb.process)

abbrev pub running : List Pcb → Option ℕ → Option (ℤ × Process)
running store none = none
running store (some p) = some (identity (get_or store p nobody))

abbrev pub InStore : ℕ → Option ℕ → Type 0
InStore k none = Unit {0}
InStore k (some p) = p < k

-- What the log and the signals, the latest first, say of the CPU: a process is started or resumed
-- by a SIGCONT to it when none runs, and then it is stopped by a SIGSTOP to it, or finishes.
pub data Traced : Option (ℤ × Process) → List LogLine → List Signal → Type 0 where
  quiet : Traced none [] []
  starts :
      {line : LogLine} {log : List LogLine} {signals : List Signal}
      → (pid : ℤ) → (line.state ≡ started) ⊎ (line.state ≡ resumed)
      → Traced none log signals
      → Traced (some (pid, line.process)) (line ∷ log) (sigcont pid ∷ signals)
  stops :
      {line : LogLine} {log : List LogLine} {signals : List Signal}
      → (pid : ℤ) → line.state ≡ stopped
      → Traced (some (pid, line.process)) log signals
      → Traced none (line ∷ log) (sigstop pid ∷ signals)
  ends :
      {line : LogLine} {log : List LogLine} {signals : List Signal}
      → (pid : ℤ) → line.state ≡ finished
      → Traced (some (pid, line.process)) log signals
      → Traced none (line ∷ log) signals

pub record Sound (algorithm : SchedulingAlgorithm) (queue : IQueue) (store : List Pcb)
    (current : Option ℕ) (log : List LogLine) (signals : List Signal) : Type 0 where
  pub good : IsGood queue
  pub serves : Serves algorithm queue
  pub within : Within (length store) queue
  pub current_in : InStore (length store) current
  pub at_front : AtFront current queue
  pub traced : Traced (running store current) log signals

abbrev pub IsSound : Scheduler → Type 0
IsSound s = Sound s.selected_algorithm s.ready_queue s.store s.current_pcb s.log s.signals

-- Writing a PCB that is the same process changes the identity of none.
identity-set :
    (store : List Pcb) (p q : ℕ) (b : Pcb)
    → p < length store
    → identity b ≡ identity (get_or store p nobody)
    → identity (get_or (set store p b) q nobody) ≡ identity (get_or store q nobody)
identity-set store p q b h same =
    ap identity (get_or-set store p q b nobody h) ∙ elim (Bool-cases (p == q)) [
      | inl e ↦
          let eq : p ≡ q = ground arith in
          rw e (same ∙ ap (λ i. identity (get_or store i nobody)) eq)
      | inr e ↦ rw e refl
    ]

running-set :
    (store : List Pcb) (p : ℕ) (b : Pcb) (current : Option ℕ)
    → p < length store
    → identity b ≡ identity (get_or store p nobody)
    → running (set store p b) current ≡ running store current
running-set store p b none h same = refl
running-set store p b (some q) h same = ap some (identity-set store p q b h same)

InStore-length : (k l : ℕ) (current : Option ℕ) → k ≤ l → InStore k current → InStore l current
InStore-length k l none h i = i
InStore-length k l (some p) h i = omega arith

Within-weaken : (k l : ℕ) (q : IQueue) → k ≤ l → Within k q → Within l q
Within-weaken k l (circular q) h w = (
  All-weaken (λ p. p < k) (λ p. p < l) (λ p lt. omega arith) q.waiting w.0,
  All-weaken (λ p. p < k) (λ p. p < l) (λ p lt. omega arith) q.passed w.1,
)
Within-weaken k l (priority q) h w =
    All-weaken (λ (n : PqueueNode). n.item < k) (λ (n : PqueueNode). n.item < l)
      (λ n lt. omega arith) q.nodes w

module _ {algorithm : SchedulingAlgorithm} {queue queue' : IQueue} {store : List Pcb}
    {current : Option ℕ} {log : List LogLine} {signals : List Signal}
    (sound : Sound algorithm queue store current log signals) (kept : Keeps queue queue') where
  -- A PCB is rewritten as the same process, and the queue changes.
  pub rewrite-Sound :
      (p : ℕ) (b : Pcb)
      → p < length store
      → identity b ≡ identity (get_or store p nobody)
      → AtFront current queue'
      → Sound algorithm queue' (set store p b) current log signals
  rewrite-Sound p b h same at =
      let size = length-set store p b in
      record {
        good = kept.good;
        serves = kept.serves algorithm sound.serves;
        within =
            Within-weaken (length store) _ queue' (omega (arith, size))
              (kept.within (length store) sound.within);
        current_in = InStore-length (length store) _ current (omega (arith, size)) sound.current_in;
        at_front = at;
        traced = rw (running-set store p b current h same) sound.traced;
      }

-- A process gets the CPU.
pub start-Sound :
    {algorithm : SchedulingAlgorithm} {queue queue' : IQueue} {store : List Pcb}
    {log : List LogLine} {signals : List Signal}
    → Sound algorithm queue store none log signals
    → Keeps queue queue'
    → (p : ℕ) (b : Pcb) (line : LogLine) → p < length store
    → identity b ≡ identity (get_or store p nobody)
    → (line.state ≡ started) ⊎ (line.state ≡ resumed)
    → line.process ≡ b.process
    → AtFront (some p) queue'
    → Sound algorithm queue' (set store p b) (some p) (line ∷ log) (sigcont b.pid ∷ signals)
start-Sound {store} sound kept p b line h same state process at =
    let r = rewrite-Sound sound kept p b h same tt in
    record {
      good = r.good;
      serves = r.serves;
      within = r.within;
      current_in = omega (arith, length-set store p b);
      at_front = at;
      traced =
          rw (identity-set store p p b h same ∙ sym same, sym process)
            (Traced.starts b.pid state sound.traced);
    }

module _ {algorithm : SchedulingAlgorithm} {queue queue' : IQueue} {store : List Pcb} {p : ℕ}
    {log : List LogLine} {signals : List Signal}
    (sound : Sound algorithm queue store (some p) log signals) (kept : Keeps queue queue') (b : Pcb)
    (line : LogLine) (same : identity b ≡ identity (get_or store p nobody))
    (process : line.process ≡ b.process) where
  open_line : Traced (some (b.pid, line.process)) log signals
  open_line = rw (process, same) sound.traced

  -- The process that has the CPU is stopped.
  pub stop-Sound :
      line.state ≡ stopped
      → Sound algorithm queue' (set store p b) none (line ∷ log) (sigstop b.pid ∷ signals)
  stop-Sound state =
      let size = length-set store p b in
      record {
        good = kept.good;
        serves = kept.serves algorithm sound.serves;
        within =
            Within-weaken (length store) _ queue' (omega (arith, size))
              (kept.within (length store) sound.within);
        current_in = tt;
        at_front = tt;
        traced = Traced.stops b.pid state open_line;
      }

  -- The process that has the CPU finishes.
  pub end-Sound :
      line.state ≡ finished → Sound algorithm queue' (set store p b) none (line ∷ log) signals
  end-Sound state =
      let size = length-set store p b in
      record {
        good = kept.good;
        serves = kept.serves algorithm sound.serves;
        within =
            Within-weaken (length store) _ queue' (omega (arith, size))
              (kept.within (length store) sound.within);
        current_in = tt;
        at_front = tt;
        traced = Traced.ends b.pid state open_line;
      }

running-append :
    (store : List Pcb) (pcb : Pcb) (current : Option ℕ)
    → InStore (length store) current
    → running (store ++ pcb ∷ []) current ≡ running store current
running-append store pcb none h = refl
running-append store pcb (some p) h =
    ap (λ b. some (identity b)) (get_or-append store (pcb ∷ []) p nobody h)

-- A PCB is allocated and queued.
pub receive-Sound :
    {algorithm : SchedulingAlgorithm} {queue queue' : IQueue} {store : List Pcb}
    {current : Option ℕ} {log : List LogLine} {signals : List Signal}
    → Sound algorithm queue store current log signals
    → (pcb : Pcb) {p : ℤ} → Added queue (length store) p queue'
    → Sound algorithm queue' (store ++ pcb ∷ []) current log signals
receive-Sound {algorithm} {queue} {queue'} {store} {current} sound pcb added =
    let size = length-append store (pcb ∷ []) in
    record {
      good = added.good;
      serves = added.serves algorithm sound.serves;
      within = rw size (
          added.within (length store + 1)
            (Within-weaken (length store) (length store + 1) queue (omega arith) sound.within)
            (omega arith));
      current_in = InStore-length (length store) _ current (omega (arith, size)) sound.current_in;
      at_front = added.at_front current sound.at_front;
      traced = rw (running-append store pcb current sound.current_in) sound.traced;
    }
