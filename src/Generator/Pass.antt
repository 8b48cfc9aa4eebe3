-- ===== src/Generator/Pass.antt =====
-- src/process_generator.c: the inner loop of create_processes, that sends the waiting processes.
use mathlib.Core.Path.{subst}
use mathlib.Core.List.{append_assoc, perm_middle}
use mathlib.Core.List.Perm
use os_scheduler.Base.{
  ℕ, zero, suc, ◌<◌, ◌≡◌, refl, ap, ◌∙◌, ◌⊎◌, inl, inr, Option, none, some, List, [], ◌∷◌, ◌++◌,
  arith, map, Perm, take, length, length-append, All,
}
use os_scheduler.Base.Int.{pos_part}
use os_scheduler.Base.Outcome.{Ends, ends, Ends-bind, Ends-weaken}
use os_scheduler.Pcb.{Process, Pcb}
use os_scheduler.Buddy.{Place}
use os_scheduler.MemoryManager.{MemoryManager, get_smallest_block, get_oldest_fit}
use os_scheduler.MemoryManager.Release.{Waits, OldestFit, get_oldest_fit_correct}
use os_scheduler.Generator.{Generator, System, send_waiting}
use os_scheduler.Generator.Assign.{IsGood, IsMalloc}
use os_scheduler.Generator.Admit.{Tried, failures, send_waited_correct}

abbrev pub IsSized : Process → Type 0
IsSized process = 0 < pos_part process.memory_size

-- Lost, sent or waiting.
abbrev pub known : (lost : List Process) → List Pcb → List Process → List Process
known lost messages waiting_list = lost ++ (map (λ (p : Pcb). p.process) messages ++ waiting_list)

-- Each process up to `i` has been sent once, waits once, or is one of the lost, of which there are as
-- many as calls of fork and msgsnd that failed.
pub record Holds (system : System) (process_list : List Process) (s : Generator) : Type 0 where
  pub good : IsGood s.manager
  pub sized : All IsSized s.waiting_list
  pub lost : List Process
  pub counted : length lost ≡ failures system s.forks
  pub accounts : Perm (known lost s.messages s.waiting_list) (take s.i process_list)

-- The two answers of get_oldest_fit.
pub record Chosen (m : MemoryManager) (waiting_list : List Process)
    (r : Option Process × List Process) : Type 0 where
  pub before : List Process
  pub after : List Process
  pub process : Process
  pub place : Place
  pub listed : waiting_list ≡ before ++ process ∷ after
  pub answer : r ≡ (some process, before ++ after)
  pub found : get_smallest_block m process ≡ some place

OldestFit-cases :
    (m : MemoryManager) (waiting_list : List Process) (r : Option Process × List Process)
    → OldestFit m waiting_list r
    → ((r ≡ (none, waiting_list)) × All (Waits m) waiting_list) ⊎ Chosen m waiting_list r
OldestFit-cases m waiting_list r (OldestFit.none_fits all) = inl (refl, all)
OldestFit-cases m waiting_list r (OldestFit.fits before after process block listed left _ found) =
    inr (record {
      before = before;
      after = after;
      process = process;
      place = block;
      listed = listed;
      answer = ap (λ l. (some process, l)) left;
      found = found;
    })

moved :
    (sent before after : List Process) (process : Process)
    → Perm (process ∷ (sent ++ (before ++ after))) (sent ++ (before ++ process ∷ after))
moved sent before after process = rw⁻¹ (append_assoc sent before after) (
    rw⁻¹ (append_assoc sent before (process ∷ after))
      (Perm.symm (perm_middle (sent ++ before) after)))

-- The process leaves the waiting list.
pub moved_known :
    (lost : List Process) (messages : List Pcb) (before after : List Process) (process : Process)
    → Perm
        (process ∷ known lost messages (before ++ after))
        (known lost messages (before ++ process ∷ after))
moved_known lost messages before after process =
    let sent = map (λ (p : Pcb). p.process) messages in
    rw⁻¹
      (append_assoc lost sent (before ++ after), append_assoc lost sent (before ++ process ∷ after))
      (moved (lost ++ sent) before after process)

-- What one call of fork_and_send makes of a process that is known.
pub Tried-known :
    (system : System) (s s' : Generator) (process : Process) (lost all : List Process)
    → Tried system s process s'
    → length lost ≡ failures system s.forks
    → Perm (process ∷ known lost s.messages s.waiting_list) all
    → (lost' : List Process) × (length lost' ≡ failures system s'.forks)
      × Perm (known lost' s'.messages s'.waiting_list) all
Tried-known system s s' process lost all tried counted listed = elim tried.outcome [
  | inl (worked, pcb, messages, is) ↦
      let sent = map (λ (p : Pcb). p.process) s.messages in
      (
        lost,
        rw (tried.one_fork, failures, worked) counted,
        rw (messages, is, tried.same_waiting)
            (Perm.trans (perm_middle lost (sent ++ s.waiting_list)) listed),
      )
  | inr (failed, messages) ↦ (
    process ∷ lost,
    rw (tried.one_fork, failures, failed) (ap suc counted),
    rw (messages, tried.same_waiting) listed,
  )
]

All-without :
    (before after : List Process) (process : Process)
    → All IsSized (before ++ process ∷ after)
    → IsSized process × All IsSized (before ++ after)
All-without [] after process all = all
All-without (x ∷ before) after process all =
    let (one, rest) = All-without before after process all.1 in (one, (all.0, rest))

-- One process is chosen and tried.
Tried-Holds :
    (system : System) (process_list : List Process) (s s' : Generator)
    (c : Chosen s.manager s.waiting_list (get_oldest_fit s.manager s.waiting_list))
    → Holds system process_list s
    → Tried system (record s { waiting_list = c.before ++ c.after }) c.process s'
    → Holds system process_list s'
Tried-Holds system process_list s s' c v tried =
    let sized = (All-without c.before c.after c.process (rw c.listed at v.sized)).1 in
    let before : Perm (known v.lost s.messages (c.before ++ c.process ∷ c.after))
        (take s.i process_list) =
      subst (λ w. Perm (known v.lost s.messages w) (take s.i process_list)) c.listed v.accounts in
    let (lost, counted, accounts) =
      Tried-known system _ s' c.process v.lost (take s.i process_list) tried v.counted
        (Perm.trans (moved_known v.lost s.messages c.before c.after c.process) before) in
    record {
      good = tried.good;
      sized = rw tried.same_waiting sized;
      lost = lost;
      counted = counted;
      accounts = rw tried.same_i accounts;
    }

-- What the loop over the waiting list leaves.
pub record Passed (system : System) (process_list : List Process) (s s' : Generator) : Type 0 where
  pub holds : Holds system process_list s'
  pub same_i : s'.i ≡ s.i
  pub same_processed : s'.processed ≡ s.processed
  pub none_fits : All (Waits s'.manager) s'.waiting_list

module _ (system : System) (ok : IsMalloc system.malloc) (process_list : List Process) where
  pub send_waiting_correct :
      (fuel : ℕ) (s : Generator)
      → Holds system process_list s
      → length s.waiting_list < fuel
      → Ends (Passed system process_list s) (send_waiting system fuel s)
  unfolding send_waiting
  send_waiting_correct zero s v enough = absurd (omega arith)
  send_waiting_correct (suc fuel) s v enough =
      elim (OldestFit-cases s.manager s.waiting_list _
        (get_oldest_fit_correct s.manager s.waiting_list)) [
          | inl (answer, all) ↦
              let left = ap (λ r. r.1) answer in
              rw (ap (λ r. r.0) answer, send_waiting)
                (ends (record {
                  holds = record {
                    good = v.good;
                    sized = rw left v.sized;
                    lost = v.lost;
                    counted = v.counted;
                    accounts = rw left v.accounts;
                  };
                  same_i = refl;
                  same_processed = refl;
                  none_fits = rw left all;
                }))
          | inr c ↦
              let t : Generator = record s { waiting_list = c.before ++ c.after } in
              let positive = (All-without c.before c.after c.process (rw c.listed at v.sized)).0 in
              rw (ap (λ r. r.0) c.answer, ap (λ r. r.1) c.answer, send_waiting)
                (Ends-bind
                  (send_waited_correct system ok t c.process c.place v.good positive c.found)
                  λ s' (sent, _).
                    Ends-weaken
                      (send_waiting_correct fuel s' (Tried-Holds system process_list s s' c v sent)
                        (omega (
                          arith,
                          ap length sent.same_waiting,
                          ap length c.listed,
                          length-append c.before (c.process ∷ c.after),
                          length-append c.before c.after,
                          enough,
                        )))
                      λ s'' p. record {
                        holds = p.holds;
                        same_i = p.same_i ∙ sent.same_i;
                        same_processed = p.same_processed ∙ sent.same_processed;
                        none_fits = p.none_fits;
                      })
        ]
