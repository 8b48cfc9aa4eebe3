-- ===== src/Generator/Arrive.antt =====
-- src/process_generator.c: the process that arrives, and a whole pass of the outer loop of create_processes.
use mathlib.Core.Path.{subst}
use mathlib.Core.List.{append-nil}
use mathlib.Core.List.Perm
use os_scheduler.Base.{
  ℕ, zero, suc, ◌+◌, ◌≡◌, refl, ap, ◌∙◌, inl, inr, Bool, ◌||◌, Option, none, some, List, [], ◌∷◌,
  ◌++◌, arith, Perm, take, length, get_elem?, All, Bool-cases, Option-cases, snoc-perm, ◌==◌,
}
use os_scheduler.Base.Int.{pos_part, eq_ℤ}
use os_scheduler.Base.Outcome.{done, ◌>>=◌, Ends, ends, Ends-bind, Ends-weaken}
use os_scheduler.Pcb.{Process, Pcb}
use os_scheduler.Generator.{
  Generator, System, fork_and_send, admit, send_arrived, generator_pass, is_marked,
}
use os_scheduler.Generator.Assign.{IsMalloc, Got, Taken-Stands, allocate_correct}
use os_scheduler.Generator.Admit.{Tried, Tried-after, fork_and_send_correct}
use os_scheduler.Generator.Pass.{
  IsSized, known, moved_known, Tried-known, Holds, send_waiting_correct,
}

some_head : (y x : Process) → some y ≡ some x → y ≡ x
some_head y x e = cc e

plus_one : (i : ℕ) → i + 1 ≡ suc i
plus_one i = omega arith

take-next :
    (xs : List Process) (i : ℕ) (x : Process)
    → get_elem? xs i ≡ some x
    → take (suc i) xs ≡ take i xs ++ x ∷ []
take-next [] i x there = absurd (cc there)
take-next (y ∷ xs) zero x there = ap (λ z. z ∷ []) (some_head y x there)
take-next (y ∷ xs) (suc i) x there = ap (◌∷◌ y) (take-next xs i x there)

All-get_elem? :
    (xs : List Process) (i : ℕ) (x : Process) → get_elem? xs i ≡ some x → All IsSized xs → IsSized x
All-get_elem? [] i x there all = absurd (cc there)
All-get_elem? (y ∷ xs) zero x there all = subst IsSized (some_head y x there) all.0
All-get_elem? (y ∷ xs) (suc i) x there all = All-get_elem? xs i x there all.1

All-snoc :
    (xs : List Process) (x : Process) → All IsSized xs → IsSized x → All IsSized (xs ++ x ∷ [])
All-snoc [] x all one = (one, tt)
All-snoc (y ∷ xs) x all one = (all.0, All-snoc xs x all.1 one)

module _ (system : System) (ok : IsMalloc system.malloc) (process_list : List Process)
    (sized : All IsSized process_list) where
  -- One more process is known.
  one_more :
      (i : ℕ) (process : Process) (before after : List Process)
      → get_elem? process_list i ≡ some process
      → Perm before (take i process_list)
      → Perm after (process ∷ before)
      → Perm after (take (i + 1) process_list)
  one_more i process before after there accounts added =
      let next : take (i + 1) process_list ≡ take i process_list ++ process ∷ [] =
        ap (λ n. take n process_list) (plus_one i) ∙ take-next process_list i process there in
      rw next (
        Perm.trans added (
          Perm.trans (Perm.cons process accounts)
            (Perm.symm (snoc-perm (take i process_list) process))))

  waits-known :
      (lost : List Process) (messages : List Pcb) (waiting_list : List Process) (process : Process)
      → Perm
          (known lost messages (waiting_list ++ process ∷ []))
          (process ∷ known lost messages waiting_list)
  waits-known lost messages waiting_list process =
      let whole =
        rw (append-nil waiting_list) at (moved_known lost messages waiting_list [] process) in
      Perm.symm whole

  module _ (s : Generator) (process : Process) (there : get_elem? process_list s.i ≡ some process)
      (v : Holds system process_list s) where
    abbrev marked : ℕ → Bool
    marked = λ j. j == s.i || s.processed j

    waits-Holds :
        (t : Generator)
        → Got (record s { processed = marked }) (pos_part process.memory_size) (none, t)
        → Holds system process_list
            (record t { waiting_list = t.waiting_list ++ process ∷ []; i = s.i + 1 })
    waits-Holds t got =
        let messages : t.messages ≡ s.messages = ap (λ g. g.messages) got.rest in
        let waiting : t.waiting_list ≡ s.waiting_list = ap (λ g. g.waiting_list) got.rest in
        record {
          good = got.good;
          sized = rw waiting (
              All-snoc s.waiting_list process v.sized
                (All-get_elem? process_list s.i process there sized));
          lost = v.lost;
          counted = rw (ap (λ g. g.forks) got.rest) v.counted;
          accounts =
              rw (messages, waiting)
                (one_more s.i process (known v.lost s.messages s.waiting_list) _ there v.accounts
                  (waits-known v.lost s.messages s.waiting_list process));
        }

    Tried-Holds :
        (u : Generator)
        → Tried system (record s { processed = marked }) process u
        → Holds system process_list (record u { i = s.i + 1 })
    Tried-Holds u tried =
        let (lost, counted, accounts) =
          Tried-known system _ u process v.lost (take (s.i + 1) process_list) tried v.counted (
            one_more s.i process (known v.lost s.messages s.waiting_list) _ there v.accounts
              (Perm.refl _)) in
        record {
          good = tried.good;
          sized = rw tried.same_waiting v.sized;
          lost = lost;
          counted = counted;
          accounts = accounts;
        }

    admitted :
        (block : Option ℕ) (t : Generator)
        → Got (record s { processed = marked }) (pos_part process.memory_size) (block, t)
        → Ends
            (λ s'. Holds system process_list s' × (s'.i ≡ s.i + 1))
            (elim block [
              | none ↦
                  done (record t { waiting_list = t.waiting_list ++ process ∷ []; i = s.i + 1 })
              | some b ↦
                  fork_and_send system t process (some b) >>= λ u. done (record u { i = s.i + 1 })
            ])
    admitted none t got = ends (waits-Holds t got, refl)
    admitted (some b) t got =
        Ends-bind
          (fork_and_send_correct system ok t process b got.good (Taken-Stands _ _ b _ got.block))
          λ u (tried, _).
            ends (Tried-Holds u (Tried-after system _ t u process got.rest tried), refl)

    -- The process at `i` is tried, or put at the end of the waiting list.
    pub admit_correct :
        Ends (λ s'. Holds system process_list s' × (s'.i ≡ s.i + 1)) (admit system s process)
    unfolding admit
    admit_correct =
        let one = All-get_elem? process_list s.i process there sized in
        Ends-bind (allocate_correct system ok (record s { processed = marked }) process v.good one)
          λ r got. admitted r.0 r.1 got

  send_arrived_correct :
      (s : Generator)
      → Holds system process_list s
      → Ends (Holds system process_list) (send_arrived system process_list s)
  unfolding send_arrived
  send_arrived_correct s v = elim (Option-cases (get_elem? process_list s.i)) [
    | inl e ↦ rw (e, send_arrived) (ends v)
    | inr (process, e) ↦
        let read : Generator = record s { reads = s.reads + 1 } in
        let holds : Holds system process_list read = record {
          good = v.good;
          sized = v.sized;
          lost = v.lost;
          counted = v.counted;
          accounts = v.accounts;
        } in
        rw (e, send_arrived)
          (elim (Bool-cases (eq_ℤ (system.clock s.reads) process.arrival_time)) [
            | inr early ↦ rw early (ends holds)
            | inl now ↦ elim (Bool-cases (is_marked s)) [
              | inl again ↦ rw (now, again) (ends holds)
              | inr new ↦
                  rw (now, new) (Ends-weaken (admit_correct read process e holds) λ s' h. h.0)
            ]
          ])
  ]

  pub generator_pass_correct :
      (s : Generator)
      → Holds system process_list s
      → Ends
          (Holds system process_list)
          (generator_pass system process_list (suc (length s.waiting_list)) s)
  unfolding generator_pass
  generator_pass_correct s v =
      Ends-bind
        (send_waiting_correct system ok process_list (suc (length s.waiting_list)) s v
          (omega arith))
        λ s' p. send_arrived_correct s' p.holds
