-- ===== src/Thread/Scans.antt =====
-- The loops of `select_next_thread` of kernel/thread.c.
use mathlib.Core.Path.{subst}
use azalea.Prelude.{
  ℕ, ◌≤◌, ◌<◌, ◌≡◌, ◌≢◌, refl, sym, ap, Bool, Option, none, some, Bool-cases, Option-cases, inl,
  inr, List, [], ◌∷◌, ◌==◌, ==_refl, ℤ, pos, negsuc, sub_nat, is_positive, arith,
}
use azalea.Thread.State.{
  exited, Tcb, Sched, infinite_time_quantum, has_flag, intention_exited, intention_blocked,
}
use azalea.Thread.Lists.{times}
use azalea.Thread.Placed.{processors, in_free, in_work, in_wait, IsSched}
use azalea.Thread.Tcbs.{put_tcb, thread_exit}
use azalea.Thread.Select.{
  visit, exit_runnable, scan_runnable, scan_rest, Scan, idle, go_on, refill_quantum,
  refill_time_slice, refill,
}
use azalea.Thread.Moves.{set_tcb-IsSched}
use azalea.Thread.Visits.{IsRound, visit-IsRound, visit-idle}

-- The state that the first loop leaves.
abbrev pub scanned : Scan → Sched
scanned (idle s) = s
scanned (go_on found s) = s

-- A refill writes two fields.
refill_quantum-same :
    (tcb tcb' : Tcb) (z : ℤ)
    → refill_quantum tcb z ≡ some tcb'
    → (q : ℤ × ℤ) × (record tcb { remaining_time_quantum = q.0; remaining_time_slice = q.1 } ≡ tcb')
refill_quantum-same tcb tcb' (pos q) e = ((pos q, pos tcb.time_slice), grind arith)
refill_quantum-same tcb tcb' (negsuc q) e = absurd (grind arith)

refill_time_slice-same :
    (tcb tcb' : Tcb)
    → refill_time_slice tcb ≡ some tcb'
    → (q : ℤ × ℤ) × (record tcb { remaining_time_quantum = q.0; remaining_time_slice = q.1 } ≡ tcb')
unfolding refill_time_slice
refill_time_slice-same tcb tcb' e = elim (Bool-cases (is_positive tcb.remaining_time_slice)) [
  | inl p ↦ ((tcb.remaining_time_quantum, tcb.remaining_time_slice), grind arith)
  | inr p ↦ elim (Bool-cases (tcb.time_quantum == infinite_time_quantum)) [
    | inl z ↦ ((tcb.remaining_time_quantum, pos tcb.time_slice), grind arith)
    | inr z ↦
        refill_quantum-same tcb tcb' (sub_nat tcb.remaining_time_quantum tcb.time_slice)
          (grind arith)
  ]
]

pub refill_time_slice-state :
    (tcb tcb' : Tcb) → refill_time_slice tcb ≡ some tcb' → tcb'.state ≡ tcb.state
refill_time_slice-state tcb tcb' e = ap (λ x. x.state) (sym (refill_time_slice-same tcb tcb' e).1)

pub refill-IsSched : (s s' : Sched) (t : ℕ) → IsSched s → refill s t ≡ some s' → IsSched s'
unfolding refill
refill-IsSched s s' t i e = elim (Option-cases (refill_time_slice (s.tcb t))) [
  | inl n ↦ absurd (grind arith)
  | inr (tcb, o) ↦
      let q = refill_time_slice-state (s.tcb t) tcb o in
      subst (λ s. IsSched s) (grind arith)
        (set_tcb-IsSched s t tcb (ap in_free q) (ap in_work q) (ap in_wait q) i)
]

-- What each round keeps holds when the loop ends.
module _ {ℓ} (cpu cid : ℕ) (free : ℕ → Bool) (Inv : List ℕ → Option ℕ → Sched → Type ℓ)
    (End : Option Scan → Type ℓ)
    (step : (t : ℕ) (l : List ℕ) (found found' : Option ℕ) (s s' : Sched)
      → visit cpu cid (free t) found s t ≡ some (go_on found' s')
      → Inv (t ∷ l) found s
      → Inv l found' s')
    (done : (found : Option ℕ) (s : Sched) → Inv [] found s → End (some (go_on found s)))
    (stop : (t : ℕ) (l : List ℕ) (found : Option ℕ) (s s' : Sched)
      → visit cpu cid (free t) found s t ≡ some (idle s')
      → Inv (t ∷ l) found s
      → End (some (idle s')))
    (halt : (t : ℕ) (l : List ℕ) (found : Option ℕ) (s : Sched)
      → visit cpu cid (free t) found s t ≡ none
      → Inv (t ∷ l) found s
      → End none) where
  scan_rest-induction :
      (t : ℕ) (l : List ℕ) (found : Option ℕ) (s : Sched) (v : Option Scan)
      → ((found : Option ℕ) (s : Sched)
          → Inv l found s
          → End (scan_runnable cpu cid free l found s))
      → visit cpu cid (free t) found s t ≡ v
      → Inv (t ∷ l) found s
      → End (scan_rest v (λ found s. scan_runnable cpu cid free l found s))
  unfolding scan_rest
  scan_rest-induction t l found s none rest v i = halt t l found s v i
  scan_rest-induction t l found s (some (idle s')) rest v i = stop t l found s s' v i
  scan_rest-induction t l found s (some (go_on found' s')) rest v i =
      rest found' s' (step t l found found' s s' v i)

  pub scan_runnable-induction :
      (l : List ℕ) (found : Option ℕ) (s : Sched)
      → Inv l found s
      → End (scan_runnable cpu cid free l found s)
  unfolding scan_runnable
  scan_runnable-induction [] found s i = done found s i
  scan_runnable-induction (t ∷ l) found s i =
      scan_rest-induction t l found s _ (λ found s. scan_runnable-induction l found s) refl i

-- The loop always ends when every thread has an unlimited quantum, as `alloc_tcb` gives it.
unfoldable pub IsUnlimited : Sched → Type 0
IsUnlimited s =
    (t : ℕ) → ((s.tcb t).time_quantum ≡ infinite_time_quantum) × (1 ≤ (s.tcb t).time_slice)

pub refill_time_slice-some :
    (tcb : Tcb) → tcb.time_quantum ≡ infinite_time_quantum → refill_time_slice tcb ≢ none
unfolding refill_time_slice
refill_time_slice-some tcb z e = elim (Bool-cases (is_positive tcb.remaining_time_slice)) [
  | inl p ↦ grind arith
  | inr p ↦ grind arith
]

pub refill-some :
    (s : Sched) (t : ℕ) → (s.tcb t).time_quantum ≡ infinite_time_quantum → refill s t ≢ none
unfolding refill
refill-some s t z e = elim (Option-cases (refill_time_slice (s.tcb t))) [
  | inl n ↦ refill_time_slice-some (s.tcb t) z n
  | inr (tcb, o) ↦ grind arith
]

pub put_tcb-some :
    (cpu : ℕ) (free : Bool) (s : Sched) (t : ℕ)
    → (s.tcb t).state ≡ exited
    → put_tcb cpu free s t ≢ none
unfolding put_tcb
put_tcb-some cpu free s t x e = elim (Bool-cases ((s.tcb t).refc == 1)) [
  | inl p ↦ grind arith
  | inr p ↦ grind arith
]

pub exit_runnable-some :
    (cpu : ℕ) (free : Bool) (s : Sched) (t : ℕ) → exit_runnable cpu free s t ≢ none
unfolding exit_runnable thread_exit
exit_runnable-some cpu free s t = put_tcb-some cpu free _ t (rw (==_refl t) refl)

visit-some :
    (cpu cid : ℕ) (free : Bool) (found : Option ℕ) (s : Sched) (t : ℕ)
    → (s.tcb cid).time_quantum ≡ infinite_time_quantum
    → visit cpu cid free found s t ≢ none
unfolding visit
visit-some cpu cid free found s t z e =
    elim (Bool-cases (has_flag (s.tcb t).intention intention_exited)) [
      | inl x ↦ elim (Bool-cases (s.running_thread cpu == t)) [
        | inl r ↦ elim (Option-cases (refill s cid)) [
          | inl n ↦ refill-some s cid z n
          | inr (u, o) ↦ grind arith
        ]
        | inr r ↦ elim (Option-cases (exit_runnable cpu free s t)) [
          | inl n ↦ exit_runnable-some cpu free s t n
          | inr (s1, o) ↦ grind arith
        ]
      ]
      | inr x ↦ elim (Bool-cases (has_flag (s.tcb t).intention intention_blocked)) [
        | inl b ↦ grind arith
        | inr b ↦ grind arith
      ]
    ]

-- What the first loop gives: a state in order, and what each round keeps if it was not left early.
unfoldable pub IsEnd : (Sched → Type 0) → Option Scan → Type 0
IsEnd Kept none = ⊥
IsEnd Kept (some (idle s)) = IsSched s
IsEnd Kept (some (go_on found s)) = IsSched s × Kept s

-- The threads that the loop has before it are in the list of the processor.
IsRest : ℕ → (Sched → Type 0) → List ℕ → Option ℕ → Sched → Type 0
IsRest cpu Kept l found s =
    IsSched s × Kept s × ((u : ℕ) → times u l ≤ times u (s.runnable_list cpu).tcb_list)

pub scan_runnable-IsEnd :
    (cpu cid : ℕ) (free : ℕ → Bool) (s : Sched) (Kept : Sched → Type 0)
    → ((t : ℕ) (s s' : Sched) → IsRound cpu t s s' → Kept s → Kept s')
    → ((s : Sched) → Kept s → IsUnlimited s)
    → cpu < processors
    → IsSched s
    → Kept s
    → IsEnd Kept (scan_runnable cpu cid free (s.runnable_list cpu).tcb_list none s)
unfolding IsRest IsEnd IsUnlimited
scan_runnable-IsEnd cpu cid free s Kept keep unlimited hc i k =
    scan_runnable-induction cpu cid free (IsRest cpu Kept) (IsEnd Kept)
      (λ t l found found' s s' v j.
        let round =
          visit-IsRound cpu cid (free t) found found' s s' t (ground (arith, j.2 t, ==_refl t)) v in
        (round.sched hc j.0, keep t s s' round j.1, λ u. omega (arith, j.2 u, round.still u)))
      (λ found s j. (j.0, j.1))
      (λ t l found s s' v j.
        refill-IsSched s s' cid j.0 (visit-idle cpu cid (free t) found s s' t v).2)
      (λ t l found s v j. visit-some cpu cid (free t) found s t (unlimited s j.1 cid).0 v)
      (s.runnable_list cpu).tcb_list none s (i, k, λ u. omega arith)
