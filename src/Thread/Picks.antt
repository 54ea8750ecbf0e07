-- ===== src/Thread/Picks.antt =====
-- Which thread the first loop of `select_next_thread` of kernel/thread.c picks.
use mathlib.Core.Path.{subst}
use azalea.Prelude.{
  ℕ, ◌≤◌, ◌<◌, ◌≡◌, refl, sym, ap, ◌∙◌, Bool, true, not, ◌&&◌, Option, none, some, Bool-cases,
  Option-cases, ◌⊎◌, inl, inr, List, [], ◌∷◌, ◌==◌, ==_refl, ==-ne, leb, if◌then◌else◌, arith,
}
use azalea.Thread.{core_is_allowed}
use azalea.Thread.State.{Tcb, Sched, has_flag, intention_exited, intention_blocked}
use azalea.Thread.Lists.{times}
use azalea.Thread.Placed.{processors, IsSched, times-le-sum}
use azalea.Thread.Select.{
  visit, consider, exit_runnable, refill, scan_runnable, Scan, idle, go_on, available_next,
  select_scanned, select_from, select_next_thread,
}
use azalea.Thread.Moves.{runnable-IsWork}
use azalea.Thread.Visits.{visit-IsRound, visit-idle}
use azalea.Thread.Scans.{scan_runnable-induction}

-- A thread that may be picked: it has no request, is ready with a part of its slice left, and may
-- run on the core.
unfoldable pub may_run : ℕ → Tcb → Bool
may_run cid tcb =
    not (has_flag tcb.intention intention_exited)
    && not (has_flag tcb.intention intention_blocked)
    && available_next tcb
    && core_is_allowed tcb.core_mask cid

-- The first of a list that may be picked.
unfoldable pub first_that_may_run : ℕ → Sched → List ℕ → Option ℕ
first_that_may_run cid s [] = none
first_that_may_run cid s (t ∷ l) =
    if may_run cid (s.tcb t) then some t else first_that_may_run cid s l

-- What is found when the first of two lists is looked at before the second.
abbrev or_else : Option ℕ → Option ℕ → Option ℕ
or_else none o = o
or_else (some t) o = some t

or_else-none : (o : Option ℕ) → or_else o none ≡ o
or_else-none none = refl
or_else-none (some t) = refl

or_else_assoc : (o p q : Option ℕ) → or_else (or_else o p) q ≡ or_else o (or_else p q)
or_else_assoc none p q = refl
or_else_assoc (some t) p q = refl

-- What a round finds.
consider-found :
    (cpu cid : ℕ) (free : Bool) (found : Option ℕ) (s : Sched) (t : ℕ)
    → (consider cpu cid free found s t).0
      ≡ or_else found (
          if available_next (s.tcb t) && core_is_allowed (s.tcb t).core_mask cid
          then some t
          else none)
unfolding consider
consider-found cpu cid free found s t = elim (Bool-cases (available_next (s.tcb t))) [
  | inr e ↦ rw e (sym (or_else-none found))
  | inl e ↦ rw e (elim (Bool-cases (core_is_allowed (s.tcb t).core_mask cid)) [
    | inl allowed ↦
        rw allowed (elim (Option-cases found) [ inl n ↦ rw n refl | inr (u, o) ↦ rw o refl ])
    | inr other ↦ rw other (elim (Bool-cases free) [
      | inl f ↦ rw f (sym (or_else-none found))
      | inr f ↦ rw f (sym (or_else-none found))
    ])
  ])
]

visit-found :
    (cpu cid : ℕ) (free : Bool) (found found' : Option ℕ) (s s' : Sched) (t : ℕ)
    → visit cpu cid free found s t ≡ some (go_on found' s')
    → found' ≡ or_else found (if may_run cid (s.tcb t) then some t else none)
unfolding visit may_run
visit-found cpu cid free found found' s s' t e =
    elim (Bool-cases (has_flag (s.tcb t).intention intention_exited)) [
      | inl x ↦ rw x (elim (Bool-cases (s.running_thread cpu == t)) [
        | inl r ↦ elim (Option-cases (refill s cid)) [
          | inl n ↦ absurd (grind arith)
          | inr (u, o) ↦ absurd (grind arith)
        ]
        | inr r ↦ elim (Option-cases (exit_runnable cpu free s t)) [
          | inl n ↦ absurd (grind arith)
          | inr (s1, o) ↦ rw (or_else-none found) (grind arith)
        ]
      ])
      | inr x ↦ rw x (elim (Bool-cases (has_flag (s.tcb t).intention intention_blocked)) [
        | inl b ↦ rw b (rw (or_else-none found) (grind arith))
        | inr b ↦
            let same : found' ≡ (consider cpu cid free found s t).0 = grind arith in
            rw b (same ∙ consider-found cpu cid free found s t)
      ])
    ]

first-same :
    (cid : ℕ) (s s' : Sched) (l : List ℕ)
    → ((u : ℕ) → 1 ≤ times u l → s'.tcb u ≡ s.tcb u)
    → first_that_may_run cid s' l ≡ first_that_may_run cid s l
unfolding first_that_may_run
first-same cid s s' [] h = refl
first-same cid s s' (t ∷ l) h =
    rw (h t (ground (arith, ==_refl t)))
      (rw (first-same cid s s' l (λ u q. h u (ground arith))) refl)

first-cons :
    (cid : ℕ) (s : Sched) (t : ℕ) (l : List ℕ)
    → first_that_may_run cid s (t ∷ l)
      ≡ or_else (if may_run cid (s.tcb t) then some t else none) (first_that_may_run cid s l)
unfolding first_that_may_run
first-cons cid s t l = elim (Bool-cases (may_run cid (s.tcb t))) [
  | inl e ↦ rw e refl
  | inr e ↦ rw e refl
]

-- What holds before each round of the loop: what is found at last is found already, or comes
-- first among the threads that are left, whose TCBs are still those of the beginning.
record IsLeft (cpu cid : ℕ) (s0 : Sched) (result : Option ℕ) (l : List ℕ) (found : Option ℕ)
    (s : Sched) : Type 0 where
  once : (u : ℕ) → times u l ≤ 1
  rest : (u : ℕ) → times u l ≤ times u (s.runnable_list cpu).tcb_list
  here : (u : ℕ) → times u l ≤ times u (s0.runnable_list cpu).tcb_list
  same : (u : ℕ) → 1 ≤ times u l → s.tcb u ≡ s0.tcb u
  found_at_last : or_else found (first_that_may_run cid s0 l) ≡ result

-- A thread of the processor's list is asked to exit.
unfoldable pub IsExiting : ℕ → Sched → ℕ → Type 0
IsExiting cpu s t =
    (1 ≤ times t (s.runnable_list cpu).tcb_list)
    × (has_flag (s.tcb t).intention intention_exited ≡ true)

unfoldable pub IsFound : ℕ → Sched → Option ℕ → Option Scan → Type 0
IsFound cpu s0 result none = Unit
IsFound cpu s0 result (some (idle s)) = (t : ℕ) × IsExiting cpu s0 t
IsFound cpu s0 result (some (go_on found s)) = found ≡ result

visit-IsLeft :
    (cpu cid : ℕ) (free : Bool) (s0 : Sched) (result : Option ℕ) (t : ℕ) (l : List ℕ)
    (found found' : Option ℕ) (s s' : Sched)
    → visit cpu cid free found s t ≡ some (go_on found' s')
    → IsLeft cpu cid s0 result (t ∷ l) found s
    → IsLeft cpu cid s0 result l found' s'
visit-IsLeft cpu cid free s0 result t l found found' s s' v h =
    let round =
      visit-IsRound cpu cid free found found' s s' t (ground (arith, h.rest t, ==_refl t)) v in
    let at : s.tcb t ≡ s0.tcb t = h.same t (ground (arith, ==_refl t)) in
    record {
      once = λ u. omega (arith, h.once u);
      rest = λ u. omega (arith, h.rest u, round.still u);
      here = λ u. omega (arith, h.here u);
      same = λ u q. elim (Bool-cases (t == u)) [
        | inl y ↦ absurd (ground (arith, h.once u))
        | inr n ↦ round.other u (λ e. ==-ne t u n (sym e)) ∙ h.same u (ground arith)
      ];
      found_at_last =
          rw (visit-found cpu cid free found found' s s' t v, at)
            (or_else_assoc found _ (first_that_may_run cid s0 l)
              ∙ ap (or_else found) (sym (first-cons cid s0 t l))
              ∙ h.found_at_last);
    }

pub scan_runnable-IsFound :
    (cpu cid : ℕ) (free : ℕ → Bool) (s : Sched)
    → ((u : ℕ) → times u (s.runnable_list cpu).tcb_list ≤ 1)
    → IsFound cpu s
        (first_that_may_run cid s (s.runnable_list cpu).tcb_list)
        (scan_runnable cpu cid free (s.runnable_list cpu).tcb_list none s)
unfolding IsFound IsExiting first_that_may_run
scan_runnable-IsFound cpu cid free s once =
    let result = first_that_may_run cid s (s.runnable_list cpu).tcb_list in
    scan_runnable-induction cpu cid free (IsLeft cpu cid s result) (IsFound cpu s result)
      (λ t l found found' s1 s2 v h.
        visit-IsLeft cpu cid (free t) s result t l found found' s1 s2 v h)
      (λ found s1 h. sym (or_else-none found) ∙ h.found_at_last)
      (λ t l found s1 s2 v h. (
        t,
        (
          ground (arith, h.here t, ==_refl t),
          subst (λ tcb. has_flag tcb.intention intention_exited ≡ true)
              (h.same t (ground (arith, ==_refl t)))
              (visit-idle cpu cid (free t) found s1 s2 t v).0,
        ),
      ))
      (λ t l found s1 v h. tt) (s.runnable_list cpu).tcb_list none s
      (record {
        once = once;
        rest = λ u. omega arith;
        here = λ u. omega arith;
        same = λ u q. refl;
        found_at_last = refl;
      })

-- No thread stands twice in the list of a processor.
once-runnable :
    (cpu : ℕ) (s : Sched)
    → cpu < processors
    → IsSched s
    → (u : ℕ) → times u (s.runnable_list cpu).tcb_list ≤ 1
once-runnable cpu s hc i u = elim (Bool-cases (leb 1 (times u (s.runnable_list cpu).tcb_list))) [
  | inl e ↦ omega (
    arith,
    (runnable-IsWork s cpu u hc i (ground arith)).work,
    times-le-sum s.runnable_list cpu u processors hc,
  )
  | inr e ↦ ground arith
]

scanned-first :
    (cpu cid u t : ℕ) (s s' : Sched) (again : Sched → Option (ℕ × Sched)) (v : Option Scan)
    → IsFound cpu s (some u) v
    → select_scanned cpu cid v again ≡ some (t, s')
    → (t ≡ u) ⊎ ((t ≡ cid) × (x : ℕ) × IsExiting cpu s x)
unfolding IsFound select_scanned
scanned-first cpu cid u t s s' again none f e = absurd (grind arith)
scanned-first cpu cid u t s s' again (some (idle s1)) f e = inr (grind arith, f.0, f.1)
scanned-first cpu cid u t s s' again (some (go_on none s1)) f e = absurd (grind arith)
scanned-first cpu cid u t s s' again (some (go_on (some w) s1)) f e = inl (grind arith)

-- When the lists are in order and a thread of the processor's list may run (it is asked neither to
-- exit nor to block, is ready, has a part of its slice left and may run on the core), the thread
-- that `select_next_thread` gives is the first such thread of the list as it was before the call,
-- or the core's idle thread while a thread of the list is asked to exit.
pub select_next_thread-first :
    (cpu u t : ℕ) (free : ℕ → ℕ → Bool) (s s' : Sched)
    → cpu < processors
    → IsSched s
    → first_that_may_run
        (s.tcb (s.running_thread cpu)).running_core
        s
        (s.runnable_list cpu).tcb_list
      ≡ some u
    → select_next_thread cpu free s ≡ some (t, s')
    → (t ≡ u) ⊎ ((t ≡ (s.tcb (s.running_thread cpu)).running_core) × (x : ℕ) × IsExiting cpu s x)
unfolding select_next_thread select_from
select_next_thread-first cpu u t free s s' hc i h e =
    let cid = (s.tcb (s.running_thread cpu)).running_core in
    let found = scan_runnable-IsFound cpu cid (free 1) s (once-runnable cpu s hc i) in
    scanned-first cpu cid u t s s' _ _
      (subst
        (λ o.
          IsFound cpu s o (scan_runnable cpu cid (free 1) (s.runnable_list cpu).tcb_list none s))
        h found)
      e
