-- ===== src/Thread/Chosen.antt =====
-- What `select_next_thread` of kernel/thread.c comes to: it always ends, and keeps the lists in
-- order.
use mathlib.Core.Path.{subst}
use azalea.Prelude.{
  ℕ, suc, ◌≤◌, ◌<◌, ◌≡◌, ◌≢◌, refl, sym, ap, ◌∙◌, Bool, true, false, Option, none, some, Bool-cases,
  Option-cases, inl, inr, List, [], ◌∷◌, ◌==◌, ==_iff, ==_refl, ==-ne, pos, is_positive, arith,
}
use azalea.Thread.State.{Tcb, Sched, infinite_time_quantum}
use azalea.Thread.Lists.{times, length}
use azalea.Thread.Placed.{processors, in_free, in_work, in_wait, IsSched}
use azalea.Thread.Select.{
  Scan, idle, go_on, wants_refill, refill_time_slice, refill, refill_all, first, fall_back,
  select_refilled, select_scanned, select_from, select_next_thread,
}
use azalea.Thread.Moves.{set_tcb-IsSched}
use azalea.Thread.Visits.{IsRound}
use azalea.Thread.Scans.{
  IsUnlimited, IsEnd, scan_runnable-IsEnd, refill-some, refill_time_slice-state,
  refill_time_slice-some,
}

-- No thread of the processor's list has to be refilled.
pub IsFilled : ℕ → Sched → Type 0
IsFilled cpu s =
    (t : ℕ) → 1 ≤ times t (s.runnable_list cpu).tcb_list → wants_refill (s.tcb t) ≡ false

round-IsUnlimited : (cpu t : ℕ) (s s' : Sched) → IsRound cpu t s s' → IsUnlimited s → IsUnlimited s'
unfolding IsUnlimited
round-IsUnlimited cpu t s s' r h u = elim (Bool-cases (u == t)) [
  | inl e ↦
      subst (λ u. ((s'.tcb u).time_quantum ≡ 0) × (1 ≤ (s'.tcb u).time_slice))
        (sym ((==_iff u t).0 e)) (r.quantum ∙ (h t).0, ground (arith, r.slice, (h t).1))
  | inr n ↦ rw (r.other u (==-ne u t n)) (h u)
]

round-IsFilled : (cpu t : ℕ) (s s' : Sched) → IsRound cpu t s s' → IsFilled cpu s → IsFilled cpu s'
unfolding IsFilled
round-IsFilled cpu t s s' r h u at =
    let before = h u (ground (arith, r.fewer u)) in
    elim (Bool-cases (u == t)) [
      | inl e ↦
          subst (λ u. wants_refill (s'.tcb u) ≡ false) (sym ((==_iff u t).0 e))
            (r.full (subst (λ u. wants_refill (s.tcb u) ≡ false) ((==_iff u t).0 e) before))
      | inr n ↦ rw (r.other u (==-ne u t n)) before
    ]

refill_time_slice-full :
    (tcb tcb' : Tcb)
    → tcb.time_quantum ≡ infinite_time_quantum
    → 1 ≤ tcb.time_slice
    → refill_time_slice tcb ≡ some tcb'
    → (wants_refill tcb' ≡ false)
      × (tcb'.time_quantum ≡ tcb.time_quantum)
      × (tcb'.time_slice ≡ tcb.time_slice)
unfolding refill_time_slice
refill_time_slice-full tcb tcb' z h e =
    let Full = λ (tcb' : Tcb).
      (wants_refill tcb' ≡ false)
      × (tcb'.time_quantum ≡ tcb.time_quantum)
      × (tcb'.time_slice ≡ tcb.time_slice) in
    elim (Bool-cases (is_positive tcb.remaining_time_slice)) [
      | inl p ↦ let same : tcb ≡ tcb' = grind arith in subst Full same (ground arith, refl, refl)
      | inr p ↦
          let same : record tcb { remaining_time_slice = pos tcb.time_slice } ≡ tcb' =
            grind arith in
          subst Full same (ground (arith, h), refl, refl)
    ]

first-none : (l : List ℕ) → first l ≡ none → length l ≡ 0
first-none [] e = refl
first-none (t ∷ l) e = absurd (grind arith)

fall_back-some : (cpu cid : ℕ) (s : Sched) → IsSched s → fall_back cpu cid s ≢ none
unfolding fall_back
fall_back-some cpu cid s i e = elim (Bool-cases ((s.runnable_list cpu).count == 1)) [
  | inl one ↦
      ground (arith, i.runnable cpu, first-none (s.runnable_list cpu).tcb_list (grind arith))
  | inr o ↦ grind arith
]

unlimited-quantum :
    (s : Sched) (t : ℕ) → IsUnlimited s → (s.tcb t).time_quantum ≡ infinite_time_quantum
unfolding IsUnlimited
unlimited-quantum s t h = (h t).0

-- What one refill leaves.
record IsRefill (t : ℕ) (s s' : Sched) : Type 0 where
  sched : IsSched s → IsSched s'
  unlimited : IsUnlimited s → IsUnlimited s'
  list : s'.runnable_list ≡ s.runnable_list
  kept : (u : ℕ) → wants_refill (s.tcb u) ≡ false → wants_refill (s'.tcb u) ≡ false
  full : wants_refill (s'.tcb t) ≡ false

refill-IsRefill : (s s' : Sched) (t : ℕ) → IsUnlimited s → refill s t ≡ some s' → IsRefill t s s'
unfolding refill IsUnlimited
refill-IsRefill s s' t h e = elim (Option-cases (refill_time_slice (s.tcb t))) [
  | inl n ↦ absurd (refill_time_slice-some (s.tcb t) (h t).0 n)
  | inr (tcb, o) ↦
      let f = refill_time_slice-full (s.tcb t) tcb (h t).0 (h t).1 o in
      let same = refill_time_slice-state (s.tcb t) tcb o in
      subst (λ s'. IsRefill t s s') (grind arith)
        (record {
          sched =
              λ i. set_tcb-IsSched s t tcb (ap in_free same) (ap in_work same) (ap in_wait same) i;
          unlimited = λ h u. elim (Bool-cases (u == t)) [
            | inl y ↦ rw y (f.1 ∙ (h t).0, ground (arith, f.2, (h t).1))
            | inr n ↦ rw n (h u)
          ];
          list = refl;
          kept = λ u w. elim (Bool-cases (u == t)) [ inl y ↦ rw y f.0 | inr n ↦ rw n w ];
          full = rw (==_refl t) f.0;
        })
]

-- What the second loop leaves.
record IsRefilled (cpu : ℕ) (l : List ℕ) (s s' : Sched) : Type 0 where
  sched : IsSched s'
  unlimited : IsUnlimited s'
  list : s'.runnable_list ≡ s.runnable_list
  kept : (u : ℕ) → wants_refill (s.tcb u) ≡ false → wants_refill (s'.tcb u) ≡ false
  full : (u : ℕ) → 1 ≤ times u l → wants_refill (s'.tcb u) ≡ false

refill_all-IsRefilled :
    (cpu : ℕ) (l : List ℕ) (b : Bool) (s : Sched)
    → IsSched s
    → IsUnlimited s
    → (b' : Bool) × (s' : Sched) × (refill_all l b s ≡ some (b', s')) × IsRefilled cpu l s s'
unfolding refill_all
refill_all-IsRefilled cpu [] b s i h = (
  b,
  s,
  refl,
  record {
    sched = i;
    unlimited = h;
    list = refl;
    kept = λ u e. e;
    full = λ u e. absurd (omega arith);
  },
)
refill_all-IsRefilled cpu (t ∷ l) b s i h = elim (Bool-cases (wants_refill (s.tcb t))) [
  | inl w ↦ elim (Option-cases (refill s t)) [
    | inl n ↦ absurd (refill-some s t (unlimited-quantum s t h) n)
    | inr (s1, o) ↦
        let r = refill-IsRefill s s1 t h o in
        let (b', s', e, k) = refill_all-IsRefilled cpu l true s1 (r.sched i) (r.unlimited h) in
        (
          b',
          s',
          rw (w, o) e,
          record {
            sched = k.sched;
            unlimited = k.unlimited;
            list = k.list ∙ r.list;
            kept = λ u q. k.kept u (r.kept u q);
            full = λ u q. elim (Bool-cases (t == u)) [
              | inl y ↦
                  subst (λ u. wants_refill (s'.tcb u) ≡ false) ((==_iff t u).0 y) (k.kept t r.full)
              | inr n ↦ k.full u (ground arith)
            ];
          },
        )
  ]
  | inr w ↦
      let (b', s', e, k) = refill_all-IsRefilled cpu l b s i h in
      (
        b',
        s',
        rw w e,
        record {
          sched = k.sched;
          unlimited = k.unlimited;
          list = k.list;
          kept = k.kept;
          full = λ u q. elim (Bool-cases (t == u)) [
            | inl y ↦ subst (λ u. wants_refill (s'.tcb u) ≡ false) ((==_iff t u).0 y) (k.kept t w)
            | inr n ↦ k.full u (ground arith)
          ];
        },
      )
]

-- Nothing is done when no thread wants a refill.
refill_all-none :
    (l : List ℕ) (b : Bool) (s : Sched)
    → ((u : ℕ) → 1 ≤ times u l → wants_refill (s.tcb u) ≡ false)
    → refill_all l b s ≡ some (b, s)
unfolding refill_all
refill_all-none [] b s h = refl
refill_all-none (t ∷ l) b s h =
    rw (h t (ground (arith, ==_refl t))) (refill_all-none l b s (λ u q. h u (ground arith)))

-- A thread is given, in a state in order.
IsChosen : Option (ℕ × Sched) → Type 0
IsChosen none = ⊥
IsChosen (some (t, s)) = IsSched s

fall_back-IsChosen :
    (cpu cid : ℕ) (s : Sched) (o : Option ℕ)
    → IsSched s
    → fall_back cpu cid s ≡ o
    → IsChosen (elim o [ none ↦ none | some t ↦ some (t, s) ])
unfolding IsChosen
fall_back-IsChosen cpu cid s none i e = fall_back-some cpu cid s i e
fall_back-IsChosen cpu cid s (some t) i e = i

-- The last round, in which no thread has to be refilled.
last-IsChosen :
    (cpu cid : ℕ) (again : Sched → Option (ℕ × Sched)) (v : Option Scan)
    → IsEnd (λ s. IsUnlimited s × IsFilled cpu s) v
    → IsChosen (select_scanned cpu cid v again)
unfolding IsEnd IsChosen select_scanned select_refilled IsFilled
last-IsChosen cpu cid again none h = h
last-IsChosen cpu cid again (some (idle s)) h = h
last-IsChosen cpu cid again (some (go_on (some t) s)) h = h.0
last-IsChosen cpu cid again (some (go_on none s)) h =
    rw (refill_all-none (s.runnable_list cpu).tcb_list false s h.1.1)
      (fall_back-IsChosen cpu cid s _ h.0 refl)

refilled-IsChosen :
    (cpu cid : ℕ) (again : Sched → Option (ℕ × Sched)) (s s' : Sched) (b : Bool)
    → ((s : Sched) → IsSched s → IsUnlimited s → IsFilled cpu s → IsChosen (again s))
    → IsRefilled cpu (s.runnable_list cpu).tcb_list s s'
    → IsChosen (select_refilled cpu cid (some (b, s')) again)
unfolding IsFilled IsChosen select_refilled
refilled-IsChosen cpu cid again s s' true next r =
    next s' r.sched r.unlimited
      (λ u q. r.full u (subst (λ f. 1 ≤ times u (f cpu).tcb_list) r.list q))
refilled-IsChosen cpu cid again s s' false next r = fall_back-IsChosen cpu cid s' _ r.sched refl

-- The first round: the code from `retry` on is run on a state with refilled threads.
first-IsChosen :
    (cpu cid : ℕ) (again : Sched → Option (ℕ × Sched)) (v : Option Scan)
    → ((s : Sched) → IsSched s → IsUnlimited s → IsFilled cpu s → IsChosen (again s))
    → IsEnd IsUnlimited v
    → IsChosen (select_scanned cpu cid v again)
unfolding IsEnd IsChosen select_scanned
first-IsChosen cpu cid again none next h = h
first-IsChosen cpu cid again (some (idle s)) next h = h
first-IsChosen cpu cid again (some (go_on (some t) s)) next h = h.0
first-IsChosen cpu cid again (some (go_on none s)) next h =
    let (b, s', e, r) = refill_all-IsRefilled cpu (s.runnable_list cpu).tcb_list false s h.0 h.1 in
    rw e (refilled-IsChosen cpu cid again s s' b next r)

select_last-IsChosen :
    (fuel cpu cid : ℕ) (free : ℕ → ℕ → Bool) (s : Sched)
    → cpu < processors
    → IsSched s
    → IsUnlimited s
    → IsFilled cpu s
    → IsChosen (select_from (suc fuel) cpu cid free s)
unfolding select_from
select_last-IsChosen fuel cpu cid free s hc i h f = last-IsChosen cpu cid _ _ (
    scan_runnable-IsEnd cpu cid (free fuel) s (λ s. IsUnlimited s × IsFilled cpu s)
      (λ t s s' r k. (round-IsUnlimited cpu t s s' r k.0, round-IsFilled cpu t s s' r k.1))
      (λ s k. k.0) hc i (h, f))

select_two-IsChosen :
    (cpu cid : ℕ) (free : ℕ → ℕ → Bool) (s : Sched)
    → cpu < processors
    → IsSched s
    → IsUnlimited s
    → IsChosen (select_from 2 cpu cid free s)
unfolding select_from
select_two-IsChosen cpu cid free s hc i h =
    first-IsChosen cpu cid _ _ (λ s i h f. select_last-IsChosen 0 cpu cid free s hc i h f)
      (scan_runnable-IsEnd cpu cid (free 1) s IsUnlimited (round-IsUnlimited cpu) (λ s k. k) hc i h)

chosen :
    (o : Option (ℕ × Sched)) → IsChosen o → (t : ℕ) × (s : Sched) × (o ≡ some (t, s)) × IsSched s
unfolding IsChosen
chosen none h = absurd h
chosen (some (t, s)) h = (t, s, refl, h)

-- When every TCB stands in the list of its state and every thread has an unlimited quantum and a
-- time slice of at least 1, `select_next_thread` ends after at most two rounds of its `retry`,
-- without a halt, with a thread, and every TCB stands in the list of its state then, whatever
-- `spinlock_trylock` answers in each round.
pub select_next_thread-some :
    (cpu : ℕ) (free : ℕ → ℕ → Bool) (s : Sched)
    → cpu < processors
    → IsSched s
    → IsUnlimited s
    → (t : ℕ) × (s' : Sched) × (select_next_thread cpu free s ≡ some (t, s')) × IsSched s'
unfolding select_next_thread
select_next_thread-some cpu free s hc i h =
    chosen _ (select_two-IsChosen cpu (s.tcb (s.running_thread cpu)).running_core free s hc i h)
