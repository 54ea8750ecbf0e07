-- ===== src/Thread/Wakes.antt =====
-- `post_context_switch` of kernel/thread.c keeps the lists in order.
use mathlib.Core.Path.{subst}
use azalea.Prelude.{
  ℕ, ◌+◌, ◌%◌, ◌^◌, ◌≤◌, ◌<◌, ◌≡◌, ◌≢◌, refl, sym, Bool, true, false, not, ◌&&◌, ◌||◌, none, some,
  Bool-cases, Option-cases, ◌⊎◌, inl, inr, List, [], ◌∷◌, ◌==◌, ==_refl, ltb, b2n, arith,
}
use azalea.Thread.{core_is_allowed}
use azalea.Thread.State.{
  notalloc, exited, ready, Sched, has_flag, without_flag, intention_ready, intention_exited,
  intention_blocked, runnable_max,
}
use azalea.Thread.Lists.{times}
use azalea.Thread.Tcbs.{is_state, thread_exit}
use azalea.Thread.Placed.{processors, IsSched, times-take_out}
use azalea.Thread.Switch.{
  make_ready, post_prev, get_cid_of_min_thread, migrate_in, is_full, take_bound, take_allowed,
  take_migrating, unblock_thread, exit_blocked, wake_one, wake_on, wake_all, post_rest,
  post_context_switch,
}
use azalea.Thread.Moves.{
  set_tcb-IsSched, runnable-IsWork, block_thread-IsSched, migrate_in-IsSched,
  unblock_thread-IsSched,
}
use azalea.Thread.Scans.{exit_runnable-some, put_tcb-some}
use azalea.Thread.Exits.{exit_runnable-IsSched, exit_blocked-IsSched, exit_blocked-blocked}

-- What is known of the thread that ran before: it has ended, or it stands in the list of the
-- processor, or it was asked nothing, as an idle thread is.
unfoldable pub IsPrev : ℕ → Sched → ℕ → Type 0
IsPrev cpu s t =
    (is_state (s.tcb t).state exited || is_state (s.tcb t).state notalloc ≡ true)
    ⊎ (1 ≤ times t (s.runnable_list cpu).tcb_list)
    ⊎ ((s.tcb t).intention ≡ 0)

keep : {s' : Sched} (s : Sched) → IsSched s → s ≡ s' → IsSched s'
keep s i e = subst (λ s. IsSched s) e i

make_ready-IsSched :
    (cpu : ℕ) (s : Sched) (t : ℕ)
    → cpu < processors
    → IsSched s
    → 1 ≤ times t (s.runnable_list cpu).tcb_list
    → IsSched (make_ready s t)
unfolding make_ready
make_ready-IsSched cpu s t hc i h =
    let w = runnable-IsWork s cpu t hc i h in
    set_tcb-IsSched s t
      (record (s.tcb t) {
        state = ready;
        intention = without_flag (s.tcb t).intention (intention_ready + intention_blocked);
      })
      (ground (arith, w.listed, w.free, i.placed t)) (ground (arith, w.listed, w.work, i.placed t))
      (ground (arith, w.listed, w.wait, i.placed t)) i

post_prev-IsSched :
    (cpu : ℕ) (free : Bool) (s s' : Sched) (t : ℕ)
    → cpu < processors
    → IsSched s
    → IsPrev cpu s t
    → post_prev cpu free s t ≡ some s'
    → IsSched s'
unfolding post_prev IsPrev
post_prev-IsSched cpu free s s' t hc i (inl dead) e = keep s i (grind arith)
post_prev-IsSched cpu free s s' t hc i (inr (inr asked)) e =
    let r : has_flag (s.tcb t).intention intention_ready ≡ false = rw asked refl in
    let b : has_flag (s.tcb t).intention intention_blocked ≡ false = rw asked refl in
    let x : has_flag (s.tcb t).intention intention_exited ≡ false = rw asked refl in
    elim (Bool-cases (is_state (s.tcb t).state exited || is_state (s.tcb t).state notalloc)) [
      | inl dead ↦ keep s i (grind arith)
      | inr alive ↦ keep s i (grind arith)
    ]
post_prev-IsSched cpu free s s' t hc i (inr (inl h)) e =
    elim (Bool-cases (is_state (s.tcb t).state exited || is_state (s.tcb t).state notalloc)) [
      | inl dead ↦ keep s i (grind arith)
      | inr alive ↦ elim (Bool-cases (has_flag (s.tcb t).intention intention_ready)) [
        | inl r ↦ keep _ (make_ready-IsSched cpu s t hc i h) (grind arith)
        | inr r ↦ elim (Bool-cases (has_flag (s.tcb t).intention intention_blocked)) [
          | inl b ↦ keep _ (block_thread-IsSched cpu s t hc i h) (grind arith)
          | inr b ↦
              elim (Bool-cases (
                has_flag (s.tcb t).intention intention_exited && not (s.running_thread cpu == t))) [
                  | inl x ↦ exit_runnable-IsSched cpu free s s' t hc i h (grind arith)
                  | inr x ↦ keep s i (grind arith)
                ]
        ]
      ]
    ]

at : (l : List ℕ) (t : ℕ) (k : List ℕ) → ((u : ℕ) → times u (t ∷ l) ≤ times u k) → 1 ≤ times t k
at l t k h = ground (arith, h t, ==_refl t)

-- The loops over the migrating list.
migrate_in-migrating :
    (cpu cid : ℕ) (s : Sched) (t u : ℕ)
    → 1 ≤ times t s.migrating_list.tcb_list
    → times u (migrate_in cpu cid s t).migrating_list.tcb_list + b2n (t == u)
      ≡ times u s.migrating_list.tcb_list
unfolding migrate_in
migrate_in-migrating cpu cid s t u h = times-take_out t u s.migrating_list h

take_bound-IsSched :
    (cpu cid : ℕ) (l : List ℕ) (s : Sched)
    → cpu < processors
    → IsSched s
    → ((u : ℕ) → times u l ≤ times u s.migrating_list.tcb_list)
    → IsSched (take_bound cpu cid l s).1
unfolding take_bound
take_bound-IsSched cpu cid [] s hc i h = i
take_bound-IsSched cpu cid (t ∷ l) s hc i h = elim (Bool-cases ((s.tcb t).running_core == cid)) [
  | inl e ↦ rw e (elim (Bool-cases (is_full cpu (migrate_in cpu cid s t))) [
    | inl f ↦ rw f (migrate_in-IsSched cpu cid s t hc i (at l t _ h))
    | inr f ↦ rw f (
        take_bound-IsSched cpu cid l (migrate_in cpu cid s t) hc
          (migrate_in-IsSched cpu cid s t hc i (at l t _ h))
          (λ u. omega (arith, h u, migrate_in-migrating cpu cid s t u (at l t _ h))))
  ])
  | inr e ↦ rw e (elim (Bool-cases (is_full cpu s)) [
    | inl f ↦ rw f i
    | inr f ↦ rw f (take_bound-IsSched cpu cid l s hc i (λ u. omega (arith, h u)))
  ])
]

take_allowed-IsSched :
    (cpu cid : ℕ) (l : List ℕ) (s : Sched)
    → cpu < processors
    → IsSched s
    → ((u : ℕ) → times u l ≤ times u s.migrating_list.tcb_list)
    → IsSched (take_allowed cpu cid l s)
unfolding take_allowed
take_allowed-IsSched cpu cid [] s hc i h = i
take_allowed-IsSched cpu cid (t ∷ l) s hc i h =
    elim (Bool-cases
      (core_is_allowed (s.tcb t).core_mask cid && (cid == get_cid_of_min_thread t cid))) [
        | inl e ↦ rw e (migrate_in-IsSched cpu cid s t hc i (at l t _ h))
        | inr e ↦ rw e (elim (Bool-cases (is_full cpu s)) [
          | inl f ↦ rw f i
          | inr f ↦ rw f (take_allowed-IsSched cpu cid l s hc i (λ u. omega (arith, h u)))
        ])
      ]

take_migrating-IsSched :
    (cpu : ℕ) (free : Bool) (s : Sched)
    → cpu < processors
    → IsSched s
    → IsSched (take_migrating cpu free s)
unfolding take_migrating
take_migrating-IsSched cpu free s hc i =
    let cid = (s.tcb (s.running_thread cpu)).running_core in
    let bound = take_bound-IsSched cpu cid s.migrating_list.tcb_list s hc i (λ u. omega arith) in
    elim (Bool-cases (
      ltb (((s.runnable_list cpu).count + (s.blocked_list cpu).count) % 2 ^ 64) runnable_max
      && not (s.migrating_list.count == 0)
      && free)) [
        | inr e ↦ rw e i
        | inl e ↦ rw e (elim (Bool-cases (take_bound cpu cid s.migrating_list.tcb_list s).0) [
          | inl early ↦ rw early bound
          | inr late ↦ rw late (take_allowed-IsSched cpu cid _ _ hc bound (λ u. omega arith))
        ])
      ]

unblock_thread-blocked :
    (cpu : ℕ) (s : Sched) (t u : ℕ)
    → 1 ≤ times t (s.blocked_list cpu).tcb_list
    → times u (s.blocked_list cpu).tcb_list
      ≤ times u ((unblock_thread cpu s t).blocked_list cpu).tcb_list + b2n (t == u)
unfolding unblock_thread make_ready
unblock_thread-blocked cpu s t u h =
    rw (==_refl cpu) (omega (arith, times-take_out t u (s.blocked_list cpu) h))

keep-blocked :
    (cpu t : ℕ) (s s' : Sched)
    → IsSched s
    → s ≡ s'
    → IsSched s'
      × ((u : ℕ)
          → times u (s.blocked_list cpu).tcb_list
            ≤ times u (s'.blocked_list cpu).tcb_list + b2n (t == u))
keep-blocked cpu t s s' i e =
    subst
      (λ s'.
        IsSched s'
        × ((u : ℕ)
            → times u (s.blocked_list cpu).tcb_list
              ≤ times u (s'.blocked_list cpu).tcb_list + b2n (t == u)))
      e (i, λ u. omega arith)

-- A round of the loop over the blocked threads takes its own thread at most from the list.
wake_one-keeps :
    (cpu : ℕ) (free : Bool) (s s' : Sched) (t : ℕ)
    → cpu < processors
    → IsSched s
    → 1 ≤ times t (s.blocked_list cpu).tcb_list
    → wake_one cpu free s t ≡ some s'
    → IsSched s'
      × ((u : ℕ)
          → times u (s.blocked_list cpu).tcb_list
            ≤ times u (s'.blocked_list cpu).tcb_list + b2n (t == u))
unfolding wake_one
wake_one-keeps cpu free s s' t hc i h e =
    elim (Bool-cases (has_flag (s.tcb t).intention intention_exited)) [
      | inl x ↦ elim (Bool-cases (s.running_thread cpu == t)) [
        | inl r ↦ keep-blocked cpu t s s' i (grind arith)
        | inr r ↦
            let gone : exit_blocked cpu free s t ≡ some s' = grind arith in
            (
              exit_blocked-IsSched cpu free s s' t hc i h gone,
              λ u.
                  rw (exit_blocked-blocked cpu free s s' t gone)
                    (omega (arith, times-take_out t u (s.blocked_list cpu) h)),
            )
      ]
      | inr x ↦ elim (Bool-cases (has_flag (s.tcb t).intention intention_ready)) [
        | inl r ↦
            let woken : unblock_thread cpu s t ≡ s' = grind arith in
            (
              keep _ (unblock_thread-IsSched cpu s t hc i h) woken,
              λ u. rw (sym woken) (unblock_thread-blocked cpu s t u h),
            )
        | inr r ↦ keep-blocked cpu t s s' i (grind arith)
      ]
    ]

wake_all-IsSched :
    (cpu : ℕ) (free : ℕ → Bool) (l : List ℕ) (s s' : Sched)
    → cpu < processors
    → IsSched s
    → ((u : ℕ) → times u l ≤ times u (s.blocked_list cpu).tcb_list)
    → wake_all cpu free l s ≡ some s'
    → IsSched s'
unfolding wake_all wake_on
wake_all-IsSched cpu free [] s s' hc i h e = keep s i (grind arith)
wake_all-IsSched cpu free (t ∷ l) s s' hc i h e = elim (Option-cases (wake_one cpu (free t) s t)) [
  | inl n ↦ absurd (grind arith)
  | inr (s1, o) ↦
      let k = wake_one-keeps cpu (free t) s s1 t hc i (at l t _ h) o in
      wake_all-IsSched cpu free l s1 s' hc k.0 (λ u. omega (arith, h u, k.1 u)) (grind arith)
]

post_context_switch-keeps :
    (cpu : ℕ) (free : ℕ → Bool) (lock : Bool) (s s' : Sched) (prev : ℕ)
    → cpu < processors
    → IsSched s
    → IsPrev cpu s prev
    → post_context_switch cpu free lock s prev ≡ some s'
    → IsSched s'
unfolding post_context_switch post_rest
post_context_switch-keeps cpu free lock s s' prev hc i p e =
    elim (Option-cases (post_prev cpu (free prev) s prev)) [
      | inl n ↦ absurd (grind arith)
      | inr (s1, o) ↦
          let j =
            take_migrating-IsSched cpu lock s1 hc
              (post_prev-IsSched cpu (free prev) s s1 prev hc i p o) in
          let s2 = take_migrating cpu lock s1 in
          elim (Bool-cases ((s2.blocked_list cpu).count == 0)) [
            | inl z ↦ keep s2 j (grind arith)
            | inr z ↦
                wake_all-IsSched cpu free (s2.blocked_list cpu).tcb_list s2 s' hc j
                  (λ u. omega arith) (grind arith)
          ]
    ]

-- No part of it halts.
post_prev-some : (cpu : ℕ) (free : Bool) (s : Sched) (t : ℕ) → post_prev cpu free s t ≢ none
unfolding post_prev
post_prev-some cpu free s t e =
    elim (Bool-cases (is_state (s.tcb t).state exited || is_state (s.tcb t).state notalloc)) [
      | inl dead ↦ grind arith
      | inr alive ↦ elim (Bool-cases (has_flag (s.tcb t).intention intention_ready)) [
        | inl r ↦ grind arith
        | inr r ↦ elim (Bool-cases (has_flag (s.tcb t).intention intention_blocked)) [
          | inl b ↦ grind arith
          | inr b ↦
              elim (Bool-cases (
                has_flag (s.tcb t).intention intention_exited && not (s.running_thread cpu == t))) [
                  | inl x ↦ exit_runnable-some cpu free s t (grind arith)
                  | inr x ↦ grind arith
                ]
        ]
      ]
    ]

exit_blocked-some : (cpu : ℕ) (free : Bool) (s : Sched) (t : ℕ) → exit_blocked cpu free s t ≢ none
unfolding exit_blocked thread_exit
exit_blocked-some cpu free s t = put_tcb-some cpu free _ t (rw (==_refl t) refl)

wake_one-some : (cpu : ℕ) (free : Bool) (s : Sched) (t : ℕ) → wake_one cpu free s t ≢ none
unfolding wake_one
wake_one-some cpu free s t e = elim (Bool-cases (has_flag (s.tcb t).intention intention_exited)) [
  | inl x ↦ elim (Bool-cases (s.running_thread cpu == t)) [
    | inl r ↦ grind arith
    | inr r ↦ exit_blocked-some cpu free s t (grind arith)
  ]
  | inr x ↦ elim (Bool-cases (has_flag (s.tcb t).intention intention_ready)) [
    | inl r ↦ grind arith
    | inr r ↦ grind arith
  ]
]

wake_all-some : (cpu : ℕ) (free : ℕ → Bool) (l : List ℕ) (s : Sched) → wake_all cpu free l s ≢ none
unfolding wake_all wake_on
wake_all-some cpu free [] s e = grind arith
wake_all-some cpu free (t ∷ l) s e = elim (Option-cases (wake_one cpu (free t) s t)) [
  | inl n ↦ wake_one-some cpu (free t) s t n
  | inr (s1, o) ↦ wake_all-some cpu free l s1 (grind arith)
]

post_context_switch-some :
    (cpu : ℕ) (free : ℕ → Bool) (lock : Bool) (s : Sched) (prev : ℕ)
    → post_context_switch cpu free lock s prev ≢ none
unfolding post_context_switch post_rest
post_context_switch-some cpu free lock s prev e =
    elim (Option-cases (post_prev cpu (free prev) s prev)) [
      | inl n ↦ post_prev-some cpu (free prev) s prev n
      | inr (s1, o) ↦
          let s2 = take_migrating cpu lock s1 in
          elim (Bool-cases ((s2.blocked_list cpu).count == 0)) [
            | inl z ↦ grind arith
            | inr z ↦ wake_all-some cpu free (s2.blocked_list cpu).tcb_list s2 (grind arith)
          ]
    ]

-- When every TCB stands in the list of its state and the thread that ran before has ended, stands
-- in the list of the processor or was asked nothing, `post_context_switch` does not halt, and every
-- TCB stands in the list of its state after it too, whichever locks it gets.
pub post_context_switch-IsSched :
    (cpu : ℕ) (free : ℕ → Bool) (lock : Bool) (s : Sched) (prev : ℕ)
    → cpu < processors
    → IsSched s
    → IsPrev cpu s prev
    → (s' : Sched) × (post_context_switch cpu free lock s prev ≡ some s') × IsSched s'
post_context_switch-IsSched cpu free lock s prev hc i p =
    elim (Option-cases (post_context_switch cpu free lock s prev)) [
      | inl n ↦ absurd (post_context_switch-some cpu free lock s prev n)
      | inr (s', o) ↦ (s', o, post_context_switch-keeps cpu free lock s s' prev hc i p o)
    ]
