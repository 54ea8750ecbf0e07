-- ===== src/Thread/Requests.antt =====
-- The requests to block and to run again that kernel/thread.c leaves in the TCB of a thread.
use azalea.Prelude.{
  ℕ, ◌+◌, ◌-◌, ◌%◌, ◌^◌, ◌≤◌, ◌<◌, ◌≡◌, ◌≢◌, refl, ap, Bool, false, some, leb, ◌==◌, ==_refl, ne→==,
  bit_or, arith,
}
use azalea.Thread.State.{
  notalloc, Tcb, Sched, set_tcb, max_processor_count, config_num_thread, intention_blocked,
  intention_ready,
}
use azalea.Thread.Tcbs.{
  is_state, get_tcb, put_tcb, drop_ref, with_tcb, thread_suspend, thread_wake_up,
}
use azalea.Thread.Placed.{IsSched}
use azalea.Thread.Moves.{set_tcb-IsSched}
use azalea.Thread.Ends.{drop_ref-IsSched}

-- A thread that exists, with a reference to it that does not go meanwhile.
unfoldable pub IsAlive : Sched → ℕ → Type 0
IsAlive s t =
    (t < max_processor_count + config_num_thread)
    × (is_state (s.tcb t).state notalloc ≡ false)
    × (1 ≤ (s.tcb t).refc)
    × ((s.tcb t).refc < 2 ^ 32 - 1)

-- Only the thread's intention is another than before.
pub record IsAsked (s : Sched) (t intention : ℕ) (s' : Sched) : Type 0 where
  pub asked : s'.tcb t ≡ record (s.tcb t) { intention = intention }
  pub other : (u : ℕ) → u ≢ t → s'.tcb u ≡ s.tcb u
  pub runnable : s'.runnable_list ≡ s.runnable_list
  pub blocked : s'.blocked_list ≡ s.blocked_list
  pub sched : IsSched s → IsSched s'

got : Sched → ℕ → Sched
got s t = set_tcb s t (record (s.tcb t) { refc = ((s.tcb t).refc + 1) % 2 ^ 32 })

asked_with : (Tcb → Tcb) → Sched → ℕ → Sched
asked_with f s t = set_tcb (got s t) t (f ((got s t).tcb t))

get_tcb-some : (s : Sched) (t : ℕ) → IsAlive s t → get_tcb s t ≡ some (got s t)
unfolding get_tcb IsAlive got
get_tcb-some s t h =
    let bound : leb (max_processor_count + config_num_thread) t ≡ false = ground (arith, h) in
    rw (bound, h.1) refl

put_tcb-drop :
    (cpu : ℕ) (free : Bool) (s : Sched) (t : ℕ)
    → ((s.tcb t).refc == 1) ≡ false
    → put_tcb cpu free s t ≡ some (drop_ref s t)
unfolding put_tcb
put_tcb-drop cpu free s t e = rw e refl

asked-refc :
    (s : Sched) (t : ℕ) (g : ℕ → ℕ)
    → IsAlive s t
    → (((asked_with (λ tcb. record tcb { intention = g tcb.intention }) s t).tcb t).refc == 1)
      ≡ false
unfolding asked_with got IsAlive
asked-refc s t g h = rw (==_refl t) (ground (arith, h))

with_tcb-dropped :
    (cpu : ℕ) (free : Bool) (s : Sched) (t : ℕ) (g : ℕ → ℕ)
    → IsAlive s t
    → with_tcb cpu free s t (λ tcb. record tcb { intention = g tcb.intention })
      ≡ some (drop_ref (asked_with (λ tcb. record tcb { intention = g tcb.intention }) s t) t)
unfolding with_tcb asked_with
with_tcb-dropped cpu free s t g h =
    rw (get_tcb-some s t h, with_tcb)
      (put_tcb-drop cpu free (asked_with (λ tcb. record tcb { intention = g tcb.intention }) s t) t
        (asked-refc s t g h))

asked-IsSched :
    (s : Sched) (t : ℕ) (g : ℕ → ℕ)
    → IsSched s
    → IsSched (drop_ref (asked_with (λ tcb. record tcb { intention = g tcb.intention }) s t) t)
unfolding asked_with got
asked-IsSched s t g i =
    drop_ref-IsSched _ t
      (set_tcb-IsSched _ t _ refl refl refl (set_tcb-IsSched s t _ refl refl refl i))

dropped-IsAsked :
    (s : Sched) (t : ℕ) (g : ℕ → ℕ)
    → IsAlive s t
    → IsAsked s t
        (g (s.tcb t).intention)
        (drop_ref (asked_with (λ tcb. record tcb { intention = g tcb.intention }) s t) t)
unfolding IsAlive drop_ref asked_with got
dropped-IsAsked s t g h =
    let back : (((s.tcb t).refc + 1) % 2 ^ 32 + 2 ^ 32 - 1) % 2 ^ 32 ≡ (s.tcb t).refc =
      omega (arith, h) in
    record {
      asked =
          rw (==_refl t)
            (ap (λ r. record (s.tcb t) { intention = g (s.tcb t).intention; refc = r }) back);
      other = λ u n. rw (ne→== u t n) refl;
      runnable = refl;
      blocked = refl;
      sched = λ i. asked-IsSched s t g i;
    }

-- For a thread that exists and keeps its references, `thread_suspend` and `thread_wake_up` add the
-- request to its intention, return its reference, and change nothing else of any TCB; the lists of
-- the threads that may run and of the blocked ones stay as they were, and all lists stay in order
-- if they were.
pub thread_suspend-IsAsked :
    (cpu : ℕ) (free : Bool) (s : Sched) (t : ℕ)
    → IsAlive s t
    → ((s' : Sched) × (thread_suspend cpu free s t ≡ some s')
        × IsAsked s t (bit_or (s.tcb t).intention intention_blocked) s')
      × ((s' : Sched) × (thread_wake_up cpu free s t ≡ some s')
          × IsAsked s t (bit_or (s.tcb t).intention intention_ready) s')
unfolding thread_suspend thread_wake_up
thread_suspend-IsAsked cpu free s t h = (
  (
    _,
    with_tcb-dropped cpu free s t (λ i. bit_or i intention_blocked) h,
    dropped-IsAsked s t (λ i. bit_or i intention_blocked) h,
  ),
  (
    _,
    with_tcb-dropped cpu free s t (λ i. bit_or i intention_ready) h,
    dropped-IsAsked s t (λ i. bit_or i intention_ready) h,
  ),
)
