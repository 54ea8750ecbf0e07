-- ===== src/Offload/Answers.antt =====
-- The exchange of messages of kernel/offload/offload_message.c keeps each thread's request and
-- its answer together.
use mathlib.Core.Path.{subst}
use azalea.Prelude.{ℕ, ◌^◌, ◌<◌, ◌≡◌, ap, some, [], Bool-cases, inl, inr, ◌==◌, ==_iff, arith}
use azalea.Prelude.Lists.{All}
use azalea.Offload.Fifo.{count, elements, taken-elements}
use azalea.Offload.Refine.{elements-none}
use azalea.Offload.Message.{
  Request, owner, Receipt, reschedule, schedule_to, received, receive_offload_message,
}
use azalea.Offload.Owners.{receive_offload_message-cases}
use azalea.Offload.Exchange.{System, Work, take, answer, receive, work, send, Reach, start, later}
use azalea.Offload.Expected.{IsAnswered, IsExchange, start-IsExchange}
use azalea.Offload.Steps.{send-IsExchange, take-IsExchange, answer-IsExchange, receive-IsExchange}

pub work-IsExchange :
    (ukid : ℕ) (Answers : Request → ℕ → Type 0) (s t : System)
    → IsExchange ukid Answers s
    → Work ukid Answers s t
    → IsExchange ukid Answers t
work-IsExchange ukid Answers s _ i (take p q e) = take-IsExchange ukid Answers s i p q e
work-IsExchange ukid Answers s _ i (answer k l p q ret job right e) =
    answer-IsExchange ukid Answers s i k l p q ret job right e
work-IsExchange ukid Answers s _ i (receive t r ret q ht waiting e) =
    receive-IsExchange ukid Answers s i t r ret q ht waiting e

pub Reach-IsExchange :
    (ukid : ℕ) (Answers : Request → ℕ → Type 0) (s : System)
    → Reach ukid Answers s
    → IsExchange ukid Answers s
Reach-IsExchange ukid Answers s (start i) = start-IsExchange ukid Answers s i
Reach-IsExchange ukid Answers _ (later {s = s} past (work {t = t} w)) =
    work-IsExchange ukid Answers s t (Reach-IsExchange ukid Answers s past) w
Reach-IsExchange ukid Answers _ (later {s = s} past (send t r q ht hr served free e)) =
    send-IsExchange ukid Answers s (Reach-IsExchange ukid Answers s past) t r q ht hr served free e

-- What a look at the queue may give to a thread that waits for the answer to `r`.
unfoldable pub IsRight :
    (Answers : Request → ℕ → Type 0) (s : System) (r : Request) → Receipt → Type 0
IsRight Answers s r reschedule = elements s.incoming ≡ []
IsRight Answers s r (schedule_to id) = (r' : Request) × (s.pending id ≡ some r')
IsRight Answers s r (received ret q) = Answers r ret

-- In every state that the steps of the threads and of the proxy lead to, `receive_offload_message`
-- of a thread that waits gives an answer of the proxy to the very request of the thread, or hands
-- the processor to a thread that waits too, or finds no answer at all.
pub receive_offload_message-IsRight :
    (ukid : ℕ) (Answers : Request → ℕ → Type 0) (s : System) (t : ℕ) (r : Request)
    → Reach ukid Answers s
    → t < 2 ^ 32
    → s.pending t ≡ some r
    → IsRight Answers s r (receive_offload_message ukid s.incoming t)
unfolding IsRight IsAnswered
receive_offload_message-IsRight ukid Answers s t r past ht waiting =
    let i = Reach-IsExchange ukid Answers s past in
    let head = s.incoming.slots s.incoming.tail in
    rw (receive_offload_message-cases ukid s.incoming t i.incoming ht)
      (elim (Bool-cases (count s.incoming == 0)) [
        | inl z ↦ rw z (elements-none s.incoming ((==_iff (count s.incoming) 0).0 z))
        | inr z ↦
            let answers =
              subst (All (IsAnswered ukid Answers s.pending))
                (taken-elements s.incoming i.incoming (ground arith)) i.answers in
            rw z (elim (Bool-cases (owner ukid head == t)) [
              | inl e ↦
                  let (r', at, right) = answers.0 in
                  let mine = ap s.pending ((==_iff (owner ukid head) t).0 e) in
                  let same : r' ≡ r = grind (arith, at, waiting, mine) in
                  rw e (subst (λ r. Answers r head.ret) same right)
              | inr e ↦ rw e (answers.0.0, answers.0.1)
            ])
      ])
