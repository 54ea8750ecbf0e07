-- ===== src/Offload/Steps.antt =====
-- Each step of the exchange of kernel/offload/offload_message.c keeps what holds of the messages.
use mathlib.Core.Path.{subst}
use azalea.Prelude.{
  ℕ, ◌+◌, ◌%◌, ◌^◌, ◌<◌, ◌≡◌, ◌≢◌, refl, sym, ap, ◌∙◌, none, some, List, [], ◌∷◌, ◌++◌, Bool-cases,
  inl, inr, ◌==◌, ==_iff, ==_refl, update, arith,
}
use azalea.Prelude.Lists.{All, All-map, All-append, All-split}
use azalea.Offload.Channel.{Queue}
use azalea.Offload.Fifo.{
  elements, taken, added-IsQueue, added-elements, taken-IsQueue, taken-elements,
}
use azalea.Offload.Message.{
  Packet, Request, owner, fill_packet, fill_answer, send_offload_message, send_answer, take_packet,
  received, receive_offload_message,
}
use azalea.Offload.Owners.{
  owner-fill_packet, owner-fill_answer, send_offload_message-some, send_answer-some,
  take_packet-some, receive_offload_message-received,
}
use azalea.Offload.Exchange.{System, asked}
use azalea.Offload.Expected.{
  calls, waits, calls-append, absent, IsAsked, IsAnswered, IsExchange, asked-fill_packet,
  ret-fill_answer, entry_kept, entry_left,
}

module _ (ukid : ℕ) (Answers : Request → ℕ → Type 0) (s : System)
    (i : IsExchange ukid Answers s) where
  pub send-IsExchange :
      (t : ℕ) (r : Request) (q : Queue Packet)
      → t < 2 ^ 32
      → r.offload_function_type < 2 ^ 32
      → (ret : ℕ) × Answers r ret
      → s.pending t ≡ none
      → send_offload_message ukid s.outgoing t r ≡ some q
      → IsExchange ukid Answers (record s { outgoing = q; pending = update s.pending t (some r) })
  unfolding IsAsked IsAnswered
  send-IsExchange t r q ht hr served free e =
      let packet = fill_packet ukid t r (s.outgoing.slots s.outgoing.head) in
      let pending = update s.pending t (some r) in
      let (same, room) = send_offload_message-some ukid s.outgoing q t r i.outgoing e in
      let more = added-elements s.outgoing packet i.outgoing room in
      let mine : owner ukid packet ≡ t = owner-fill_packet ukid t r _ ht in
      let kept = λ (p : Packet). entry_kept s.pending t (owner ukid p) (asked p) r free in
      let new : pending (owner ukid packet) ≡ some (asked packet) =
        rw (mine, asked-fill_packet ukid t r (s.outgoing.slots s.outgoing.head) hr, ==_refl t)
          refl in
      subst (λ o. IsExchange ukid Answers (record s { outgoing = o; pending = pending })) (sym same)
        (record {
          outgoing = added-IsQueue s.outgoing packet i.outgoing;
          incoming = i.incoming;
          asks = rw more (
              All-append (IsAsked ukid pending) (elements s.outgoing) (packet ∷ [])
                (All-map (IsAsked ukid s.pending) (IsAsked ukid pending) (elements s.outgoing) kept
                  i.asks)
                (new, tt));
          jobs = All-map (IsAsked ukid s.pending) (IsAsked ukid pending) s.jobs kept i.jobs;
          answers =
              All-map (IsAnswered ukid Answers s.pending) (IsAnswered ukid Answers pending)
                (elements s.incoming)
                (λ p h. (h.0, entry_kept s.pending t (owner ukid p) h.0 r free h.1, h.2)) i.answers;
          once = λ k.
              rw (more, calls-append ukid k (elements s.outgoing) (packet ∷ []), mine)
                (elim (Bool-cases (k == t)) [
                  | inl e ↦
                      let free : waits (s.pending k) ≡ 0 =
                        ap (λ j. waits (s.pending j)) ((==_iff k t).0 e) ∙ ap waits free in
                      rw e (ground (arith, i.once k, free))
                  | inr e ↦ rw e (ground (arith, i.once k))
                ]);
          answered = λ k r' waiting. elim (Bool-cases (k == t)) [
            | inl same ↦
                let mine : r ≡ r' = grind arith in
                subst (λ r. (ret : ℕ) × Answers r ret) mine served
            | inr other ↦ i.answered k r' (grind arith)
          ];
        })

  pub take-IsExchange :
      (p : Packet) (q : Queue Packet)
      → take_packet s.outgoing ≡ some (p, q)
      → IsExchange ukid Answers (record s { outgoing = q; jobs = p ∷ s.jobs })
  take-IsExchange p q e =
      let (head, same, held) = take_packet-some s.outgoing q p i.outgoing e in
      let less = taken-elements s.outgoing i.outgoing held in
      let asks = subst (All (IsAsked ukid s.pending)) less i.asks in
      subst (λ o. IsExchange ukid Answers (record s { outgoing = o; jobs = p ∷ s.jobs })) (sym same)
        (record {
          outgoing = taken-IsQueue s.outgoing i.outgoing;
          incoming = i.incoming;
          asks = asks.1;
          jobs = (subst (IsAsked ukid s.pending) (sym head) asks.0, i.jobs);
          answers = i.answers;
          once = λ k.
              let less = ap (calls ukid k) less in
              let head = ap (λ p. owner ukid p) head in ground (arith, i.once k, less, head);
          answered = i.answered;
        })

  pub answer-IsExchange :
      (k l : List Packet) (p : Packet) (q : Queue Packet) (ret : ℕ)
      → s.jobs ≡ k ++ p ∷ l
      → Answers (asked p) ret
      → send_answer s.incoming (p.tid % 2 ^ 32) (p.io_function_type % 2 ^ 32) ret ≡ some q
      → IsExchange ukid Answers (record s { incoming = q; jobs = k ++ l })
  unfolding IsAsked IsAnswered
  answer-IsExchange k l p q ret job right e =
      let type = p.io_function_type % 2 ^ 32 in
      let slot = s.incoming.slots s.incoming.head in
      let packet = fill_answer (p.tid % 2 ^ 32) type ret slot in
      let (same, room) = send_answer-some s.incoming q _ type ret i.incoming e in
      let more = added-elements s.incoming packet i.incoming room in
      let mine : owner ukid packet ≡ owner ukid p = owner-fill_answer ukid type ret p slot in
      let jobs = subst (All (IsAsked ukid s.pending)) job i.jobs in
      let (before, both) = All-split (IsAsked ukid s.pending) k (p ∷ l) jobs in
      let given =
        subst (Answers (asked p)) (sym (ret-fill_answer (p.tid % 2 ^ 32) type ret slot)) right in
      let new : IsAnswered ukid Answers s.pending packet =
        (asked p, ap s.pending mine ∙ both.0, given) in
      subst (λ o. IsExchange ukid Answers (record s { incoming = o; jobs = k ++ l })) (sym same)
        (record {
          outgoing = i.outgoing;
          incoming = added-IsQueue s.incoming packet i.incoming;
          asks = i.asks;
          jobs = All-append (IsAsked ukid s.pending) k l before both.1;
          answers = rw more (
              All-append (IsAnswered ukid Answers s.pending) (elements s.incoming) (packet ∷ [])
                i.answers (new, tt));
          once = λ t.
              let job = ap (calls ukid t) job ∙ calls-append ukid t k (p ∷ l) in
              rw
                (
                  more,
                  calls-append ukid t (elements s.incoming) (packet ∷ []),
                  calls-append ukid t k l,
                  mine,
                )
                (ground (arith, i.once t, job));
          answered = i.answered;
        })

  pub receive-IsExchange :
      (t : ℕ) (r : Request) (ret : ℕ) (q : Queue Packet)
      → t < 2 ^ 32
      → s.pending t ≡ some r
      → receive_offload_message ukid s.incoming t ≡ received ret q
      → IsExchange ukid Answers (record s { incoming = q; pending = update s.pending t none })
  unfolding IsAsked IsAnswered
  receive-IsExchange t r ret q ht waiting e =
      let pending = update s.pending t none in
      let (value, same, mine, held) =
        receive_offload_message-received ukid s.incoming q t ret i.incoming ht e in
      let less = taken-elements s.incoming i.incoming held in
      let answers = subst (All (IsAnswered ukid Answers s.pending)) less i.answers in
      let counted : calls ukid t (elements s.outgoing)
            + calls ukid t s.jobs
            + calls ukid t (s.incoming.slots s.incoming.tail ∷ elements (taken s.incoming))
          ≡ 1 =
        sym
          (ap (λ l. calls ukid t (elements s.outgoing) + calls ukid t s.jobs + calls ukid t l) less)
        ∙ i.once t
        ∙ ap waits waiting in
      let left = λ (p : Packet) (other : owner ukid p ≢ t).
        entry_left s.pending t (owner ukid p) (asked p) other in
      subst (λ o. IsExchange ukid Answers (record s { incoming = o; pending = pending })) (sym same)
        (record {
          outgoing = i.outgoing;
          incoming = taken-IsQueue s.incoming i.incoming;
          asks =
              absent ukid t (IsAsked ukid s.pending) (IsAsked ukid pending) (elements s.outgoing)
                (ground (arith, counted, mine)) left i.asks;
          jobs =
              absent ukid t (IsAsked ukid s.pending) (IsAsked ukid pending) s.jobs
                (ground (arith, counted, mine)) left i.jobs;
          answers =
              absent ukid t (IsAnswered ukid Answers s.pending) (IsAnswered ukid Answers pending)
                (elements (taken s.incoming)) (ground (arith, counted, mine))
                (λ p other h. (h.0, entry_left s.pending t (owner ukid p) h.0 other h.1, h.2))
                answers.1;
          once = λ k.
              let less = ap (calls ukid k) less in
              elim (Bool-cases (k == t)) [
                | inl e ↦
                    let one : waits (s.pending k) ≡ 1 =
                      ap (λ j. waits (s.pending j)) ((==_iff k t).0 e) ∙ ap waits waiting in
                    rw e (ground (arith, i.once k, less, one, mine))
                | inr e ↦ rw e (ground (arith, i.once k, less, mine))
              ];
          answered = λ k r' waiting'. elim (Bool-cases (k == t)) [
            | inl same ↦ absurd (grind arith)
            | inr other ↦ i.answered k r' (grind arith)
          ];
        })
