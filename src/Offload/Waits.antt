-- ===== src/Offload/Waits.antt =====
-- The exchange of messages of kernel/offload/offload_message.c comes to an end: a measure of what
-- is under way goes down with every step, and a step is possible until nobody waits.
use mathlib.Core.Path.{subst}
use native.Mathlib.Nat.{pow-le-pow_right}
use azalea.Prelude.{
  ℕ, suc, ◌+◌, ◌*◌, ◌%◌, ◌^◌, ◌≤◌, ◌<◌, ◌≡◌, refl, ap, ◌∙◌, true, false, none, List, [], ◌∷◌, ◌++◌,
  Bool-cases, inl, inr, ◌==◌, ==_iff, update, ==_refl, ◌⊎◌, Option-cases, arith,
}
use azalea.Prelude.Lists.{All}
use azalea.Offload.Fifo.{count, elements, added, taken, added-elements, taken-elements}
use azalea.Offload.Refine.{length, length-elements}
use azalea.Offload.Message.{Packet, Request, owner, fill_answer, received, receive_offload_message}
use azalea.Offload.Owners.{
  owner-bound, take_packet-held, send_answer-room, send_answer-some, take_packet-some,
  receive_offload_message-cases, receive_offload_message-received,
}
use azalea.Offload.Exchange.{System, asked, Work, take, answer, receive, Reach}
use azalea.Offload.Expected.{IsExchange, IsAsked, IsAnswered, calls, waits}
use azalea.Offload.Answers.{Reach-IsExchange, work-IsExchange}

-- The steps that the packets under way still need.
unfoldable pub load : System → ℕ
load s = 3 * length (elements s.outgoing) + 2 * length s.jobs + length (elements s.incoming)

-- A run of `steps` steps in which no thread asks.
pub data Works (g_ukid : ℕ) (Answers : Request → ℕ → Type 0) (s : System)
    : ℕ → System → Type 0 where
  rest : Works g_ukid Answers s 0 s
  next :
      {n : ℕ} {t u : System}
      → Works g_ukid Answers s n t
      → Work g_ukid Answers t u
      → Works g_ukid Answers s (suc n) u

length-append {ℓ} : {A : Type ℓ} (k l : List A) → length (k ++ l) ≡ length k + length l
length-append [] l = omega arith
length-append (x ∷ k) l = omega (arith, length-append k l)

List-cases {ℓ} : {A : Type ℓ} (l : List A) → (l ≡ []) ⊎ ((x : A) × (k : List A) × (l ≡ x ∷ k))
List-cases [] = inl refl
List-cases (x ∷ l) = inr (x, l, refl)

calls-length : (ukid k : ℕ) (l : List Packet) → calls ukid k l ≤ length l
calls-length ukid k [] = omega arith
calls-length ukid k (p ∷ l) = ground (arith, calls-length ukid k l)

module _ (ukid : ℕ) (Answers : Request → ℕ → Type 0) where
  work-load :
      (s t : System) → IsExchange ukid Answers s → Work ukid Answers s t → load s ≡ suc (load t)
  unfolding load
  work-load s _ i (take p q e) =
      let (head, same, held) = take_packet-some s.outgoing q p i.outgoing e in
      let less = ap length (taken-elements s.outgoing i.outgoing held) in
      rw same (omega (arith, less))
  work-load s _ i (answer k l p q ret job right e) =
      let (same, room) = send_answer-some s.incoming q _ _ ret i.incoming e in
      let packet =
        fill_answer (p.tid % 2 ^ 32) (p.io_function_type % 2 ^ 32) ret
          (s.incoming.slots s.incoming.head) in
      let more = added-elements s.incoming packet i.incoming room in
      rw (same, more, length-append (elements s.incoming) (packet ∷ []), length-append k l)
        (omega (arith, ap length job, length-append k (p ∷ l)))
  work-load s _ i (receive t r ret q ht waiting e) =
      let (value, same, mine, held) =
        receive_offload_message-received ukid s.incoming q t ret i.incoming ht e in
      let less = ap length (taken-elements s.incoming i.incoming held) in
      rw same (omega (arith, less))

  -- A packet under way can move on.
  take-held :
      (s : System)
      → IsExchange ukid Answers s
      → 1 ≤ count s.outgoing
      → (t : System) × Work ukid Answers s t
  take-held s i held =
      let p = s.outgoing.slots s.outgoing.tail in
      let q = taken s.outgoing in
      (
        record s { outgoing = q; jobs = p ∷ s.jobs },
        take p q (take_packet-held s.outgoing i.outgoing held),
      )

  receive-held :
      (s : System)
      → IsExchange ukid Answers s
      → 1 ≤ count s.incoming
      → (t : System) × Work ukid Answers s t
  unfolding IsAnswered
  receive-held s i held =
      let p = s.incoming.slots s.incoming.tail in
      let q = taken s.incoming in
      let t = owner ukid p in
      let word : t < 2 ^ 32 = owner-bound ukid p in
      let (r, waiting, right) =
        (subst (All (IsAnswered ukid Answers s.pending)) (taken-elements s.incoming i.incoming held)
          i.answers).0 in
      let some_data : count s.incoming == 0 ≡ false = ground arith in
      let mine : t == t ≡ true = ==_refl t in
      let test : receive_offload_message ukid s.incoming t ≡ received p.ret q =
        receive_offload_message-cases ukid s.incoming t i.incoming word
        ∙ rw (some_data, mine) refl in
      (
        record s { incoming = q; pending = update s.pending t none },
        receive t r p.ret q word waiting test,
      )

  answer-held :
      (s : System) (p : Packet) (l : List Packet)
      → IsExchange ukid Answers s
      → s.jobs ≡ p ∷ l
      → count s.incoming ≡ 0
      → (t : System) × Work ukid Answers s t
  unfolding IsAsked
  answer-held s p l i job empty =
      let mine = (subst (All (IsAsked ukid s.pending)) job i.jobs).0 in
      let (ret, right) = i.answered (owner ukid p) (asked p) mine in
      let tid = p.tid % 2 ^ 32 in
      let type = p.io_function_type % 2 ^ 32 in
      let q = added s.incoming (fill_answer tid type ret (s.incoming.slots s.incoming.head)) in
      let two : 2 ^ 1 ≤ 2 ^ i.incoming.bits = pow-le-pow_right (omega arith) i.incoming.some_bits in
      let room : count s.incoming + 1 < s.incoming.size =
        omega (arith, two, i.incoming.size, empty) in
      (
        record s { incoming = q; jobs = l },
        answer [] l p q ret job right (send_answer-room s.incoming tid type ret i.incoming room),
      )

  step-held :
      (s : System) → IsExchange ukid Answers s → 1 ≤ load s → (t : System) × Work ukid Answers s t
  unfolding load
  step-held s i h =
      let out = length-elements s.outgoing in
      let inn = length-elements s.incoming in
      elim (Bool-cases (count s.outgoing == 0)) [
        | inr e ↦ take-held s i (ground arith)
        | inl e ↦ elim (Bool-cases (count s.incoming == 0)) [
          | inr e' ↦ receive-held s i (ground arith)
          | inl e' ↦ elim (List-cases s.jobs) [
            | inl n ↦ let none = ap length n in absurd (ground arith)
            | inr (p, l, job) ↦ answer-held s p l i job ((==_iff (count s.incoming) 0).0 e')
          ]
        ]
      ]

  nobody :
      (s : System) → IsExchange ukid Answers s → load s ≡ 0 → (tid : ℕ) → waits (s.pending tid) ≡ 0
  unfolding load
  nobody s i h tid =
      let out = calls-length ukid tid (elements s.outgoing) in
      let jobs = calls-length ukid tid s.jobs in
      let inn = calls-length ukid tid (elements s.incoming) in omega (arith, i.once tid)

  Works-IsExchange :
      (s t : System) (n : ℕ)
      → IsExchange ukid Answers s
      → Works ukid Answers s n t
      → IsExchange ukid Answers t × (load s ≡ n + load t)
  Works-IsExchange s _ _ i rest = (i, omega arith)
  Works-IsExchange s _ _ i (next {n = n} {t = t} {u = u} run w) =
      let (j, e) = Works-IsExchange s t n i run in
      (work-IsExchange ukid Answers t u j w, omega (arith, work-load t u j w))

-- From every state that the steps lead to, each run in which no thread asks has at most `load`
-- steps, whatever their order; before that number another step is possible, and after it no thread
-- waits any more.
pub Works-load :
    (ukid : ℕ) (Answers : Request → ℕ → Type 0) (s t : System) (n : ℕ)
    → Reach ukid Answers s
    → Works ukid Answers s n t
    → (n ≤ load s)
      × (n < load s → (u : System) × Work ukid Answers t u)
      × (n ≡ load s → (tid : ℕ) → t.pending tid ≡ none)
Works-load ukid Answers s t n past run =
    let (j, e) = Works-IsExchange ukid Answers s t n (Reach-IsExchange ukid Answers s past) run in
    (
      omega arith,
      λ h. step-held ukid Answers t j (omega arith),
      λ h tid. elim (Option-cases (t.pending tid)) [
        | inl free ↦ free
        | inr (r, waiting) ↦
            let one = ap waits waiting in
            absurd (omega (arith, nobody ukid Answers t j (omega arith) tid))
      ],
    )
