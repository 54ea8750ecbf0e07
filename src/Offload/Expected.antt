-- ===== src/Offload/Expected.antt =====
-- What holds of the messages under way between the threads of a core and the proxy, in the exchange
-- of kernel/offload/offload_message.c.
use azalea.Prelude.{
  ℕ, ◌+◌, ◌%◌, ◌^◌, ◌<◌, ◌≡◌, ◌≢◌, refl, sym, ap, ◌∙◌, Option, none, some, List, [], ◌∷◌, ◌++◌,
  Bool-cases, inl, inr, ◌==◌, ==_iff, ne→==, if◌then◌else◌, update, arith,
}
use azalea.Prelude.Lists.{All}
use azalea.Prelude.Words.{extend_int}
use azalea.Offload.Fifo.{IsQueue, elements}
use azalea.Offload.Message.{Packet, Request, owner, fill_packet, fill_answer}
use azalea.Offload.Owners.{extend_int-mod}
use azalea.Offload.Exchange.{System, asked, IsStart}

-- How many packets of a thread a list has, and how many it may have.
abbrev pub calls : (g_ukid tid : ℕ) → List Packet → ℕ
calls ukid k [] = 0
calls ukid k (p ∷ l) = (if owner ukid p == k then 1 else 0) + calls ukid k l

abbrev pub waits : Option Request → ℕ
waits none = 0
waits (some r) = 1

pub calls-append :
    (ukid k : ℕ) (l m : List Packet) → calls ukid k (l ++ m) ≡ calls ukid k l + calls ukid k m
calls-append ukid k [] m = omega arith
calls-append ukid k (p ∷ l) m = omega (arith, calls-append ukid k l m)

-- Packets of other threads than one that has none in the list.
pub absent :
    (ukid t : ℕ) (P Q : Packet → Type 0) (l : List Packet)
    → calls ukid t l ≡ 0
    → ((p : Packet) → owner ukid p ≢ t → P p → Q p)
    → All P l
    → All Q l
absent ukid t P Q [] nought f h = h
absent ukid t P Q (p ∷ l) nought f h = (
  f p (λ e. absurd (ground (arith, nought))) h.0,
  absent ukid t P Q l (ground (arith, nought)) f h.1,
)

unfoldable pub IsAsked : (g_ukid : ℕ) (pending : ℕ → Option Request) → Packet → Type 0
IsAsked ukid pending p = pending (owner ukid p) ≡ some (asked p)

unfoldable pub IsAnswered :
    (g_ukid : ℕ) (Answers : Request → ℕ → Type 0) (pending : ℕ → Option Request) → Packet → Type 0
IsAnswered ukid Answers pending p =
    (r : Request) × (pending (owner ukid p) ≡ some r) × Answers r p.ret

-- Every packet is of a thread that waits, says what the thread asked or answers it, and is the
-- only one of the thread; a thread that waits has one.
pub record IsExchange (g_ukid : ℕ) (Answers : Request → ℕ → Type 0) (s : System) : Type 0 where
  pub outgoing : IsQueue s.outgoing
  pub incoming : IsQueue s.incoming
  pub asks : All (IsAsked g_ukid s.pending) (elements s.outgoing)
  pub jobs : All (IsAsked g_ukid s.pending) s.jobs
  pub answers : All (IsAnswered g_ukid Answers s.pending) (elements s.incoming)
  pub once :
      (tid : ℕ)
      → calls g_ukid tid (elements s.outgoing)
          + calls g_ukid tid s.jobs
          + calls g_ukid tid (elements s.incoming)
        ≡ waits (s.pending tid)
  pub answered : (tid : ℕ) (r : Request) → s.pending tid ≡ some r → (ret : ℕ) × Answers r ret

pub start-IsExchange :
    (ukid : ℕ) (Answers : Request → ℕ → Type 0) (s : System) → IsStart s → IsExchange ukid Answers s
start-IsExchange ukid Answers s i = record {
  outgoing = i.outgoing;
  incoming = i.incoming;
  asks = rw i.no_requests tt;
  jobs = rw i.no_jobs tt;
  answers = rw i.no_answers tt;
  once = λ t. rw (i.no_requests, i.no_answers, i.no_jobs, i.nobody t) refl;
  answered = λ t r e. let free = i.nobody t in absurd (grind arith);
}

pub asked-fill_packet :
    (ukid tid : ℕ) (r : Request) (slot : Packet)
    → r.offload_function_type < 2 ^ 32
    → asked (fill_packet ukid tid r slot) ≡ r
unfolding fill_packet
asked-fill_packet ukid tid r slot h =
    let word : extend_int r.offload_function_type % 2 ^ 32 ≡ r.offload_function_type =
      omega (arith, extend_int-mod r.offload_function_type) in
    ap (λ n. record r { offload_function_type = n }) word

pub ret-fill_answer : (tid type ret : ℕ) (slot : Packet) → (fill_answer tid type ret slot).ret ≡ ret
unfolding fill_answer
ret-fill_answer tid type ret slot = refl

-- Another thread's entry, when one that does not wait asks.
pub entry_kept :
    (pending : ℕ → Option Request) (t k : ℕ) (r r' : Request)
    → pending t ≡ none
    → pending k ≡ some r
    → update pending t (some r') k ≡ some r
entry_kept pending t k r r' free e = elim (Bool-cases (k == t)) [
  | inl same ↦
      let at : pending t ≡ some r = ap pending (sym ((==_iff k t).0 same)) ∙ e in
      absurd (grind (arith, at))
  | inr other ↦ rw other e
]

-- Another thread's entry, when one gets its answer.
pub entry_left :
    (pending : ℕ → Option Request) (t k : ℕ) (r : Request)
    → k ≢ t
    → pending k ≡ some r
    → update pending t none k ≡ some r
entry_left pending t k r other e = rw (ne→== k t other) e
