-- ===== src/Offload/Exchange.antt =====
-- The channel of a core: the threads that ask with `send_offload_message` and wait with
-- `receive_offload_message` (kernel/offload/offload_message.c), the two queues between them and
-- the proxy, and the proxy's jobs (sideloader/offload_proxy). The proxy's pool runs its jobs in any
-- order, and what it answers to a request is a parameter.
use azalea.Prelude.{ℕ, ◌%◌, ◌^◌, ◌<◌, ◌≡◌, Option, none, some, List, [], ◌∷◌, ◌++◌, update}
use azalea.Offload.Channel.{Queue}
use azalea.Offload.Fifo.{IsQueue, elements}
use azalea.Offload.Message.{
  Packet, Request, send_offload_message, send_answer, take_packet, received,
  receive_offload_message,
}

-- The two queues, the packets that the proxy has copied into jobs, and what each thread waits for.
pub record System : Type 0 where
  pub outgoing : Queue Packet
  pub incoming : Queue Packet
  pub jobs : List Packet
  pub pending : ℕ → Option Request

-- The request that the proxy reads in a packet.
abbrev pub asked : Packet → Request
asked p = record {
  offload_function_type = p.io_function_type % 2 ^ 32;
  param1 = p.param1;
  param2 = p.param2;
  param3 = p.param3;
  param4 = p.param4;
  param5 = p.param5;
  param6 = p.param6;
}

-- What the threads and the proxy do, as long as no thread asks: an answer to a packet that the
-- proxy holds, or one of the queues' ends that moves on.
pub data Work (g_ukid : ℕ) (Answers : Request → ℕ → Type 0) (s : System) : System → Type 0 where
  take :
      (p : Packet) (q : Queue Packet)
      → take_packet s.outgoing ≡ some (p, q)
      → Work g_ukid Answers s (record s { outgoing = q; jobs = p ∷ s.jobs })
  answer :
      (k l : List Packet) (p : Packet) (q : Queue Packet) (ret : ℕ)
      → s.jobs ≡ k ++ p ∷ l
      → Answers (asked p) ret
      → send_answer s.incoming (p.tid % 2 ^ 32) (p.io_function_type % 2 ^ 32) ret ≡ some q
      → Work g_ukid Answers s (record s { incoming = q; jobs = k ++ l })
  receive :
      (tid : ℕ) (r : Request) (ret : ℕ) (q : Queue Packet)
      → tid < 2 ^ 32
      → s.pending tid ≡ some r
      → receive_offload_message g_ukid s.incoming tid ≡ received ret q
      → Work g_ukid Answers s (record s { incoming = q; pending = update s.pending tid none })

-- A thread that does not wait asks something that the proxy answers.
pub data Step (g_ukid : ℕ) (Answers : Request → ℕ → Type 0) (s : System) : System → Type 0 where
  work : {t : System} → Work g_ukid Answers s t → Step g_ukid Answers s t
  send :
      (tid : ℕ) (r : Request) (q : Queue Packet)
      → tid < 2 ^ 32
      → r.offload_function_type < 2 ^ 32
      → (ret : ℕ) × Answers r ret
      → s.pending tid ≡ none
      → send_offload_message g_ukid s.outgoing tid r ≡ some q
      → Step g_ukid Answers s (record s { outgoing = q; pending = update s.pending tid (some r) })

-- Two empty queues, and nobody waits.
pub record IsStart (s : System) : Type 0 where
  pub outgoing : IsQueue s.outgoing
  pub incoming : IsQueue s.incoming
  pub no_requests : elements s.outgoing ≡ []
  pub no_answers : elements s.incoming ≡ []
  pub no_jobs : s.jobs ≡ []
  pub nobody : (tid : ℕ) → s.pending tid ≡ none

-- What the steps lead to.
pub data Reach (g_ukid : ℕ) (Answers : Request → ℕ → Type 0) : System → Type 0 where
  start : {s : System} → IsStart s → Reach g_ukid Answers s
  later : {s t : System} → Reach g_ukid Answers s → Step g_ukid Answers s t → Reach g_ukid Answers t
