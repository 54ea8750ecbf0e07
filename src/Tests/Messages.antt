-- ===== src/Tests/Messages.antt =====
-- One call through the queues of kernel/offload/offload_message.c: thread 5 of kernel 2 asks, the
-- proxy takes the request and answers it.
use azalea.Prelude.{ℕ, ◌+◌, ◌%◌, ◌^◌, ◌≤◌, ◌<◌, ◌≡◌, refl, none, some, [], ◌∷◌, update, arith}
use azalea.Offload.Channel.{Queue, cq_avail_data, cq_free_space}
use azalea.Offload.Fifo.{IsQueue, elements}
use azalea.Offload.Message.{
  Packet, Request, offload_tid, fill_packet, fill_answer, send_offload_message, send_answer,
  take_packet, received, receive_offload_message,
}
use azalea.Offload.Exchange.{
  System, asked, Work, take, answer, work, send, IsStart, Reach, start, later,
}
use azalea.Offload.Answers.{IsRight, receive_offload_message-IsRight}
use azalea.Offload.Waits.{load, rest, next, Works-load}
use azalea.Prelude.Words.{extend_int}
use azalea.Prelude.Spans.{span}

abbrev blank : Packet
blank = record {
  magic = 0;
  tid = 0;
  io_function_type = 0;
  param1 = 0;
  param2 = 0;
  param3 = 0;
  param4 = 0;
  param5 = 0;
  param6 = 0;
  ret = 0;
}

abbrev queue : Queue Packet
queue = record { head = 0; tail = 0; size = 4; slots = λ a. blank }

queue-IsQueue : IsQueue queue
queue-IsQueue = record {
  bits = 2;
  some_bits = omega arith;
  few_bits = omega arith;
  size = refl;
  head = omega arith;
  tail = omega arith;
}

abbrev pub ask : Request
ask = record {
  offload_function_type = 511;
  param1 = 7;
  param2 = 0;
  param3 = 0;
  param4 = 0;
  param5 = 0;
  param6 = 0;
}

abbrev Next : Request → ℕ → Type 0
Next r ret = ret ≡ r.param1 + 1

abbrev idle : System
idle = record { outgoing = queue; incoming = queue; jobs = []; pending = λ t. none }

idle-IsStart : IsStart idle
unfolding elements span
idle-IsStart = record {
  outgoing = queue-IsQueue;
  incoming = queue-IsQueue;
  no_requests = refl;
  no_answers = refl;
  no_jobs = refl;
  nobody = λ t. refl;
}

abbrev pub request_packet : Packet
request_packet = fill_packet 2 5 ask blank

abbrev asked_queue : Queue Packet
asked_queue = record queue { head = 1; slots = update queue.slots 0 request_packet }

abbrev asking : System
asking = record idle { outgoing = asked_queue; pending = update idle.pending 5 (some ask) }

sent : send_offload_message 2 queue 5 ask ≡ some asked_queue
unfolding send_offload_message cq_free_space cq_avail_data
sent = refl

asking_reached :
    (Answers : Request → ℕ → Type 0) → (ret : ℕ) × Answers ask ret → Reach 2 Answers asking
asking_reached Answers served =
    later (start idle-IsStart) (send 5 ask asked_queue (omega arith) (omega arith) served refl sent)

abbrev taken_queue : Queue Packet
taken_queue = record asked_queue { tail = 1 }

abbrev busy : System
busy = record asking { outgoing = taken_queue; jobs = request_packet ∷ [] }

took : take_packet asked_queue ≡ some (request_packet, taken_queue)
unfolding take_packet cq_avail_data
took = refl

taking : (Answers : Request → ℕ → Type 0) → Work 2 Answers asking busy
taking Answers = take request_packet taken_queue took

abbrev answer_packet : Packet
answer_packet = fill_answer 20005 511 8 blank

abbrev pub answered_queue : Queue Packet
answered_queue = record queue { head = 1; slots = update queue.slots 0 answer_packet }

abbrev pub answered : System
answered = record busy { incoming = answered_queue; jobs = [] }

replied :
    send_answer queue (request_packet.tid % 2 ^ 32) (request_packet.io_function_type % 2 ^ 32) 8
    ≡ some answered_queue
unfolding send_answer cq_free_space cq_avail_data fill_packet offload_tid extend_int
replied = refl

right_answer : Next (asked request_packet) 8
unfolding fill_packet
right_answer = refl

answering :
    (Answers : Request → ℕ → Type 0)
    → Answers (asked request_packet) 8
    → Work 2 Answers busy answered
answering Answers right = answer [] [] request_packet answered_queue 8 refl right replied

-- The state after that, when 8 is an answer to the request.
pub answered_reached :
    (Answers : Request → ℕ → Type 0)
    → Answers ask 8
    → Answers (asked request_packet) 8
    → Reach 2 Answers answered
answered_reached Answers served right =
    later (later (asking_reached Answers (8, served)) (work (taking Answers)))
      (work (answering Answers right))

-- The thread gets 8.
receive_offload_message-IsRight_example :
    IsRight Next answered ask (receive_offload_message 2 answered_queue 5)
receive_offload_message-IsRight_example =
    receive_offload_message-IsRight 2 Next answered 5 ask (answered_reached Next refl right_answer)
      (omega arith) refl

pub got_8 :
    receive_offload_message 2 answered_queue 5 ≡ received 8 (record answered_queue { tail = 1 })
unfolding receive_offload_message cq_avail_data fill_answer offload_tid extend_int
got_8 = refl

Works-load_example :
    (1 ≤ load asking)
    × (1 < load asking → (u : System) × Work 2 Next busy u)
    × (1 ≡ load asking → (tid : ℕ) → busy.pending tid ≡ none)
Works-load_example =
    Works-load 2 Next asking busy 1 (asking_reached Next (8, refl)) (next rest (taking Next))

three_steps : load asking ≡ 3
unfolding load elements span
three_steps = refl
