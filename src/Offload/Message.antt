-- ===== src/Offload/Message.antt =====
-- The messages of kernel/offload/offload_message.c, and the answers of
-- sideloader/offload_proxy/offload_message.c. A call tries once: the waits and the retries
-- of the loops, which end only when the other side changes the queue, are results.
use azalea.Prelude.{ℕ, ◌+◌, ◌-◌, ◌*◌, ◌%◌, ◌^◌, Option, none, some, ◌==◌, if◌then◌else◌, update}
use azalea.Prelude.Words.{extend_int}
use azalea.Offload.Channel.{Queue, cq_avail_data, cq_free_space}

-- `io_packet_t`
pub record Packet : Type 0 where
  pub magic : ℕ
  pub tid : ℕ
  pub io_function_type : ℕ
  pub param1 : ℕ
  pub param2 : ℕ
  pub param3 : ℕ
  pub param4 : ℕ
  pub param5 : ℕ
  pub param6 : ℕ
  pub ret : ℕ

-- The arguments of `send_offload_message` that say what is asked: an `int` and six QWORDs.
pub record Request : Type 0 where
  pub offload_function_type : ℕ
  pub param1 : ℕ
  pub param2 : ℕ
  pub param3 : ℕ
  pub param4 : ℕ
  pub param5 : ℕ
  pub param6 : ℕ

abbrev pub offload_magic : ℕ
offload_magic = 0x5d4c3b2a

-- The `int` that stands for a thread of this kernel.
unfoldable pub offload_tid : (g_ukid tid : ℕ) → ℕ
offload_tid ukid tid = (ukid * 10000 + tid) % 2 ^ 32

-- The fields that a request sets: all of them but `ret`, which the slot keeps.
unfoldable pub fill_packet : (g_ukid tid : ℕ) → Request → Packet → Packet
fill_packet ukid tid r slot = record {
  magic = offload_magic;
  tid = extend_int (offload_tid ukid tid);
  io_function_type = extend_int r.offload_function_type;
  param1 = r.param1;
  param2 = r.param2;
  param3 = r.param3;
  param4 = r.param4;
  param5 = r.param5;
  param6 = r.param6;
  ret = slot.ret;
}

-- `send_offload_message`; none is a queue that stays full, where the thread is rescheduled and
-- tries again.
unfoldable pub send_offload_message :
    (g_ukid : ℕ) → Queue Packet → (tid : ℕ) → Request → Option (Queue Packet)
send_offload_message ukid ocq tid r =
    if cq_free_space ocq == 0
    then none
    else some (record ocq {
      slots = update ocq.slots ocq.head (fill_packet ukid tid r (ocq.slots ocq.head));
      head = (ocq.head + 1) % ocq.size;
    })

-- What one look at the queue comes to: it stays empty and the thread is rescheduled, the first
-- packet is another thread's and the processor goes to the thread of that id, or it is taken.
pub data Receipt : Type 0 where
  reschedule : Receipt
  schedule_to : (id : ℕ) → Receipt
  received : (ret : ℕ) → Queue Packet → Receipt

-- The thread of this kernel that a packet names.
unfoldable pub owner : (g_ukid : ℕ) → Packet → ℕ
owner ukid packet = (packet.tid + 2 ^ 64 - extend_int (ukid * 10000)) % 2 ^ 32

-- `receive_offload_message`
unfoldable pub receive_offload_message : (g_ukid : ℕ) → Queue Packet → (tid : ℕ) → Receipt
receive_offload_message ukid icq tid =
    let ipkt = icq.slots icq.tail in
    if cq_avail_data icq == 0
    then reschedule
    else if ipkt.tid % 2 ^ 32 == offload_tid ukid tid
    then received ipkt.ret (record icq { tail = (icq.tail + 1) % icq.size })
    else schedule_to (owner ukid ipkt)

-- The proxy's `MAGIC`, which is not the kernel's.
abbrev pub proxy_magic : ℕ
proxy_magic = 0x4d3c2b1a

-- The fields that an answer sets: the parameters are those that the slot had.
unfoldable pub fill_answer : (tid offload_function_type ret : ℕ) → Packet → Packet
fill_answer tid type ret slot = record slot {
  magic = proxy_magic;
  tid = extend_int tid;
  io_function_type = extend_int type;
  ret = ret;
}

-- The proxy's `send_offload_message`; none is a queue that is full.
unfoldable pub send_answer :
    Queue Packet → (tid offload_function_type ret : ℕ) → Option (Queue Packet)
send_answer out_cq tid type ret =
    if cq_free_space out_cq == 0
    then none
    else some (record out_cq {
      slots = update out_cq.slots out_cq.head (fill_answer tid type ret (out_cq.slots out_cq.head));
      head = (out_cq.head + 1) % out_cq.size;
    })

-- What `offload_watch` does with a channel in one round: the first packet is copied into a job.
unfoldable pub take_packet : Queue Packet → Option (Packet × Queue Packet)
take_packet in_cq =
    if cq_avail_data in_cq == 0
    then none
    else some (in_cq.slots in_cq.tail, record in_cq { tail = (in_cq.tail + 1) % in_cq.size })
