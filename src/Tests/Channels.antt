-- ===== src/Tests/Channels.antt =====
-- A queue of kernel/offload/offload_channel.c with four slots.
use azalea.Prelude.{ℕ, ◌-◌, ◌==◌, ◌≡◌, refl, List, [], ◌∷◌, some, arith}
use azalea.Offload.Channel.{
  Queue, cq_avail_data, cq_free_space, cq_is_empty, cq_add_data, cq_remove_data,
}
use azalea.Offload.Fifo.{IsQueue, elements}
use azalea.Offload.Refine.{Op, add, remove, run, run_list, run-run_list, length, cq_avail_data_lem}

abbrev queue : Queue ℕ
queue = record { head = 3; tail = 2; size = 4; slots = λ a. a }

queue-IsQueue : IsQueue queue
queue-IsQueue = record {
  bits = 2;
  some_bits = omega arith;
  few_bits = omega arith;
  size = refl;
  head = omega arith;
  tail = omega arith;
}

abbrev ops : List (Op ℕ)
ops = add 7 ∷ add 8 ∷ remove ∷ add 9 ∷ remove ∷ remove ∷ []

run-run_list_example : run ops queue ≡ run_list 3 ops (elements queue)
run-run_list_example = run-run_list ops queue queue-IsQueue

-- The head wraps.
three_values : run ops queue ≡ some (2 ∷ 7 ∷ 8 ∷ [])
unfolding run cq_add_data cq_remove_data cq_avail_data cq_free_space
three_values = refl

cq_avail_data_lem_example :
    (cq_avail_data queue ≡ length (elements queue))
    × (cq_free_space queue ≡ 4 - 1 - length (elements queue))
    × (cq_is_empty queue ≡ (length (elements queue) == 0))
cq_avail_data_lem_example = cq_avail_data_lem queue queue-IsQueue
