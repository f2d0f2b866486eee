-- ===== src/Examples/Runs.antt =====
-- A run of two threads, of which the second ends first.
use nvm_rdma_examples.Prelude.{ℕ, ◌<◌, Bool, true, false, ◌≡◌, refl, arith}
use nvm_rdma_examples.Bench.Threads.{
  starting, joining, returned, Pool, Step, Reached, initial, next, start, all_started, end, join,
  all_joined, started, all_ended,
}
use nvm_rdma_examples.Prelude.Marks.{mark}
use nvm_rdma_examples.Bench.Threads.Progress.{steps, never_stuck}

abbrev all_end : ℕ → Bool
all_end i = true

abbrev both_ended : ℕ → Bool
both_ended = mark 0 (mark 1 (λ i. false))

abbrev over : Pool
over = record { stand = returned; ended = both_ended }

one_starts : Reached 2 all_end (record { stand = starting 1; ended = λ i. false })
one_starts = next initial (start (omega arith))

two_join : Reached 2 all_end (record { stand = joining 0; ended = λ i. false })
two_join = next (next one_starts (start (omega arith))) all_started

both_end : Reached 2 all_end (record { stand = joining 0; ended = both_ended })
unfolding started mark
both_end = next (next two_join (end (omega arith) refl refl)) (end (omega arith) refl refl)

run_over : Reached 2 all_end over
unfolding mark
run_over =
    next (next (next both_end (join (omega arith) refl)) (join (omega arith) refl)) all_joined

all_ended_example : both_ended 1 ≡ true
all_ended_example = all_ended 2 all_end over 1 run_over refl

never_stuck_example :
    (steps two_join < 8)
    × (q : Pool) × Step 2 all_end (record { stand = joining 0; ended = λ i. false }) q
never_stuck_example =
    never_stuck 2 all_end (record { stand = joining 0; ended = λ i. false }) two_join (λ i lt. refl)
      (λ e. cc)
