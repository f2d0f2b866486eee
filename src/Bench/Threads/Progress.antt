-- ===== src/Bench/Threads/Progress.antt =====
-- How long a run of `run_server` or `run_client` can be.
use nvm_rdma_examples.Prelude.{
  ℕ, suc, ◌+◌, ◌*◌, ◌≤◌, ◌<◌, Bool, true, ◌≡◌, ◌≢◌, refl, sym, inl, inr, arith, ltb, ltb→lt,
  Bool-cases,
}
use nvm_rdma_examples.Prelude.Marks.{count, count_le, count_none, count-mark}
use nvm_rdma_examples.Bench.Threads.{
  Stand, starting, joining, returned, Pool, Step, Reached, initial, next, started, joined, IsSound,
  Reached-IsSound,
}

-- The steps of a run so far, and those that the main thread has made of them.
abbrev pub steps :
    {thread_num : ℕ} {body_ends : ℕ → Bool} {p : Pool} → Reached thread_num body_ends p → ℕ
steps initial = 0
steps (next r t) = suc (steps r)

abbrev main_steps : ℕ → Stand → ℕ
main_steps thread_num (starting k) = k
main_steps thread_num (joining k) = thread_num + 1 + k
main_steps thread_num returned = 2 * thread_num + 2

-- The other steps are ends of threads.
steps-main_steps :
    {thread_num : ℕ} {body_ends : ℕ → Bool} {p : Pool} (r : Reached thread_num body_ends p)
    → steps r ≡ main_steps thread_num p.stand + count thread_num p.ended
unfolding started
steps-main_steps {thread_num} initial = omega (arith, count_none thread_num)
steps-main_steps (next r (Step.start lt)) = omega (arith, steps-main_steps r)
steps-main_steps (next r Step.all_started) = omega (arith, steps-main_steps r)
steps-main_steps {thread_num}
      (next r (Step.end {stand = stand} {ended = ended} {i = i} lt fresh ends)) =
    omega (
      arith,
      steps-main_steps r,
      count-mark thread_num i ended (omega (arith, lt, (Reached-IsSound r).in_range.0)) fresh,
    )
steps-main_steps (next r (Step.join lt e)) = omega (arith, steps-main_steps r)
steps-main_steps (next r Step.all_joined) = omega (arith, steps-main_steps r)

main_steps_lt :
    (thread_num : ℕ) (stand : Stand)
    → started thread_num stand ≤ thread_num
    → joined thread_num stand ≤ thread_num
    → stand ≢ returned
    → main_steps thread_num stand < 2 * thread_num + 2
unfolding started joined
main_steps_lt thread_num (starting k) le le' ne = omega arith
main_steps_lt thread_num (joining k) le le' ne = omega arith
main_steps_lt thread_num returned le le' ne = absurd (ne refl)

step_from :
    (thread_num : ℕ) (body_ends : ℕ → Bool) (stand : Stand) (ended : ℕ → Bool)
    → IsSound thread_num body_ends (record { stand = stand; ended = ended })
    → ((i : ℕ) → i < thread_num → body_ends i ≡ true)
    → stand ≢ returned
    → (q : Pool) × Step thread_num body_ends (record { stand = stand; ended = ended }) q
unfolding started joined
step_from thread_num body_ends (starting k) ended sound all ne =
    elim (Bool-cases (ltb k thread_num)) [
      | inl b ↦ (_, Step.start (ltb→lt k thread_num b))
      | inr b ↦
          (let last : thread_num ≡ k = ground (arith, sound.in_range) in
            rw (sym last) (_, Step.all_started))
    ]
step_from thread_num body_ends (joining k) ended sound all ne =
    elim (Bool-cases (ltb k thread_num)) [
      | inl b ↦
          (let lt = ltb→lt k thread_num b in
            elim (Bool-cases (ended k)) [
              | inl e ↦ (_, Step.join lt e)
              | inr e ↦ (_, Step.end lt e (all k lt))
            ])
      | inr b ↦
          (let last : thread_num ≡ k = ground (arith, sound.in_range) in
            rw (sym last) (_, Step.all_joined))
    ]
step_from thread_num body_ends returned ended sound all ne = absurd (ne refl)

-- Where the body of every thread comes to its end, `run_server` and `run_client` return: in whatever
-- order the threads are started, end and are joined, until the main thread has returned there is a step
-- to take, and no run takes more than three steps for each thread and two more.
pub never_stuck :
    (thread_num : ℕ) (body_ends : ℕ → Bool) (p : Pool) (r : Reached thread_num body_ends p)
    → ((i : ℕ) → i < thread_num → body_ends i ≡ true)
    → p.stand ≢ returned
    → (steps r < 3 * thread_num + 2) × (q : Pool) × Step thread_num body_ends p q
never_stuck thread_num body_ends p r all ne =
    let sound = Reached-IsSound r in
    let (q, step) = step_from thread_num body_ends p.stand p.ended sound all ne in
    (
      omega (
        arith,
        steps-main_steps r,
        main_steps_lt thread_num p.stand sound.in_range.0 sound.in_range.1 ne,
        count_le thread_num p.ended,
      ),
      q,
      step,
    )
