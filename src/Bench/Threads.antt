-- ===== src/Bench/Threads.antt =====
-- `run_server` and `run_client` of rdma_bench.cc: the main thread starts the threads one after the
-- other, and joins them one after the other, while the threads that were started run by themselves. A
-- state is where the main thread stands, and which threads have ended.
pub mod Progress
use nvm_rdma_examples.Prelude.{
  ℕ, suc, ◌<◌, ◌≤◌, Bool, true, false, ◌≡◌, ◌≢◌, refl, sym, inl, inr, arith, if◌then◌else◌, ◌==◌,
  ltb, ltb→lt, Bool-cases,
}
use nvm_rdma_examples.Prelude.Marks.{mark}

-- The main thread is about to start the thread of a number, or to join it, or has returned.
pub data Stand : Type 0 where
  starting joining : ℕ → Stand
  returned : Stand

pub record Pool : Type 0 where
  pub stand : Stand
  pub ended : ℕ → Bool

-- How many threads have been started, of `thread_num`, and how many have been joined.
unfoldable pub started : ℕ → Stand → ℕ
started thread_num (starting k) = k
started thread_num (joining k) = thread_num
started thread_num returned = thread_num

unfoldable pub joined : ℕ → Stand → ℕ
joined thread_num (starting k) = 0
joined thread_num (joining k) = k
joined thread_num returned = thread_num

-- `body_ends` tells which threads come to their end at all: a server thread of "read" or of "write" does
-- not.
pub data Step (thread_num : ℕ) (body_ends : ℕ → Bool) : Pool → Pool → Type 0 where
  start :
      {k : ℕ} {ended : ℕ → Bool}
      → k < thread_num
      → Step thread_num body_ends
          (record { stand = starting k; ended = ended })
          (record { stand = starting (suc k); ended = ended })
  all_started :
      {ended : ℕ → Bool}
      → Step thread_num body_ends
          (record { stand = starting thread_num; ended = ended })
          (record { stand = joining 0; ended = ended })
  -- a thread that was started comes to its end, once
  end :
      {stand : Stand} {ended : ℕ → Bool} {i : ℕ}
      → i < started thread_num stand
      → ended i ≡ false
      → body_ends i ≡ true
      → Step thread_num body_ends
          (record { stand = stand; ended = ended })
          (record { stand = stand; ended = mark i ended })
  -- `join` returns only after the thread has ended
  join :
      {k : ℕ} {ended : ℕ → Bool}
      → k < thread_num
      → ended k ≡ true
      → Step thread_num body_ends
          (record { stand = joining k; ended = ended })
          (record { stand = joining (suc k); ended = ended })
  all_joined :
      {ended : ℕ → Bool}
      → Step thread_num body_ends
          (record { stand = joining thread_num; ended = ended })
          (record { stand = returned; ended = ended })

-- The states that a run reaches, with nothing started and no thread ended at its start.
pub data Reached (thread_num : ℕ) (body_ends : ℕ → Bool) : Pool → Type 0 where
  initial : Reached thread_num body_ends (record { stand = starting 0; ended = λ i. false })
  next :
      {p q : Pool}
      → Reached thread_num body_ends p
      → Step thread_num body_ends p q
      → Reached thread_num body_ends q

-- Every thread joined has ended, no thread has ended that was not started, and the numbers are in range.
record IsSound (thread_num : ℕ) (body_ends : ℕ → Bool) (p : Pool) : Type 0 where
  joined_ended : (i : ℕ) → i < joined thread_num p.stand → p.ended i ≡ true
  ended_started : (i : ℕ) → p.ended i ≡ true → i < started thread_num p.stand
  ended_ends : (i : ℕ) → p.ended i ≡ true → body_ends i ≡ true
  in_range : (started thread_num p.stand ≤ thread_num) × (joined thread_num p.stand ≤ thread_num)

Step-IsSound :
    {thread_num : ℕ} {body_ends : ℕ → Bool} {p q : Pool}
    → Step thread_num body_ends p q
    → IsSound thread_num body_ends p
    → IsSound thread_num body_ends q
unfolding started joined mark
Step-IsSound (start lt) h = record {
  joined_ended = λ i lt'. absurd (omega arith);
  ended_started = λ i e. omega (arith, h.ended_started i e);
  ended_ends = h.ended_ends;
  in_range = (omega arith, omega arith);
}
Step-IsSound all_started h = record {
  joined_ended = λ i lt'. absurd (omega arith);
  ended_started = λ i e. h.ended_started i e;
  ended_ends = h.ended_ends;
  in_range = (omega arith, omega arith);
}
Step-IsSound (end {i = k} lt fresh ends) h = record {
  joined_ended = λ i lt'. ground (arith, h.joined_ended i lt');
  ended_started = λ i e. ground (arith, h.ended_started i);
  ended_ends = λ i e. ground (arith, h.ended_ends i);
  in_range = h.in_range;
}
Step-IsSound (join {k = k} lt e) h = record {
  joined_ended = λ i lt'. elim (Bool-cases (ltb i k)) [
    | inl b ↦ h.joined_ended i (ltb→lt i k b)
    | inr b ↦ (let same : i ≡ k = ground arith in rw same e)
  ];
  ended_started = h.ended_started;
  ended_ends = h.ended_ends;
  in_range = (omega arith, omega arith);
}
Step-IsSound all_joined h = record {
  joined_ended = h.joined_ended;
  ended_started = h.ended_started;
  ended_ends = h.ended_ends;
  in_range = (omega arith, omega arith);
}

Reached-IsSound :
    {thread_num : ℕ} {body_ends : ℕ → Bool} {p : Pool}
    → Reached thread_num body_ends p
    → IsSound thread_num body_ends p
unfolding started joined
Reached-IsSound initial = record {
  joined_ended = λ i lt. absurd (omega arith);
  ended_started = λ i e. absurd (ground arith);
  ended_ends = λ i e. absurd (ground arith);
  in_range = (omega arith, omega arith);
}
Reached-IsSound (next r t) = Step-IsSound t (Reached-IsSound r)

-- Whatever the order in which the threads end, when `run_server` or `run_client` returns, exactly the
-- threads with the numbers below `thread_num` have run to their end.
pub all_ended :
    (thread_num : ℕ) (body_ends : ℕ → Bool) (p : Pool) (i : ℕ)
    → Reached thread_num body_ends p
    → p.stand ≡ returned
    → p.ended i ≡ ltb i thread_num
unfolding started joined
all_ended thread_num body_ends p i r e =
    let sound = Reached-IsSound r in
    elim (Bool-cases (p.ended i)) [
      | inl b ↦ ground (arith, sound.ended_started i b, e)
      | inr b ↦ ground (arith, sound.joined_ended i, e)
    ]

-- `run_server` or `run_client` with a thread that does not come to its end never returns.
pub never_returns :
    (thread_num : ℕ) (body_ends : ℕ → Bool) (p : Pool) (i : ℕ)
    → Reached thread_num body_ends p
    → i < thread_num
    → body_ends i ≡ false
    → p.stand ≢ returned
never_returns thread_num body_ends p i r lt e back =
    let over = all_ended thread_num body_ends p i r back in
    absurd (ground (arith, over, (Reached-IsSound r).ended_ends i))
