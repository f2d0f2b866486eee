-- ===== src/Post/Polled.antt =====
-- The log of the polling loop.
use nvm_rdma_examples.Prelude.{ℕ, zero, suc, ◌+◌, ◌∷◌, Option, All, arith, u16}
use nvm_rdma_examples.Prelude.Int.{ℤ, to_u32}
use nvm_rdma_examples.Verbs.Types.{Wc}
use nvm_rdma_examples.Verbs.Interface.{Verbs}
use nvm_rdma_examples.Effects.{Call, Sys}
use nvm_rdma_examples.Post.{poll_loop, poll_with_cq, stored}

module _ {W : Type 0} (v : Verbs W) (P : Call → Type 0)
    (of_polls : (cq : ℕ) (n : ℤ) (o : Option Wc) → P (Call.polled_cq cq n o)) where
  poll_loop-All :
      (fuel cq : ℕ) (number : ℤ) (count : ℕ) (wc : Wc) (s : Sys W)
      → All P s.calls
      → All P (poll_loop v fuel cq number count wc s).1.calls
  unfolding poll_loop
  poll_loop-All zero cq number count wc s h = h
  poll_loop-All (suc fuel) cq number count wc s h =
      let (new, o) = (v.poll_cq cq s.world).0 in
      let s' : Sys W = record {
        world = (v.poll_cq cq s.world).1;
        calls = Call.polled_cq cq new o ∷ s.calls;
      } in
      ground (
        arith,
        h,
        of_polls cq new o,
        poll_loop-All fuel cq number (u16 (count + to_u32 new)) (stored wc o) s'
            (of_polls cq new o, h),
      )

  -- What holds of every call of the log, and of every poll, holds of the log after the function.
  pub poll_with_cq-All :
      (fuel cq : ℕ) (number : ℤ) (wc : Wc) (s : Sys W)
      → All P s.calls
      → All P (poll_with_cq v fuel cq number wc s).1.calls
  unfolding poll_with_cq
  poll_with_cq-All fuel cq number wc s h = poll_loop-All fuel cq number 0 wc s h
