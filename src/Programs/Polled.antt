-- ===== src/Programs/Polled.antt =====
-- The log of the poll of the examples.
use nvm_rdma_examples.Prelude.{
  ℕ, zero, suc, ◌+◌, List, ◌∷◌, Option, none, some, All, ◌≡◌, refl, arith, Option-cases, inl, inr,
  u16,
}
use nvm_rdma_examples.Prelude.Int.{ℤ, pos, to_u32}
use nvm_rdma_examples.Verbs.Types.{Wc}
use nvm_rdma_examples.Verbs.Interface.{Verbs}
use nvm_rdma_examples.Effects.{Call, Sys}
use nvm_rdma_examples.Post.{poll_loop, poll_with_cq, stored}
use nvm_rdma_examples.Post.Polled.{poll_with_cq-All}
use nvm_rdma_examples.Programs.{Process, poll_one}
use nvm_rdma_examples.Programs.Named.{requests}

module _ {W : Type 0} (v : Verbs W) (P : Call → Type 0)
    (of_polls : (cq : ℕ) (n : ℤ) (o : Option Wc) → P (Call.polled_cq cq n o)) where
  pub poll_one-All :
      (fuel : ℕ) (cq : Option ℕ) (wc : Wc) (p : Process W)
      → All P p.sys.calls
      → All P (poll_one v fuel cq wc p).1.sys.calls
  unfolding poll_one
  poll_one-All fuel none wc p h = h
  poll_one-All fuel (some queue) wc p h =
      let polled = poll_with_cq-All v P of_polls fuel queue (pos 1) wc p.sys h in
      elim (Option-cases (poll_with_cq v fuel queue (pos 1) wc p.sys).0) [
        | inl e ↦ ground (arith, polled)
        | inr (r, e) ↦ ground (arith, polled)
      ]

-- What is read off a log without regard to its polls is the same after the function.
module _ {W A : Type 0} (v : Verbs W) (f : List Call → A)
    (unseen : (cq : ℕ) (n : ℤ) (o : Option Wc) (cs : List Call)
      → f (Call.polled_cq cq n o ∷ cs) ≡ f cs) where
  poll_loop_unseen :
      (fuel cq : ℕ) (number : ℤ) (count : ℕ) (wc : Wc) (s : Sys W)
      → f (poll_loop v fuel cq number count wc s).1.calls ≡ f s.calls
  unfolding poll_loop
  poll_loop_unseen zero cq number count wc s = refl
  poll_loop_unseen (suc fuel) cq number count wc s =
      let (new, o) = (v.poll_cq cq s.world).0 in
      let s' : Sys W = record {
        world = (v.poll_cq cq s.world).1;
        calls = Call.polled_cq cq new o ∷ s.calls;
      } in
      ground (
        arith,
        unseen cq new o s.calls,
        poll_loop_unseen fuel cq number (u16 (count + to_u32 new)) (stored wc o) s',
      )

  pub poll_one_unseen :
      (fuel : ℕ) (cq : Option ℕ) (wc : Wc) (p : Process W)
      → f (poll_one v fuel cq wc p).1.sys.calls ≡ f p.sys.calls
  unfolding poll_one poll_with_cq
  poll_one_unseen fuel none wc p = refl
  poll_one_unseen fuel (some queue) wc p =
      let same = poll_loop_unseen fuel queue (pos 1) 0 wc p.sys in
      elim (Option-cases (poll_with_cq v fuel queue (pos 1) wc p.sys).0) [
        | inl e ↦ ground (arith, same)
        | inr (r, e) ↦ ground (arith, same)
      ]

pub requests-poll_one :
    {W : Type 0} (v : Verbs W) (fuel : ℕ) (cq : Option ℕ) (wc : Wc) (p : Process W)
    → requests (poll_one v fuel cq wc p).1.sys.calls ≡ requests p.sys.calls
requests-poll_one v = poll_one_unseen v requests (λ cq n o cs. refl)
