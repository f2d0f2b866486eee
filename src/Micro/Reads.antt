-- ===== src/Micro/Reads.antt =====
-- The memory that the reads of the microbenchmark write to, and the two destructors side by side.
use nvm_rdma_examples.Prelude.{
  ℕ, zero, suc, ◌≤◌, true, List, ◌∷◌, ◌≡◌, All, arith, inl, inr, Option-cases,
}
use nvm_rdma_examples.Prelude.Int.{pos}
use nvm_rdma_examples.Verbs.Types.{Qp, Mr, Wc}
use nvm_rdma_examples.Verbs.Interface.{Verbs}
use nvm_rdma_examples.Effects.{Call, Sys}
use nvm_rdma_examples.Post.{rdma_read, read_wr, poll_with_cq}
use nvm_rdma_examples.Context.{destroy_context, destroy_pd, destroy_ctx, exit_pd, exit_ctx}
use nvm_rdma_examples.Bench.{Bench, Host, thread_buf}
use nvm_rdma_examples.Bench.Inside.{PostsInside, read_wr-Inside, poll_with_cq-Inside}
use nvm_rdma_examples.Bench.Lifecycle.{Slot, destroy_slots, destroy_bench}
use nvm_rdma_examples.Micro.{read_size, micro_read, micro_reads, destroy_micro}

module _ {W : Type 0} (v : Verbs W) where
  micro_read-Inside :
      (fuel : ℕ) (b : Bench) (qp : Qp) (i cq : ℕ) (mr : Mr) (wc : Wc) (h : Host W)
      → read_size ≤ b.block_size
      → All (PostsInside b i) h.sys.calls
      → All (PostsInside b i) (micro_read v fuel b qp i cq mr wc h).1.sys.calls
  unfolding micro_read rdma_read
  micro_read-Inside fuel b qp i cq mr wc h fits inside =
      let wr =
        read_wr (thread_buf b i) h.remote_info.data_vaddr read_size mr.lkey h.remote_info.r_key true
          0 in
      let posted = v.post_send qp wr h.sys.world in
      let s1 : Sys W = record {
        world = posted.1;
        calls = Call.posted_send qp wr posted.0 ∷ h.sys.calls;
      } in
      let entries =
        read_wr-Inside b i h.remote_info.data_vaddr read_size mr.lkey h.remote_info.r_key fits in
      let polled = poll_with_cq-Inside v b i fuel cq (pos 1) wc s1 (entries, inside) in
      elim (Option-cases (poll_with_cq v fuel cq (pos 1) wc s1).0) [
        | inl e ↦ ground (arith, polled)
        | inr (r, e) ↦ ground (arith, polled)
      ]

  -- Whether or not it ends, the loop of a client of the microbenchmark posts only reads that stay inside
  -- the block of its thread, where a block has the 100 bytes of a read.
  pub micro_reads-Inside :
      (fuel rounds : ℕ) (b : Bench) (qp : Qp) (i cq : ℕ) (mr : Mr) (wc : Wc) (h : Host W)
      → read_size ≤ b.block_size
      → All (PostsInside b i) h.sys.calls
      → All (PostsInside b i) (micro_reads v fuel rounds b qp i cq mr wc h).1.sys.calls
  unfolding micro_reads
  micro_reads-Inside fuel zero b qp i cq mr wc h fits inside = inside
  micro_reads-Inside fuel (suc rounds) b qp i cq mr wc h fits inside =
      let step = micro_read-Inside fuel b qp i cq mr wc h fits inside in
      let h' = (micro_read v fuel b qp i cq mr wc h).1 in
      elim (Option-cases (micro_read v fuel b qp i cq mr wc h).0) [
        | inl e ↦ ground (arith, step)
        | inr (u, e) ↦ ground (arith, micro_reads-Inside fuel rounds b qp i cq mr wc h' fits step)
      ]

  -- The two destructors make the same calls and end alike, whatever threads were run: they differ in
  -- their messages alone.
  pub destroy_micro-destroy_bench :
      (b : Bench) (thread_num : ℕ) (slots : List Slot) (s : Sys W)
      → destroy_micro v b thread_num slots s ≡ destroy_bench v b thread_num slots s
  unfolding destroy_micro destroy_bench destroy_context destroy_pd destroy_ctx exit_pd exit_ctx
  destroy_micro-destroy_bench b thread_num slots s =
      elim (Option-cases (destroy_slots v thread_num slots s).0) [
        | inl e ↦ ground arith
        | inr (u, e) ↦ ground arith
      ]
