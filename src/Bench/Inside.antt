-- ===== src/Bench/Inside.antt =====
-- The memory that the reads of a benchmark thread write to.
use nvm_rdma_examples.Prelude.{
  ℕ, zero, suc, ◌+◌, ◌≤◌, true, ◌∷◌, ◌≡◌, refl, All, arith, inl, inr, Option-cases,
}
use nvm_rdma_examples.Prelude.Int.{ℤ, pos}
use nvm_rdma_examples.Verbs.Types.{Qp, Mr, Wc, Sge, Opcode}
use nvm_rdma_examples.Verbs.Interface.{Verbs}
use nvm_rdma_examples.Sockets.{Sockets}
use nvm_rdma_examples.Os.{Os}
use nvm_rdma_examples.Effects.{Call, Sys}
use nvm_rdma_examples.Post.{rdma_read, read_wr, fill_sge_send_wr, fill_sge, poll_with_cq}
use nvm_rdma_examples.Post.Polled.{poll_with_cq-All}
use nvm_rdma_examples.Bench.{Bench, Host, thread_buf, read_once, read_loop}

-- An entry of a request lies in the block of a thread, which is the region that the thread registered.
abbrev pub EntryInside : Bench → ℕ → Sge → Type 0
EntryInside b i e = (thread_buf b i ≤ e.addr) × (e.addr + e.length ≤ thread_buf b i + b.block_size)

-- A request posted is a read, and its entries lie in that block; none is a receive.
abbrev pub PostsInside : Bench → ℕ → Call → Type 0
PostsInside b i (Call.posted_send qp wr res) =
    (wr.opcode ≡ Opcode.rdma_read) × All (EntryInside b i) wr.sg_list
PostsInside b i (Call.posted_recv qp wr res) = ⊥
PostsInside b i _ = Unit {0}

pub read_wr-Inside :
    (b : Bench) (i dest size lkey rkey : ℕ)
    → size ≤ b.block_size
    → let wr = read_wr (thread_buf b i) dest size lkey rkey true 0 in
      (wr.opcode ≡ Opcode.rdma_read) × All (EntryInside b i) wr.sg_list
unfolding read_wr fill_sge_send_wr fill_sge
read_wr-Inside b i dest size lkey rkey h = (refl, ((omega arith, omega arith), tt))

module _ {W : Type 0} (v : Verbs W) where
  pub poll_with_cq-Inside :
      (b : Bench) (i fuel cq : ℕ) (number : ℤ) (wc : Wc) (s : Sys W)
      → All (PostsInside b i) s.calls
      → All (PostsInside b i) (poll_with_cq v fuel cq number wc s).1.calls
  poll_with_cq-Inside b i = poll_with_cq-All v (PostsInside b i) (λ cq n o. tt)

module _ {W : Type 0} (v : Verbs W) (n : Sockets W) (os : Os W) (b : Bench) where
  read_once-Inside :
      (fuel : ℕ) (qp : Qp) (i cq : ℕ) (mr : Mr) (wc : Wc) (h : Host W)
      → All (PostsInside b i) h.sys.calls
      → All (PostsInside b i) (read_once v n os b fuel qp i cq mr wc h).1.sys.calls
  unfolding read_once rdma_read
  read_once-Inside fuel qp i cq mr wc h inside =
      let wr =
        read_wr (thread_buf b i) h.remote_info.data_vaddr b.block_size mr.lkey h.remote_info.r_key
          true 0 in
      let posted = v.post_send qp wr h.sys.world in
      let s1 : Sys W = record {
        world = posted.1;
        calls = Call.posted_send qp wr posted.0 ∷ h.sys.calls;
      } in
      let entries =
        read_wr-Inside b i h.remote_info.data_vaddr b.block_size mr.lkey h.remote_info.r_key
          (omega arith) in
      let polled = poll_with_cq-Inside v b i fuel cq (pos 1) wc s1 (entries, inside) in
      elim (Option-cases (poll_with_cq v fuel cq (pos 1) wc s1).0) [
        | inl e ↦ ground (arith, polled)
        | inr (r, e) ↦ ground (arith, polled)
      ]

  -- Whether or not it ends, the reading loop of a client, after a log that already has no other posts,
  -- posts nothing but requests to read, and every entry of them stays inside the block of its thread.
  pub read_loop-Inside :
      (fuel ops : ℕ) (qp : Qp) (i cq : ℕ) (mr : Mr) (wc : Wc) (h : Host W)
      → All (PostsInside b i) h.sys.calls
      → All (PostsInside b i) (read_loop v n os b fuel ops qp i cq mr wc h).1.sys.calls
  unfolding read_loop
  read_loop-Inside fuel zero qp i cq mr wc h inside = inside
  read_loop-Inside fuel (suc ops) qp i cq mr wc h inside =
      let step = read_once-Inside fuel qp i cq mr wc h inside in
      let h' = (read_once v n os b fuel qp i cq mr wc h).1 in
      elim (Option-cases (read_once v n os b fuel qp i cq mr wc h).0) [
        | inl e ↦ ground (arith, step)
        | inr (wc', e) ↦ ground (arith, read_loop-Inside fuel ops qp i cq mr wc' h' step)
      ]
