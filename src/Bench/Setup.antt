-- ===== src/Bench/Setup.antt =====
-- What a benchmark thread has set up, and the requests that its reads post.
use nvm_rdma_examples.Prelude.{
  ℕ, zero, suc, ◌+◌, ◌%◌, ◌^◌, ◌<◌, true, ◌∷◌, none, some, ◌≡◌, ◌≢◌, refl, arith, if◌then◌else◌,
}
use nvm_rdma_examples.Prelude.Int.{ℤ, pos, minus_one}
use nvm_rdma_examples.Verbs.Types.{Qp, Mr, Wc}
use nvm_rdma_examples.Verbs.Interface.{Verbs}
use nvm_rdma_examples.Sockets.{Sockets}
use nvm_rdma_examples.Os.{Os}
use nvm_rdma_examples.Effects.{Call, Sys}
use nvm_rdma_examples.Ledger.{total}
use nvm_rdma_examples.QueuePair.{psn_const, create_memory_region}
use nvm_rdma_examples.Post.{rdma_read, read_wr, poll_with_cq, poll_loop, is_success}
use nvm_rdma_examples.Bench.{
  Bench, Host, thread_buf, fill, fill_local_info, set_up, max_thread, read_once, read_loop,
}

-- The connection data of a thread name its queue pair and its memory region.
pub record IsSetUp {W : Type 0} (qp : Qp) (h : Host W) : Type 0 where
  pub own_qp : h.qp ≡ some qp
  pub own_qpn : h.local_info.qpn ≡ qp.qp_num
  pub own_psn : h.local_info.psn ≡ psn_const
  pub own_mr : h.local_info.mr ≡ h.mr
  pub own_region : h.mr ≢ none

module _ {W : Type 0} (v : Verbs W) (n : Sockets W) (os : Os W) (b : Bench) where
  -- A set-up that ends has the index of an array element, has made the connection data of its own
  -- queue pair and region, and has filled its own block and changed no other memory.
  pub set_up_lem :
      (first i : ℕ) (h : Host W) {qp : Qp}
      → (set_up v n os b first i h).0 ≡ some qp
      → (i < max_thread)
        × IsSetUp qp (set_up v n os b first i h).1
        × ((set_up v n os b first i h).1.memory
            ≡ fill (thread_buf b i) ((first + i) % 2 ^ 8) b.block_size h.memory)
  unfolding set_up fill_local_info create_memory_region
  set_up_lem first i h e = ground arith

abbrev pub sends : Call → ℕ
sends (Call.posted_send qp wr res) = 1
sends _ = 0

module _ {W : Type 0} (v : Verbs W) (n : Sockets W) (os : Os W) (b : Bench) (cq : ℕ)
    (prompt : (w : W) → (wc : Wc) × ((v.poll_cq cq w).0 ≡ (pos 1, some wc))) where
  poll_with_cq_prompt :
      (fuel : ℕ) (wc : Wc) (s : Sys W)
      → (r : ℤ × Wc) × ((poll_with_cq v (suc fuel) cq (pos 1) wc s).0 ≡ some r)
        × (total sends (poll_with_cq v (suc fuel) cq (pos 1) wc s).1.calls ≡ total sends s.calls)
  unfolding poll_with_cq poll_loop
  poll_with_cq_prompt fuel wc s =
      let (c, e) = prompt s.world in
      ((if is_success c.status then pos 1 else minus_one, c), ground arith, ground arith)

  read_once_lem :
      (fuel : ℕ) (qp : Qp) (i : ℕ) (mr : Mr) (wc : Wc) (h : Host W)
      → (wc' : Wc) × ((read_once v n os b (suc fuel) qp i cq mr wc h).0 ≡ some wc')
        × (total sends (read_once v n os b (suc fuel) qp i cq mr wc h).1.sys.calls
            ≡ total sends h.sys.calls + 1)
  unfolding read_once rdma_read
  read_once_lem fuel qp i mr wc h =
      let wr =
        read_wr (thread_buf b i) h.remote_info.data_vaddr b.block_size mr.lkey h.remote_info.r_key
          true 0 in
      let s1 : Sys W = record {
        world = (v.post_send qp wr h.sys.world).1;
        calls = Call.posted_send qp wr (v.post_send qp wr h.sys.world).0 ∷ h.sys.calls;
      } in
      let (r, e, c) = poll_with_cq_prompt fuel wc s1 in (r.1, ground arith, ground arith)

  -- Where every poll finds a completion, the reading loop of the client ends after its operations,
  -- having posted one request for each.
  pub read_loop_ends :
      (fuel ops : ℕ) (qp : Qp) (i : ℕ) (mr : Mr) (wc : Wc) (h : Host W)
      → ((read_loop v n os b (suc fuel) ops qp i cq mr wc h).0 ≡ some tt)
        × (total sends (read_loop v n os b (suc fuel) ops qp i cq mr wc h).1.sys.calls
            ≡ total sends h.sys.calls + ops)
  unfolding read_loop
  read_loop_ends fuel zero qp i mr wc h = (refl, omega arith)
  read_loop_ends fuel (suc ops) qp i mr wc h =
      let (wc', e, c) = read_once_lem fuel qp i mr wc h in
      ground (
        arith,
        read_loop_ends fuel ops qp i mr wc' (read_once v n os b (suc fuel) qp i cq mr wc h).1,
      )
