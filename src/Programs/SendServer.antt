-- ===== src/Programs/SendServer.antt =====
-- `main` of nvm_ibverbs/examples/send_recv/rdma_send.cc, with `use_nvm` as it is set.
pub mod Peer
use nvm_rdma_examples.Prelude.{ℕ, zero, suc, ◌+◌, List, [], ◌∷◌, Option}
use nvm_rdma_examples.Prelude.Int.{minus_one}
use nvm_rdma_examples.Verbs.Types.{PortAttr, Wc}
use nvm_rdma_examples.Verbs.Interface.{Verbs}
use nvm_rdma_examples.Sockets.{Sockets}
use nvm_rdma_examples.Os.{Os}
use nvm_rdma_examples.Effects.{Call, call}
use nvm_rdma_examples.Attempt.{Try, pure, ◌>>=◌, ◌>>◌, update}
use nvm_rdma_examples.QueuePair.{RdmaContext}
use nvm_rdma_examples.Context.{create_context, destroy_context}
use nvm_rdma_examples.Post.{rdma_send}
use nvm_rdma_examples.Exchange.{Locals}
use nvm_rdma_examples.Bench.{raw_recv_cq_count, max_thread}
use nvm_rdma_examples.Bench.Lifecycle.{gid_idx}
use nvm_rdma_examples.Bench.Rounds.{store_bytes}
use nvm_rdma_examples.OneSided.{name_text}
use nvm_rdma_examples.Programs.{
  Process, nvm_size, lift, deref, poll_one, open_and_fill, server_link,
}

module _ {W : Type 0} (v : Verbs W) (n : Sockets W) (os : Os W) where
  -- One connection: `modifyQPtoRTR` is given the array `remote_info`, which is its first element. The
  -- address sent from is that of the region, as `local_info[i].data_vaddr` is.
  unfoldable pub send_one :
      ℕ → RdmaContext → Option ℕ → Locals → Wc → ℕ → Try (Process W) (Unit {0})
  send_one fuel ctx cq l wc i = do
    nvmbuf ← open_and_fill os nvm_size
    linked ← server_link v n ctx nvmbuf cq l 0 i
    update (λ p. record p { memory = store_bytes nvmbuf name_text p.memory })
    lift (rdma_send v linked.0 linked.1.addr 1500 linked.1.lkey minus_one)
    poll_one v fuel cq wc
    pure tt

  -- The connections from a number on, for those that are left.
  unfoldable pub send_services :
      ℕ → ℕ → RdmaContext → Option ℕ → Locals → Wc → ℕ → Try (Process W) (Unit {0})
  send_services fuel zero ctx cq l wc i = pure tt
  send_services fuel (suc rounds) ctx cq l wc i = do
    send_one fuel ctx cq l wc i
    send_services fuel rounds ctx cq l wc (suc i)

  -- `main`; `none` is a null pointer that is followed, a buffer that overflows, the exit of `opennvm`,
  -- or fuel that ran out.
  unfoldable pub send_server : ℕ → RdmaContext → PortAttr → Locals → Wc → Try (Process W) (Unit {0})
  send_server fuel ctx0 junk l wc = do
    created ← lift (create_context v ctx0 1 gid_idx 0 junk)
    ctx ← deref created.0.ctx
    cq ← lift (call (v.create_cq ctx raw_recv_cq_count) (Call.created_cq ctx raw_recv_cq_count))
    send_services fuel max_thread created.0 cq l wc 0
    lift (destroy_context v created.0)
    pure tt
