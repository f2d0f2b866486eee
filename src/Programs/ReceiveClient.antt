-- ===== src/Programs/ReceiveClient.antt =====
-- `main` of nvm_ibverbs/examples/send_recv/rdma_recv.cc. What it prints, and the bytes of the gid, which are not
-- used, are left out.
pub mod Posts
use nvm_rdma_examples.Prelude.{ℕ, zero, suc, Bool, true, false, Option, none, some, if◌then◌else◌}
use nvm_rdma_examples.Verbs.Types.{Qp, Mr, Wc, PortAttr}
use nvm_rdma_examples.Verbs.Interface.{Verbs}
use nvm_rdma_examples.Sockets.{Sockets}
use nvm_rdma_examples.Effects.{Call, call}
use nvm_rdma_examples.Attempt.{Try, pure, ◌>>=◌, ◌>>◌}
use nvm_rdma_examples.QueuePair.{RdmaContext, create_memory_region}
use nvm_rdma_examples.Context.{create_context, destroy_context}
use nvm_rdma_examples.Post.{rdma_read, rdma_receive}
use nvm_rdma_examples.Exchange.{Locals}
use nvm_rdma_examples.Bench.{raw_recv_cq_count, max_thread}
use nvm_rdma_examples.Bench.Lifecycle.{gid_idx}
use nvm_rdma_examples.Programs.{
  Process, buf_size, buf_at, lift, read_process, deref, poll_one, client_link,
}

module _ {W : Type 0} (v : Verbs W) where
  -- The read into `buf[0]`, then the receive into `buf[i]`, each with its poll; both use the key of
  -- the region of `buf[0]`.
  unfoldable pub read_and_receive : ℕ → ℕ → Qp → ℕ → Option ℕ → Mr → Wc → Try (Process W) (Unit {0})
  read_and_receive fuel buf qp i cq mr wc = do
    p ← read_process
    let remote = p.remote_info i
    lift (rdma_read v qp (buf_at buf 0) remote.data_vaddr 100 mr.lkey remote.r_key true 0)
    wc' ← poll_one v fuel cq wc
    lift (rdma_receive v qp (buf_at buf i) 1500 mr.lkey 0)
    poll_one v fuel cq wc'
    pure tt

module _ {W : Type 0} (v : Verbs W) (n : Sockets W) where
  -- One round of the loop over the connections; the result is false at `goto out`.
  unfoldable pub connect_and_receive :
      ℕ → RdmaContext → ℕ → Option ℕ → Option Mr → Locals → Wc → ℕ → Try (Process W) Bool
  connect_and_receive fuel ctx buf cq mr l wc i = do
    linked ← client_link v n ctx buf cq mr l i
    (elim linked [
      | none ↦ pure false
      | some qp ↦ (do region ← deref mr; read_and_receive v fuel buf qp i cq region wc; pure true)
    ])

  -- The connections from a number on, for those that are left.
  unfoldable pub receive_connections :
      ℕ → ℕ → RdmaContext → ℕ → Option ℕ → Option Mr → Locals → Wc → ℕ → Try (Process W) (Unit {0})
  receive_connections fuel zero ctx buf cq mr l wc i = pure tt
  receive_connections fuel (suc rounds) ctx buf cq mr l wc i = do
    let rest = receive_connections fuel rounds ctx buf cq mr l wc (suc i)
    done ← connect_and_receive fuel ctx buf cq mr l wc i
    (if done then rest else pure tt)

  -- `main`, where `buf` is the address of the array: every connection uses the region of `buf[0]`.
  unfoldable pub receive_client :
      ℕ → RdmaContext → PortAttr → ℕ → Locals → Wc → Try (Process W) (Unit {0})
  receive_client fuel ctx0 junk buf l wc = do
    created ← lift (create_context v ctx0 1 gid_idx 0 junk)
    ctx ← deref created.0.ctx
    cq ← lift (call (v.create_cq ctx raw_recv_cq_count) (Call.created_cq ctx raw_recv_cq_count))
    mr ← lift (create_memory_region v (buf_at buf 0) buf_size created.0)
    receive_connections fuel max_thread created.0 buf cq mr l wc 0
    lift (destroy_context v created.0)
    pure tt
