-- ===== src/OneSided.antt =====
-- The client of the example of one-sided writes, of nvm_ibverbs/examples/RdmaWrite/client.cc. What it prints,
-- its pauses, and the bytes of the gid, which are not used, are left out.
pub mod Entries
use nvm_rdma_examples.Prelude.{
  ℕ, zero, suc, ◌+◌, ◌*◌, Bool, true, false, List, [], ◌∷◌, Option, none, some, if◌then◌else◌,
}
use nvm_rdma_examples.Prelude.Int.{minus_one}
use nvm_rdma_examples.Text.Digits.{Bytes}
use nvm_rdma_examples.Verbs.Types.{Qp, Mr, Wc, PortAttr}
use nvm_rdma_examples.Verbs.Interface.{Verbs}
use nvm_rdma_examples.Sockets.{Sockets}
use nvm_rdma_examples.Effects.{Call, call}
use nvm_rdma_examples.Attempt.{Try, pure, ◌>>=◌, ◌>>◌, update}
use nvm_rdma_examples.QueuePair.{RdmaContext, create_memory_region}
use nvm_rdma_examples.Context.{create_context, destroy_context}
use nvm_rdma_examples.Post.{rdma_write}
use nvm_rdma_examples.Exchange.{Locals}
use nvm_rdma_examples.Bench.{raw_recv_cq_count, max_thread}
use nvm_rdma_examples.Bench.Lifecycle.{gid_idx}
use nvm_rdma_examples.Bench.Rounds.{store_bytes}
use nvm_rdma_examples.Programs.{
  Process, buf_size, buf_at, lift, read_process, deref, poll_one, client_link,
}

-- The text of a round with its terminator.
abbrev pub name_text : Bytes
name_text = b'Z' ∷ b'h' ∷ b'a' ∷ b'n' ∷ b'g' ∷ b' ' ∷ b'R' ∷ b'u' ∷ b'i' ∷ 0 ∷ []

module _ {W : Type 0} (v : Verbs W) where
  -- One round: the text is copied into the buffer, and from there to the peer; `wc` is what the
  -- uninitialised completion holds.
  unfoldable pub write_round : ℕ → ℕ → Qp → ℕ → Option ℕ → Mr → ℕ → Wc → Try (Process W) (Unit {0})
  write_round fuel buf qp i cq mr kk wc = do
    update (λ p. record p { memory = store_bytes (buf_at buf i + 10 * kk) name_text p.memory })
    p ← read_process
    let remote = p.remote_info i
    lift (
        rdma_write v qp (buf_at buf i + 10 * kk) (remote.data_vaddr + 10 * kk) 10 mr.lkey
          remote.r_key minus_one true 0)
    poll_one v fuel cq wc
    pure tt

  -- The rounds from a number on, for those that are left.
  unfoldable pub write_rounds :
      ℕ → ℕ → ℕ → Qp → ℕ → Option ℕ → Mr → ℕ → Wc → Try (Process W) (Unit {0})
  write_rounds fuel zero buf qp i cq mr kk wc = pure tt
  write_rounds fuel (suc rounds) buf qp i cq mr kk wc = do
    write_round fuel buf qp i cq mr kk wc
    write_rounds fuel rounds buf qp i cq mr (suc kk) wc

module _ {W : Type 0} (v : Verbs W) (n : Sockets W) where
  -- One round of the loop over the connections; the result is false at `goto out`.
  unfoldable pub connect_and_write :
      ℕ → RdmaContext → ℕ → Option ℕ → Option Mr → Locals → Wc → ℕ → Try (Process W) Bool
  connect_and_write fuel ctx buf cq mr l wc i = do
    linked ← client_link v n ctx buf cq mr l i
    (elim linked [
      | none ↦ pure false
      | some qp ↦ (do region ← deref mr; write_rounds v fuel 10 buf qp i cq region 0 wc; pure true)
    ])

  -- The connections from a number on, for those that are left.
  unfoldable pub write_connections :
      ℕ → ℕ → RdmaContext → ℕ → Option ℕ → Option Mr → Locals → Wc → ℕ → Try (Process W) (Unit {0})
  write_connections fuel zero ctx buf cq mr l wc i = pure tt
  write_connections fuel (suc rounds) ctx buf cq mr l wc i = do
    let rest = write_connections fuel rounds ctx buf cq mr l wc (suc i)
    done ← connect_and_write fuel ctx buf cq mr l wc i
    (if done then rest else pure tt)

  -- `main`, where `buf` is the address of the array: the region that every connection uses is that of
  -- the first buffer, and `localmr` is not used again. `none` is a null pointer that is followed, a buffer that overflows, or fuel that ran out.
  unfoldable pub write_client :
      ℕ → RdmaContext → PortAttr → ℕ → Locals → Wc → Try (Process W) (Unit {0})
  write_client fuel ctx0 junk buf l wc = do
    created ← lift (create_context v ctx0 1 gid_idx 0 junk)
    ctx ← deref created.0.ctx
    cq ← lift (call (v.create_cq ctx raw_recv_cq_count) (Call.created_cq ctx raw_recv_cq_count))
    mr ← lift (create_memory_region v (buf_at buf 0) buf_size created.0)
    localmr ← lift (create_memory_region v (buf_at buf 1) buf_size created.0)
    write_connections fuel max_thread created.0 buf cq mr l wc 0
    lift (destroy_context v created.0)
    pure tt
