-- ===== src/Programs/ReadServer.antt =====
-- `main` of nvm_ibverbs/examples/RdmaRead/server.cc, with `use_nvm` as it is set.
pub mod Memory
pub mod First
use nvm_rdma_examples.Prelude.{ℕ, zero, suc, ◌+◌, ◌*◌, List, [], ◌∷◌, Option}
use nvm_rdma_examples.Text.Digits.{Bytes}
use nvm_rdma_examples.Verbs.Types.{PortAttr}
use nvm_rdma_examples.Verbs.Interface.{Verbs}
use nvm_rdma_examples.Sockets.{Sockets}
use nvm_rdma_examples.Os.{Os}
use nvm_rdma_examples.Effects.{Call, call}
use nvm_rdma_examples.Attempt.{Try, pure, goto_exit, ◌>>=◌, ◌>>◌, update}
use nvm_rdma_examples.QueuePair.{RdmaContext}
use nvm_rdma_examples.Context.{create_context, destroy_context}
use nvm_rdma_examples.Exchange.{Locals}
use nvm_rdma_examples.Bench.{raw_recv_cq_count, max_thread}
use nvm_rdma_examples.Bench.Lifecycle.{gid_idx}
use nvm_rdma_examples.Bench.Rounds.{store_bytes}
use nvm_rdma_examples.Programs.{
  Process, buf_size, nvm_size, lift, deref, open_and_fill, server_link,
}

-- "Zhang RUI" with its terminator, the 10 bytes that are copied.
abbrev pub upper_text : Bytes
upper_text = b'Z' ∷ b'h' ∷ b'a' ∷ b'n' ∷ b'g' ∷ b' ' ∷ b'R' ∷ b'U' ∷ b'I' ∷ 0 ∷ []

-- The inner loop from a number on, for the rounds that are left: each copies the text to its place.
unfoldable pub write_texts : ℕ → ℕ → ℕ → (ℕ → ℕ) → ℕ → ℕ
write_texts zero buf kk memory = memory
write_texts (suc rounds) buf kk memory =
    write_texts rounds buf (suc kk) (store_bytes (buf + kk * 10) upper_text memory)

-- One pass of the endless loop.
unfoldable pub write_pass : ℕ → (ℕ → ℕ) → ℕ → ℕ
write_pass buf memory = write_texts buf_size buf 0 memory

module _ {W : Type 0} where
  -- `while (1)`, on a number of passes: it has no result, so nothing runs behind it.
  unfoldable pub keep_writing : ℕ → ℕ → Try (Process W) (Unit {0})
  keep_writing zero buf = goto_exit
  keep_writing (suc passes) buf = do
    update (λ p. record p { memory = write_pass buf p.memory })
    keep_writing passes buf

module _ {W : Type 0} (v : Verbs W) (n : Sockets W) where
  -- The connections from a number on, for those that are left.
  unfoldable pub read_services :
      ℕ → ℕ → RdmaContext → ℕ → Option ℕ → Locals → ℕ → Try (Process W) (Unit {0})
  read_services passes zero ctx buf cq l i = pure tt
  read_services passes (suc rounds) ctx buf cq l i = do
    server_link v n ctx buf cq l i i
    keep_writing passes buf
    read_services passes rounds ctx buf cq l (suc i)

module _ {W : Type 0} (v : Verbs W) (n : Sockets W) (os : Os W) where
  -- `main`, after a number of passes of its endless loop: the result is `none` as long as it runs, and
  -- where a null pointer is followed, a buffer overflows or `opennvm` exits.
  unfoldable pub read_server : ℕ → RdmaContext → PortAttr → Locals → Try (Process W) (Unit {0})
  read_server passes ctx0 junk l = do
    created ← lift (create_context v ctx0 1 gid_idx 0 junk)
    buf ← open_and_fill os nvm_size
    ctx ← deref created.0.ctx
    cq ← lift (call (v.create_cq ctx raw_recv_cq_count) (Call.created_cq ctx raw_recv_cq_count))
    read_services v n passes max_thread created.0 buf cq l 0
    lift (destroy_context v created.0)
    pure tt
