-- ===== src/Programs/WriteServer.antt =====
-- `main` of nvm_ibverbs/examples/RdmaWrite/server.cc, with `use_nvm` and `WRITE` as they are set. The
-- text of the gid, which is not used, and what is printed are left out.
pub mod First
use nvm_rdma_examples.Prelude.{ℕ, zero, suc, ◌+◌, List, [], ◌∷◌, Option}
use nvm_rdma_examples.Text.Digits.{Bytes}
use nvm_rdma_examples.Verbs.Types.{PortAttr}
use nvm_rdma_examples.Verbs.Interface.{Verbs}
use nvm_rdma_examples.Sockets.{Sockets}
use nvm_rdma_examples.Os.{Os}
use nvm_rdma_examples.Effects.{Call, call}
use nvm_rdma_examples.Attempt.{Try, pure, goto_exit, ◌>>=◌, ◌>>◌}
use nvm_rdma_examples.QueuePair.{RdmaContext}
use nvm_rdma_examples.Context.{create_context, destroy_context}
use nvm_rdma_examples.Exchange.{Locals}
use nvm_rdma_examples.Bench.{raw_recv_cq_count, max_thread}
use nvm_rdma_examples.Bench.Lifecycle.{gid_idx}
use nvm_rdma_examples.Bench.Server.{bytes_from}
use nvm_rdma_examples.Programs.{
  Process, buf_size, nvm_size, lift, read_process, deref, open_and_fill, server_link,
}

module _ {W : Type 0} where
  -- `while (1)`, on a number of passes: each reads the bytes that it prints.
  unfoldable pub keep_printing : ℕ → ℕ → Try (Process W) (Unit {0})
  keep_printing zero nvmbuf = goto_exit
  keep_printing (suc passes) nvmbuf = do
    p ← read_process
    let printed = bytes_from buf_size nvmbuf p.memory
    keep_printing passes nvmbuf

module _ {W : Type 0} (v : Verbs W) (n : Sockets W) (os : Os W) where
  -- The connections from a number on, for those that are left: each maps the device.
  unfoldable pub write_services :
      ℕ → ℕ → RdmaContext → Option ℕ → Locals → ℕ → Try (Process W) (Unit {0})
  write_services passes zero ctx cq l i = pure tt
  write_services passes (suc rounds) ctx cq l i = do
    nvmbuf ← open_and_fill os nvm_size
    server_link v n ctx nvmbuf cq l i i
    keep_printing passes nvmbuf
    write_services passes rounds ctx cq l (suc i)

  -- `main`, after a number of passes of its endless loop; `none` as for the server of reads.
  unfoldable pub write_server : ℕ → RdmaContext → PortAttr → Locals → Try (Process W) (Unit {0})
  write_server passes ctx0 junk l = do
    created ← lift (create_context v ctx0 1 gid_idx 0 junk)
    ctx ← deref created.0.ctx
    cq ← lift (call (v.create_cq ctx raw_recv_cq_count) (Call.created_cq ctx raw_recv_cq_count))
    write_services passes max_thread created.0 cq l 0
    lift (destroy_context v created.0)
    pure tt
