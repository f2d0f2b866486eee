-- ===== src/Micro.antt =====
-- The multi-threaded microbenchmark, of nvm_ibverbs/examples/multi_thread/rdma_micro.hh: constructor,
-- destructor, and the reads of a client thread. The set-up of a thread, and the rounds that a server
-- thread writes, are the lines of rdma_bench.cc again, and are those of Bench.
pub mod Reads
use nvm_rdma_examples.Prelude.{
  ℕ, zero, suc, ◌*◌, ◌^◌, Bool, true, false, List, Option, none, some, if◌then◌else◌,
}
use nvm_rdma_examples.Prelude.Int.{ℤ, pos}
use nvm_rdma_examples.Verbs.Types.{PortAttr, Qp, Mr, Wc}
use nvm_rdma_examples.Verbs.Interface.{Verbs}
use nvm_rdma_examples.Sockets.{Sockets}
use nvm_rdma_examples.Os.{Os, open_nvm}
use nvm_rdma_examples.Effects.{Call, Sys, M}
use nvm_rdma_examples.Attempt.{Try, pure, ◌>>=◌, ◌>>◌}
use nvm_rdma_examples.QueuePair.{RdmaContext}
use nvm_rdma_examples.Context.{create_context, destroy_context}
use nvm_rdma_examples.Post.{rdma_read, poll_with_cq}
use nvm_rdma_examples.Exchange.{Locals}
use nvm_rdma_examples.Bench.{
  Bench, Host, max_thread, thread_buf, fill, lift, read_host, deref, client_connect,
}
use nvm_rdma_examples.Bench.Server.{reading, run_server_thread}
use nvm_rdma_examples.Bench.Lifecycle.{gid_idx, Slot, destroy_slots}

-- `buffersize`, `sock_port` and `mapsize`.
abbrev pub buffer_size : ℕ
buffer_size = 1024

abbrev pub micro_port : ℕ
micro_port = 7777

abbrev pub map_size : ℕ
map_size = 2 ^ 31

-- The size of the read of a client, and the number of its rounds.
abbrev pub read_size : ℕ
read_size = 100

abbrev pub read_rounds : ℕ
read_rounds = 10

-- The members once the buffer is at an address.
unfoldable pub micro : RdmaContext → ℕ → ℕ → Bench
micro ctx buf size = record {
  ctx = ctx;
  buf = buf;
  buf_size = size;
  block_size = buffer_size;
  sock_port = micro_port;
}

module _ {W : Type 0} (v : Verbs W) (os : Os W) where
  -- The constructor, with the memory of the process: `none` is `exit(-1)` of `opennvm`, or a write to
  -- MAP_FAILED. `heap` is the address that `malloc` returns.
  unfoldable pub create_micro :
      RdmaContext → PortAttr → ℕ → Bool → (ℕ → ℕ) → M W (Option (Bench × (ℕ → ℕ)))
  unfolding micro
  create_micro ctx junk heap use_nvm memory s =
      let ((ctx', ok), s1) = create_context v ctx 1 gid_idx 0 junk s in
      if use_nvm
      then (let (opened, w) = open_nvm os map_size s1.world in
          let s2 : Sys W = record s1 { world = w } in
          elim opened [
            | none ↦ (none, s2)
            | some none ↦ (none, s2)
            | some (some buf) ↦
                (some (micro ctx' buf map_size, fill buf b'a' buffer_size memory), s2)
          ])
      else (some (micro ctx' heap (max_thread * buffer_size), memory), s1)

module _ {W : Type 0} (v : Verbs W) where
  -- The destructor, for the threads that were run: results are reported and no more.
  unfoldable pub destroy_micro : Bench → ℕ → List Slot → M W (Option (Unit {0}))
  destroy_micro b thread_num slots s =
      let (o, s') = destroy_slots v thread_num slots s in
      elim o [ none ↦ (none, s') | some u ↦ (some tt, (destroy_context v b.ctx s').1) ]

  -- One round of a client: `wc` is what the uninitialised completion of the round holds.
  unfoldable pub micro_read : ℕ → Bench → Qp → ℕ → ℕ → Mr → Wc → Try (Host W) (Unit {0})
  micro_read fuel b qp i cq mr wc = do
    h ← read_host
    lift (
        rdma_read v qp (thread_buf b i) h.remote_info.data_vaddr read_size mr.lkey
          h.remote_info.r_key true 0)
    polled ← lift (poll_with_cq v fuel cq (pos 1) wc)
    deref polled
    pure tt

  unfoldable pub micro_reads : ℕ → ℕ → Bench → Qp → ℕ → ℕ → Mr → Wc → Try (Host W) (Unit {0})
  micro_reads fuel zero b qp i cq mr wc = pure tt
  micro_reads fuel (suc rounds) b qp i cq mr wc = do
    micro_read fuel b qp i cq mr wc
    micro_reads fuel rounds b qp i cq mr wc

module _ {W : Type 0} (v : Verbs W) (n : Sockets W) (os : Os W) where
  -- `run_client_thread`; the bytes printed after each round are left out.
  unfoldable pub micro_client_thread : ℕ → Bench → ℕ → Locals → Wc → Try (Host W) (Unit {0})
  micro_client_thread fuel b i l wc = do
    qp ← client_connect v n os b i l
    h ← read_host
    cq ← deref h.cq
    mr ← deref h.mr
    micro_reads v fuel read_rounds b qp i cq mr wc

  -- `run_server_thread`, for a number of rounds of its endless loop (`WRITE` is not defined): the lines
  -- are those of the benchmark "read".
  unfoldable pub micro_server_thread : ℕ → Bench → ℕ → Locals → Try (Host W) (Unit {0})
  micro_server_thread rounds b i l = run_server_thread v n os b rounds reading i l
