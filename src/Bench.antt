-- ===== src/Bench.antt =====
-- The threads of the read benchmark, of nvm_ibverbs/benchmarks/readwrite/rdma_bench.cc and .hh: the
-- set-up of a client and of a server thread, the reads of the client, and a round of the server.
pub mod Setup
pub mod Rounds
pub mod Server
pub mod Regions
pub mod Inside
pub mod Lifecycle
pub mod Threads
use nvm_rdma_examples.Prelude.{
  ℕ, zero, suc, ◌+◌, ◌-◌, ◌*◌, ◌/◌, ◌%◌, Bool, true, false, ◌&&◌, List, [], ◌∷◌, ◌++◌, Option, none,
  some, if◌then◌else◌, u8, ltb, leb, ◌==◌, length, get_elem?,
}
use nvm_rdma_examples.Prelude.Int.{ℤ, pos, minus_one, to_u32}
use nvm_rdma_examples.Text.Digits.{Bytes}
use nvm_rdma_examples.Verbs.Types.{rc, Qp, Mr, Wc}
use nvm_rdma_examples.Verbs.Interface.{Verbs}
use nvm_rdma_examples.Sockets.{Sockets}
use nvm_rdma_examples.Os.{Os, stick_this_thread_to_core}
use nvm_rdma_examples.Effects.{Call, Sys, M, call, quiet}
use nvm_rdma_examples.Attempt.{Try, pure, goto_exit, ◌>>=◌, ◌>>◌, update}
use nvm_rdma_examples.QueuePair.{
  RdmaContext, ConnectInfo, psn_const, create_queue_pair_shared, create_memory_region,
  modify_qp_to_init, modify_qp_to_rtr, modify_qp_to_rts,
}
use nvm_rdma_examples.Post.{rdma_read, poll_with_cq}
use nvm_rdma_examples.Exchange.{Locals, client_exch_data, server_exch_data}

-- `RAW_RECV_CQ_COUNT` and `MAX_THREAD` of rdma_common.hh.
abbrev pub raw_recv_cq_count : ℕ
raw_recv_cq_count = 128

abbrev pub max_thread : ℕ
max_thread = 10

-- The members that the threads share and do not change.
pub record Bench : Type 0 where
  pub ctx : RdmaContext
  pub buf : ℕ
  pub buf_size : ℕ
  pub block_size : ℕ
  pub sock_port : ℕ

-- The elements of the arrays that belong to one thread, the memory of the process, and the state.
pub record Host (W : Type 0) : Type 0 where
  pub cq : Option ℕ
  pub mr : Option Mr
  pub qp : Option Qp
  pub local_info : ConnectInfo
  pub remote_info : ConnectInfo
  pub memory : ℕ → ℕ
  pub sys : Sys W

unfoldable pub thread_buf : Bench → ℕ → ℕ
thread_buf b i = b.buf + i * b.block_size

-- `memset`.
unfoldable pub fill : ℕ → ℕ → ℕ → (ℕ → ℕ) → ℕ → ℕ
fill start value size memory a = if leb start a && ltb a (start + size) then value else memory a

module _ {W : Type 0} where
  abbrev pub lift : {A : Type 0} → M W A → Try (Host W) A
  lift m h = let (a, s) = m h.sys in (some a, record h { sys = s })

  abbrev pub read_host : Try (Host W) (Host W)
  read_host h = (some h, h)

  -- A null pointer that is followed ends the run.
  abbrev pub deref : {A : Type 0} → Option A → Try (Host W) A
  deref none h = (none, h)
  deref (some a) h = (some a, h)

-- The connection data that a thread fills in; `gidIndex` has 8 bits.
unfoldable pub fill_local_info : Bench → Qp → Mr → ConnectInfo → ConnectInfo
fill_local_info b qp mr info = record info {
  qpn = qp.qp_num;
  psn = psn_const;
  lid = b.ctx.lid;
  gid = b.ctx.gid;
  gid_index = u8 (to_u32 b.ctx.gid_index);
  mr = some mr;
  data_vaddr = mr.addr;
  r_key = mr.rkey;
}

-- What the exchange leaves: `none` where a buffer overflowed, else whether it says success.
abbrev pub take_remote : {W : Type 0} → Option (Bool × ConnectInfo) → Try (Host W) (Unit {0})
take_remote none h = (none, h)
take_remote (some (done, info)) h = (some tt, record h { remote_info = info })

module _ {W : Type 0} (v : Verbs W) (n : Sockets W) (os : Os W) (b : Bench) where
  -- The lines that client and server share, up to the transition to INIT: an element beyond the
  -- arrays, a null queue pair and a null memory region end the run.
  unfoldable pub set_up : ℕ → ℕ → Try (Host W) Qp
  set_up first i = do
    lift (quiet (stick_this_thread_to_core os (pos i)))
    deref (if ltb i max_thread then some tt else none)
    ctx ← deref b.ctx.ctx
    cq ← lift (call (v.create_cq ctx raw_recv_cq_count) (Call.created_cq ctx raw_recv_cq_count))
    mr ← lift (create_memory_region v (thread_buf b i) b.block_size b.ctx)
    update (λ h. record h {
      cq = cq;
      mr = mr;
      memory = fill (thread_buf b i) (u8 (first + i)) b.block_size h.memory;
    })
    made ← lift (create_queue_pair_shared v rc cq b.ctx 128 0)
    update (λ h. record h { qp = made.0 })
    qp ← deref made.0
    region ← deref mr
    update (λ h. record h { local_info = fill_local_info b qp region h.local_info })
    lift (modify_qp_to_init v qp b.ctx)
    pure qp

  -- The transitions after the exchange; no result is looked at.
  unfoldable pub connect_qp : Qp → Try (Host W) Qp
  connect_qp qp = do
    h ← read_host
    lift (modify_qp_to_rtr v qp h.remote_info)
    r ← lift (modify_qp_to_rts v qp)
    update (λ h. record h { qp = some r.0 })
    pure r.0

  -- The set-up of `run_client_thread`: a failed exchange is reported and no more.
  unfoldable pub client_connect : ℕ → Locals → Try (Host W) Qp
  client_connect i l = do
    qp ← set_up b'a' i
    h ← read_host
    r ← lift (client_exch_data n (pos (b.sock_port + i)) h.local_info h.remote_info l)
    take_remote r
    connect_qp qp

  -- The set-up of `run_server_thread`.
  unfoldable pub server_connect : ℕ → Locals → Try (Host W) Qp
  server_connect i l = do
    qp ← set_up b'A' i
    h ← read_host
    r ← lift (server_exch_data n (pos (b.sock_port + i)) h.local_info h.remote_info l)
    take_remote r
    connect_qp qp

  -- One read of the benchmark and the poll for its completion, whose results are not looked at;
  -- `none` is a run out of fuel. The times taken and the histogram are left out.
  unfoldable pub read_once : ℕ → Qp → ℕ → ℕ → Mr → Wc → Try (Host W) Wc
  read_once fuel qp i cq mr wc = do
    h ← read_host
    lift (
        rdma_read v qp (thread_buf b i) h.remote_info.data_vaddr b.block_size mr.lkey
          h.remote_info.r_key true 0)
    polled ← lift (poll_with_cq v fuel cq (pos 1) wc)
    r ← deref polled
    pure r.1

  -- `for (int kk = 0; kk < FLAGS_ops; kk++)`, over the rounds that are left.
  unfoldable pub read_loop : ℕ → ℕ → Qp → ℕ → ℕ → Mr → Wc → Try (Host W) (Unit {0})
  read_loop fuel zero qp i cq mr wc = pure tt
  read_loop fuel (suc ops) qp i cq mr wc = do
    wc' ← read_once fuel qp i cq mr wc
    read_loop fuel ops qp i cq mr wc'

  -- `run_client_thread` with the benchmark "read".
  unfoldable pub run_client_thread : ℕ → ℕ → ℕ → Locals → Wc → Try (Host W) (Unit {0})
  run_client_thread fuel ops i l wc = do
    qp ← client_connect i l
    h ← read_host
    cq ← deref h.cq
    mr ← deref h.mr
    read_loop fuel ops qp i cq mr wc
