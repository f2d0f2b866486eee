-- ===== src/Programs.antt =====
-- What the `main` functions of nvm_ibverbs/examples share: the state of the process, the connection of
-- a client, and that of a server, in the order of the lines that they repeat.
pub mod ReadClient
pub mod ReadServer
pub mod WriteServer
pub mod SendServer
pub mod ReceiveClient
pub mod Polled
pub mod Named
pub mod Talks
pub mod Links
pub mod Peers
pub mod Connected
use nvm_rdma_examples.Prelude.{
  ℕ, zero, suc, ◌+◌, ◌*◌, Bool, true, false, List, [], ◌∷◌, Option, none, some, if◌then◌else◌, u8,
  ◌==◌,
}
use nvm_rdma_examples.Prelude.Int.{ℤ, pos, to_u32}
use nvm_rdma_examples.Verbs.Types.{rc, Qp, Mr, Wc}
use nvm_rdma_examples.Verbs.Interface.{Verbs}
use nvm_rdma_examples.Sockets.{Sockets}
use nvm_rdma_examples.Os.{Os, open_nvm}
use nvm_rdma_examples.Effects.{Sys, M}
use nvm_rdma_examples.Attempt.{Try, pure, goto_exit, ◌>>=◌, ◌>>◌, update}
use nvm_rdma_examples.QueuePair.{
  RdmaContext, ConnectInfo, psn_const, create_queue_pair_shared, create_memory_region,
  modify_qp_to_init, modify_qp_to_rtr, modify_qp_to_rts,
}
use nvm_rdma_examples.Post.{poll_with_cq}
use nvm_rdma_examples.Exchange.{Locals, client_exch_data, server_exch_data}
use nvm_rdma_examples.Bench.{fill}

-- `BUF_SIZE`, `sock_port` and `mysize`.
abbrev pub buf_size : ℕ
buf_size = 4096

abbrev pub example_port : ℤ
example_port = pos 8888

abbrev pub nvm_size : ℕ
nvm_size = 1024 * 1024 * 1024 * 2

-- `buf[i]` of the array at an address.
abbrev pub buf_at : ℕ → ℕ → ℕ
buf_at buf i = buf + i * buf_size

-- The arrays of a process, its memory, and the state that it runs in.
pub record Process (W : Type 0) : Type 0 where
  pub all_qp : ℕ → Option Qp
  pub local_info : ℕ → ConnectInfo
  pub remote_info : ℕ → ConnectInfo
  pub memory : ℕ → ℕ
  pub sys : Sys W

-- An array after an assignment to one element.
unfoldable pub set_at {ℓ} : {A : Type ℓ} → ℕ → A → (ℕ → A) → ℕ → A
set_at i a f j = if i == j then a else f j

module _ {W : Type 0} where
  abbrev pub lift : {A : Type 0} → M W A → Try (Process W) A
  lift m p = let (a, s) = m p.sys in (some a, record p { sys = s })

  abbrev pub read_process : Try (Process W) (Process W)
  read_process p = (some p, p)

  -- A null pointer that is followed ends the run.
  abbrev pub deref : {A : Type 0} → Option A → Try (Process W) A
  deref none p = (none, p)
  deref (some a) p = (some a, p)

  -- What an exchange leaves in `remote_info[i]`: `none` where a buffer overflowed.
  abbrev pub take_remote : ℕ → Option (Bool × ConnectInfo) → Try (Process W) Bool
  take_remote i none p = (none, p)
  take_remote i (some (done, info)) p =
      (some done, record p { remote_info = set_at i info p.remote_info })

  -- `memset` of a buffer of the process.
  abbrev pub set_memory : ℕ → ℕ → Try (Process W) (Unit {0})
  set_memory start value = update (λ p. record p { memory = fill start value buf_size p.memory })

-- The fields of `local_info[i]`, with the address that the peer is told; `gidIndex` has 8 bits.
unfoldable pub own_info : RdmaContext → ℕ → Qp → Mr → ConnectInfo → ConnectInfo
own_info ctx vaddr qp mr info = record info {
  qpn = qp.qp_num;
  psn = psn_const;
  lid = ctx.lid;
  gid = ctx.gid;
  gid_index = u8 (to_u32 ctx.gid_index);
  mr = some mr;
  data_vaddr = vaddr;
  r_key = mr.rkey;
}

module _ {W : Type 0} (os : Os W) where
  -- `opennvm`, and `memset` of the first bytes: a failed mapping is written to, which ends the run.
  unfoldable pub open_and_fill : ℕ → Try (Process W) ℕ
  open_and_fill size = do
    opened ← (λ p.
        let (o, w) = open_nvm os size p.sys.world in
        (o, record p { sys = record p.sys { world = w } }))
    nvmbuf ← deref opened
    set_memory nvmbuf b'a'
    pure nvmbuf

module _ {W : Type 0} (v : Verbs W) where
  -- The queue pair of element `i`; a null pointer is followed by the next line.
  unfoldable pub make_qp : RdmaContext → Option ℕ → ℕ → Try (Process W) Qp
  make_qp ctx cq i = do
    made ← lift (create_queue_pair_shared v rc cq ctx 128 0)
    update (λ p. record p { all_qp = set_at i made.0 p.all_qp })
    deref made.0

  -- The transitions after the exchange, over the element of `remote_info` that is passed.
  unfoldable pub connect_to : ℕ → Qp → ℕ → Try (Process W) Qp
  connect_to peer qp i = do
    p ← read_process
    lift (modify_qp_to_rtr v qp (p.remote_info peer))
    r ← lift (modify_qp_to_rts v qp)
    update (λ p'. record p' { all_qp = set_at i (some r.0) p'.all_qp })
    pure r.0

  -- `pollWithCQ(cq, 1, &wc)`: its result is not looked at, and the completion stays.
  unfoldable pub poll_one : ℕ → Option ℕ → Wc → Try (Process W) Wc
  poll_one fuel cq wc = do
    queue ← deref cq
    polled ← lift (poll_with_cq v fuel queue (pos 1) wc)
    r ← deref polled
    pure r.1

module _ {W : Type 0} (v : Verbs W) (n : Sockets W) where
  -- The connection `i` of a client, whose buffer is `buf[i]` and whose region is shared: `none` is
  -- `goto out` after an exchange that failed.
  unfoldable pub client_link :
      RdmaContext → ℕ → Option ℕ → Option Mr → Locals → ℕ → Try (Process W) (Option Qp)
  client_link ctx buf cq mr l i = do
    set_memory (buf_at buf i) b'b'
    qp ← make_qp v ctx cq i
    region ← deref mr
    update (λ p. record p {
      local_info = set_at i (own_info ctx (buf_at buf i) qp region (p.local_info i)) p.local_info;
    })
    lift (modify_qp_to_init v qp ctx)
    p ← read_process
    r ← lift (client_exch_data n example_port (p.local_info i) (p.remote_info i) l)
    done ← take_remote i r
    (if done then (do qp' ← connect_to v i qp i; pure (some qp')) else pure none)

  -- The connection `i` of a server, whose region starts at the mapping: what the exchange returns is
  -- not looked at, and `peer` is the element that `modifyQPtoRTR` is given.
  unfoldable pub server_link :
      RdmaContext → ℕ → Option ℕ → Locals → ℕ → ℕ → Try (Process W) (Qp × Mr)
  server_link ctx nvmbuf cq l peer i = do
    qp ← make_qp v ctx cq i
    mr ← lift (create_memory_region v nvmbuf buf_size ctx)
    region ← deref mr
    update (λ p. record p {
      local_info = set_at i (own_info ctx region.addr qp region (p.local_info i)) p.local_info;
    })
    lift (modify_qp_to_init v qp ctx)
    p ← read_process
    r ← lift (server_exch_data n example_port (p.local_info i) (p.remote_info i) l)
    take_remote i r
    qp' ← connect_to v peer qp i
    pure (qp', region)
