-- ===== src/QueuePair.antt =====
-- Queue pairs, of nvm_ibverbs/src/rdma_common.cc: creation, memory registration, and the three
-- transitions that bring a queue pair from RESET to the state in which it can send.
pub mod Masks
pub mod Transitions
use nvm_rdma_examples.Prelude.{
  ℕ, Bool, true, false, not, List, [], ◌∷◌, ◌++◌, Option, none, some, if◌then◌else◌, u16,
}
use nvm_rdma_examples.Prelude.Int.{ℤ, is_zero}
use nvm_rdma_examples.Text.Digits.{Bytes}
use nvm_rdma_examples.Verbs.Types.{
  QpType, rc, uc, ud, QpState, reset, init, rtr, rts, sqd, sqe, err, AccessFlag, local_write,
  remote_write, remote_read, remote_atomic, AttrMask, mtu_4096, AhAttr, QpAttr, QpInitAttr, Qp, Mr,
  zero_ah_attr, zero_qp_attr,
}
use nvm_rdma_examples.Verbs.Interface.{Verbs}
use nvm_rdma_examples.Effects.{Call, M, pure, ◌>>=◌, ◌>>◌, call}

-- `PSN` and `PORT_NUM` of rdma_common.hh.
abbrev pub psn_const : ℕ
psn_const = 3185

abbrev pub port_num_const : ℕ
port_num_const = 1

-- `struct RdmaContext`.
pub record RdmaContext : Type 0 where
  pub dev_index : ℕ
  pub port : ℕ
  pub gid_index : ℤ
  pub ctx : Option ℕ
  pub pd : Option ℕ
  pub lid : ℕ
  pub gid : Bytes

-- `struct Rdma_connect_info`.
pub record ConnectInfo : Type 0 where
  pub qpn : ℕ
  pub psn : ℕ
  pub lid : ℕ
  pub gid : Bytes
  pub gid_index : ℕ
  pub r_key : ℕ
  pub data_vaddr : ℕ
  pub mr : Option Mr

abbrev pub is_rc : QpType → Bool
is_rc rc = true
is_rc uc = false
is_rc ud = false

abbrev pub is_reset : QpState → Bool
is_reset reset = true
is_reset init = false
is_reset rtr = false
is_reset rts = false
is_reset sqd = false
is_reset sqe = false
is_reset err = false

abbrev pub is_rtr : QpState → Bool
is_rtr rtr = true
is_rtr reset = false
is_rtr init = false
is_rtr rts = false
is_rtr sqd = false
is_rtr sqe = false
is_rtr err = false

-- The attributes that `createQueuePair` asks for.
unfoldable pub init_attr : QpType → Option ℕ → Option ℕ → ℕ → ℕ → QpInitAttr
init_attr mode send_cq recv_cq qps_max_depth max_inline_data = record {
  qp_type = mode;
  sq_sig_all = 0;
  send_cq = send_cq;
  recv_cq = recv_cq;
  max_send_wr = qps_max_depth;
  max_recv_wr = qps_max_depth;
  max_send_sge = 1;
  max_recv_sge = 1;
  max_inline_data = max_inline_data;
}

-- The `switch` of `modifyQPtoInit`: another type leaves the field that `memset` cleared.
unfoldable pub init_access_flags : QpType → List AccessFlag
init_access_flags rc = remote_read ∷ remote_write ∷ remote_atomic ∷ []
init_access_flags uc = remote_write ∷ []
init_access_flags ud = []

abbrev pub all_access : List AccessFlag
all_access = local_write ∷ remote_read ∷ remote_write ∷ remote_atomic ∷ []

-- The attributes of `modifyQPtoInit`, over the port of the context.
unfoldable pub attr_to_init : QpType → ℕ → QpAttr
unfolding init_access_flags
attr_to_init qp_type port_num = record zero_qp_attr {
  qp_state = init;
  port_num = port_num;
  pkey_index = 0;
  qp_access_flags = init_access_flags qp_type;
}

abbrev pub mask_to_init : List AttrMask
mask_to_init = AttrMask.state ∷ AttrMask.pkey_index ∷ AttrMask.port ∷ AttrMask.access_flags ∷ []

-- `dlid` has 16 bits.
unfoldable pub fill_ah_attr : ConnectInfo → AhAttr
fill_ah_attr remoteinfo = record zero_ah_attr {
  dlid = u16 remoteinfo.lid;
  sl = 0;
  src_path_bits = 0;
  port_num = port_num_const;
  is_global = 1;
  dgid = remoteinfo.gid;
  flow_label = 0;
  hop_limit = 1;
  sgid_index = 3;
  traffic_class = 0;
}

-- The attributes and the mask of `modifyQPtoRTR`.
unfoldable pub attr_to_rtr : QpType → ConnectInfo → QpAttr
unfolding fill_ah_attr
attr_to_rtr qp_type remoteinfo =
    let attr : QpAttr = record zero_qp_attr {
      qp_state = rtr;
      mtu = mtu_4096;
      dest_qp_num = remoteinfo.qpn;
      rq_psn = psn_const;
      ah_attr = fill_ah_attr remoteinfo;
    } in
    if is_rc qp_type then record attr { max_dest_rd_atomic = 1; min_rnr_timer = 12 } else attr

unfoldable pub mask_to_rtr : QpType → List AttrMask
mask_to_rtr qp_type =
    let flags =
      AttrMask.state ∷ AttrMask.av ∷ AttrMask.path_mtu ∷ AttrMask.dest_qpn ∷ AttrMask.rq_psn ∷ [] in
    if is_rc qp_type
    then flags ++ AttrMask.max_dest_rd_atomic ∷ AttrMask.min_rnr_timer ∷ []
    else flags

-- The attributes and the mask of `modifyQPtoRTS`, where the type is RC.
abbrev pub attr_to_rts : ℕ → QpAttr
attr_to_rts psn = record zero_qp_attr {
  qp_state = rts;
  sq_psn = psn;
  timeout = 14;
  retry_cnt = 7;
  rnr_retry = 7;
  max_rd_atomic = 1;
}

abbrev pub mask_to_rts : List AttrMask
mask_to_rts =
    AttrMask.state ∷ AttrMask.sq_psn ∷ AttrMask.timeout ∷ AttrMask.retry_cnt ∷ AttrMask.rnr_retry
    ∷ AttrMask.max_qp_rd_atomic ∷ []

module _ {W : Type 0} (v : Verbs W) where
  -- The queue pair, or the null pointer, that `*qp` holds afterwards, and the result.
  unfoldable pub create_queue_pair :
      QpType → Option ℕ → Option ℕ → RdmaContext → ℕ → ℕ → M W (Option Qp × Bool)
  unfolding init_attr
  create_queue_pair mode send_cq recv_cq context qps_max_depth max_inline_data = do
    let attr = init_attr mode send_cq recv_cq qps_max_depth max_inline_data
    qp ← call (v.create_qp context.pd attr) (Call.created_qp context.pd attr)
    pure (elim qp [ none ↦ (none, false) | some q ↦ (some q, true) ])

  -- The overload with one completion queue.
  unfoldable pub create_queue_pair_shared :
      QpType → Option ℕ → RdmaContext → ℕ → ℕ → M W (Option Qp × Bool)
  unfolding create_queue_pair
  create_queue_pair_shared mode cq context qps_max_depth max_inline_data =
      create_queue_pair mode cq cq context qps_max_depth max_inline_data

  unfoldable pub create_memory_region : ℕ → ℕ → RdmaContext → M W (Option Mr)
  create_memory_region mm mm_size ctx =
      call (v.reg_mr ctx.pd mm mm_size all_access) (Call.registered_mr ctx.pd mm mm_size all_access)

  -- The state is read first, and anything but RESET is refused.
  unfoldable pub modify_qp_to_init : Qp → RdmaContext → M W Bool
  unfolding attr_to_init
  modify_qp_to_init qp context = do
    queried ← call (v.query_qp qp) (Call.queried_qp qp)
    (elim queried [
      | none ↦ pure false
      | some qp_state ↦
          if is_reset qp_state
          then (do
            let attr = attr_to_init qp.qp_type context.port
            res ← call (v.modify_qp qp attr mask_to_init) (Call.modified_qp qp attr mask_to_init)
            pure (is_zero res))
          else pure false
    ])

  unfoldable pub modify_qp_to_rtr : Qp → ConnectInfo → M W Bool
  unfolding attr_to_rtr mask_to_rtr
  modify_qp_to_rtr qp remoteinfo = do
    let attr = attr_to_rtr qp.qp_type remoteinfo
    let flags = mask_to_rtr qp.qp_type
    res ← call (v.modify_qp qp attr flags) (Call.modified_qp qp attr flags)
    pure (is_zero res)

  -- The state is read first, and anything but RTR is refused. The test on the type is written as an
  -- assignment, so it holds for every type and leaves RC in the structure: the queue pair is a
  -- result.
  unfoldable pub modify_qp_to_rts : Qp → M W (Qp × Bool)
  modify_qp_to_rts qp = do
    queried ← call (v.query_qp qp) (Call.queried_qp qp)
    (elim queried [
      | none ↦ pure (qp, false)
      | some qp_state ↦
          if is_rtr qp_state
          then (do
            let qp' = record qp { qp_type = rc }
            let attr = attr_to_rts psn_const
            res ← call (v.modify_qp qp' attr mask_to_rts) (Call.modified_qp qp' attr mask_to_rts)
            pure (qp', is_zero res))
          else pure (qp, false)
    ])
