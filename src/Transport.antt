-- ===== src/Transport.antt =====
-- The class `RDMAtransport`, of rdma_transport/include/RDMAtransport.hh and
-- rdma_transport/src/RDMAtransport.cc. Methods whose text is that of a function of
-- nvm_ibverbs/src/rdma_common.cc, debugging output aside, call the model of that function.
pub mod Create
pub mod Connect
use nvm_rdma_examples.Prelude.{
  ℕ, zero, suc, Bool, true, false, List, [], ◌∷◌, ◌++◌, Option, none, some, if◌then◌else◌, u16,
}
use nvm_rdma_examples.Prelude.Int.{ℤ, is_zero}
use nvm_rdma_examples.Text.Digits.{Bytes}
use nvm_rdma_examples.Verbs.Types.{
  QpType, rc, init, rtr, rts, AttrMask, mtu_4096, AhAttr, QpAttr, Qp, Mr, Wc, zero_ah_attr,
  zero_qp_attr,
}
use nvm_rdma_examples.Verbs.Interface.{Verbs}
use nvm_rdma_examples.Sockets.{Sockets}
use nvm_rdma_examples.Effects.{Call, M, pure, ◌>>=◌, ◌>>◌, call}
use nvm_rdma_examples.QueuePair.{
  ConnectInfo, is_rc, is_reset, is_rtr, init_access_flags, init_attr, all_access,
}
use nvm_rdma_examples.Gid
use nvm_rdma_examples.Post
use nvm_rdma_examples.Exchange
use nvm_rdma_examples.Exchange.{Locals}

-- The data members. `qp` is the array of queue pairs, of which the methods use the first.
pub record RdmaTransport : Type 0 where
  pub dev_index : ℕ
  pub port : ℕ
  pub gid_index : ℤ
  pub ctx : Option ℕ
  pub pd : Option ℕ
  pub lid : ℕ
  pub gid : Bytes
  pub num_qp : ℕ
  pub qp : List (Option Qp)
  pub cq : List (Option ℕ)
  pub send_cq : Option ℕ
  pub recv_cq : Option ℕ
  pub qps_max_depth : ℕ
  pub max_inline_data : ℕ

-- `class RDMAconnection`.
pub record RdmaConnection : Type 0 where
  pub qpn : ℕ
  pub psn : ℕ
  pub lid : ℕ
  pub gid : Bytes
  pub r_key : ℕ
  pub data_vaddr : ℕ
  pub mr : Option Mr

-- `PORT_NUM` of RDMAtransport.hh.
abbrev pub port_num_const : ℕ
port_num_const = 1

unfoldable pub set_qpn : ℕ → RdmaConnection → RdmaConnection
set_qpn qpn c = record c { qpn = qpn }

-- The connection as the structure that the exchange works on, and what it leaves in a connection.
unfoldable pub to_info : RdmaConnection → ConnectInfo
to_info c = record {
  qpn = c.qpn;
  psn = c.psn;
  lid = c.lid;
  gid = c.gid;
  gid_index = 0;
  r_key = c.r_key;
  data_vaddr = c.data_vaddr;
  mr = c.mr;
}

unfoldable pub of_info : ConnectInfo → RdmaConnection
of_info i = record {
  qpn = i.qpn;
  psn = i.psn;
  lid = i.lid;
  gid = i.gid;
  r_key = i.r_key;
  data_vaddr = i.data_vaddr;
  mr = i.mr;
}

-- The array gets its slots, whose contents are not set: `junk` says what they hold. The function
-- has no return statement, so no result is modelled.
unfoldable pub init_resource :
    ℕ → List (Option Qp) → List (Option ℕ) → RdmaTransport → RdmaTransport
init_resource qp_num junk_qp junk_cq this = record this {
  num_qp = qp_num;
  qp = junk_qp;
  cq = junk_cq;
}

-- A store to the first slot of an array.
abbrev pub set_first {ℓ} : {A : Type ℓ} → A → List A → List A
set_first a [] = []
set_first a (b ∷ bs) = a ∷ bs

unfoldable pub fill_ah_attr : RdmaConnection → AhAttr
fill_ah_attr remoteinfo = record zero_ah_attr {
  dlid = u16 remoteinfo.lid;
  sl = 0;
  src_path_bits = 0;
  port_num = port_num_const;
  is_global = 1;
  dgid = remoteinfo.gid;
  flow_label = 0;
  hop_limit = 1;
  sgid_index = 3;
  traffic_class = 0;
}

-- The attributes of the three transitions; the packet sequence numbers are those of the connection.
unfoldable pub attr_to_init : QpType → ℕ → QpAttr
attr_to_init qp_type port_num = record zero_qp_attr {
  qp_state = init;
  port_num = port_num;
  pkey_index = 0;
  qp_access_flags = init_access_flags qp_type;
}

abbrev pub mask_to_init : List AttrMask
mask_to_init = AttrMask.state ∷ AttrMask.pkey_index ∷ AttrMask.port ∷ AttrMask.access_flags ∷ []

unfoldable pub attr_to_rtr : QpType → RdmaConnection → QpAttr
unfolding fill_ah_attr
attr_to_rtr qp_type remoteinfo =
    let attr : QpAttr = record zero_qp_attr {
      qp_state = rtr;
      mtu = mtu_4096;
      dest_qp_num = remoteinfo.qpn;
      rq_psn = remoteinfo.psn;
      ah_attr = fill_ah_attr remoteinfo;
    } in
    if is_rc qp_type then record attr { max_dest_rd_atomic = 1; min_rnr_timer = 12 } else attr

unfoldable pub mask_to_rtr : QpType → List AttrMask
mask_to_rtr qp_type =
    let flags =
      AttrMask.state ∷ AttrMask.av ∷ AttrMask.path_mtu ∷ AttrMask.dest_qpn ∷ AttrMask.rq_psn ∷ [] in
    if is_rc qp_type
    then flags ++ AttrMask.max_dest_rd_atomic ∷ AttrMask.min_rnr_timer ∷ []
    else flags

unfoldable pub attr_to_rts : RdmaConnection → QpAttr
attr_to_rts localinfo = record zero_qp_attr {
  qp_state = rts;
  sq_psn = localinfo.psn;
  timeout = 14;
  retry_cnt = 7;
  rnr_retry = 7;
  max_rd_atomic = 1;
}

abbrev pub mask_to_rts : List AttrMask
mask_to_rts =
    AttrMask.state ∷ AttrMask.sq_psn ∷ AttrMask.timeout ∷ AttrMask.retry_cnt ∷ AttrMask.rnr_retry
    ∷ AttrMask.max_qp_rd_atomic ∷ []

module _ {W : Type 0} (v : Verbs W) where
  -- The queue pair is stored in the first slot, also where it is null.
  unfoldable pub create_queue_pair : QpType → RdmaTransport → M W (RdmaTransport × Bool)
  create_queue_pair mode this = do
    let attr = init_attr mode this.send_cq this.recv_cq this.qps_max_depth this.max_inline_data
    qp ← call (v.create_qp this.pd attr) (Call.created_qp this.pd attr)
    let this' = record this { qp = set_first qp this.qp }
    pure (elim qp [ none ↦ (this', false) | some q ↦ (this', true) ])

  unfoldable pub create_memory_region : ℕ → ℕ → RdmaTransport → M W (Option Mr)
  create_memory_region mm mm_size this =
      call (v.reg_mr this.pd mm mm_size all_access)
        (Call.registered_mr this.pd mm mm_size all_access)

  unfoldable pub modify_qp_to_init : Qp → RdmaTransport → M W Bool
  modify_qp_to_init qp this = do
    queried ← call (v.query_qp qp) (Call.queried_qp qp)
    (elim queried [
      | none ↦ pure false
      | some qp_state ↦
          if is_reset qp_state
          then (do
            let attr = attr_to_init qp.qp_type this.port
            res ← call (v.modify_qp qp attr mask_to_init) (Call.modified_qp qp attr mask_to_init)
            pure (is_zero res))
          else pure false
    ])

  unfoldable pub modify_qp_to_rtr : Qp → RdmaConnection → M W Bool
  modify_qp_to_rtr qp remoteinfo = do
    let attr = attr_to_rtr qp.qp_type remoteinfo
    let flags = mask_to_rtr qp.qp_type
    res ← call (v.modify_qp qp attr flags) (Call.modified_qp qp attr flags)
    pure (is_zero res)

  -- As in rdma_common.cc the test on the type is an assignment.
  unfoldable pub modify_qp_to_rts : Qp → RdmaConnection → M W (Qp × Bool)
  modify_qp_to_rts qp localinfo = do
    queried ← call (v.query_qp qp) (Call.queried_qp qp)
    (elim queried [
      | none ↦ pure (qp, false)
      | some qp_state ↦
          if is_rtr qp_state
          then (do
            let qp' = record qp { qp_type = rc }
            let attr = attr_to_rts localinfo
            res ← call (v.modify_qp qp' attr mask_to_rts) (Call.modified_qp qp' attr mask_to_rts)
            pure (qp', is_zero res))
          else pure (qp, false)
    ])

  -- The destructor: the protection domain and the device context are given back if they are there.
  unfoldable pub destroy : RdmaTransport → M W (Unit {0})
  destroy this = do
    (elim this.pd [
      | none ↦ pure tt
      | some pd ↦ (do call (v.dealloc_pd pd) (Call.deallocated_pd pd); pure tt)
    ])
    (elim this.ctx [
      | none ↦ pure tt
      | some ctx ↦ (do call (v.close_device ctx) (Call.closed_device ctx); pure tt)
    ])

  unfoldable pub rdma_write : Qp → ℕ → ℕ → ℕ → ℕ → ℕ → ℤ → Bool → ℕ → M W Bool
  rdma_write = Post.rdma_write v

  unfoldable pub poll_with_cq : ℕ → ℕ → ℤ → Wc → M W (Option (ℤ × Wc))
  poll_with_cq = Post.poll_with_cq v

unfoldable pub wire_gid_to_gid : ℕ → Bytes → Bytes
wire_gid_to_gid = Gid.wire_gid_to_gid

unfoldable pub gid_to_wire_gid : Bytes → Bytes
gid_to_wire_gid = Gid.gid_to_wire_gid

-- A result of the exchange, with the structure as a connection again.
abbrev pub as_connection : Option (Bool × ConnectInfo) → Option (Bool × RdmaConnection)
as_connection none = none
as_connection (some (done, info)) = some (done, of_info info)

module _ {W : Type 0} (n : Sockets W) where
  unfoldable pub client_exch_data :
      ℤ → RdmaConnection → RdmaConnection → Locals → M W (Option (Bool × RdmaConnection))
  client_exch_data sock_port local_dest rem_dest l = do
    r ← Exchange.client_exch_data n sock_port (to_info local_dest) (to_info rem_dest) l
    pure (as_connection r)

  unfoldable pub server_exch_data :
      ℤ → RdmaConnection → RdmaConnection → Locals → M W (Option (Bool × RdmaConnection))
  server_exch_data sock_port local_dest rem_dest l = do
    r ← Exchange.server_exch_data n sock_port (to_info local_dest) (to_info rem_dest) l
    pure (as_connection r)
