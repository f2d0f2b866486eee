-- ===== src/Verbs/Types.antt =====
-- Enumerations and structures of <infiniband/verbs.h>, with the members that the code uses. An
-- enumeration or a bit mask is a type of its own: its numbers play no part. Pointers to devices,
-- contexts, protection domains and queues are numbers, and a null pointer is `none`.
use nvm_rdma_examples.Prelude.{ℕ, List, [], ◌∷◌, Option}
use nvm_rdma_examples.Text.Digits.{Bytes}

pub data QpType : Type 0 where
  rc uc ud : QpType

pub data QpState : Type 0 where
  reset init rtr rts sqd sqe err : QpState

-- IBV_ACCESS_*, IBV_QP_*, IBV_SEND_*: a mask is the list of its flags.
pub data AccessFlag : Type 0 where
  local_write remote_write remote_read remote_atomic : AccessFlag

pub data AttrMask : Type 0 where
  state pkey_index port access_flags av path_mtu dest_qpn rq_psn : AttrMask
  max_dest_rd_atomic min_rnr_timer sq_psn timeout retry_cnt rnr_retry max_qp_rd_atomic : AttrMask

pub data SendFlag : Type 0 where
  signaled : SendFlag

pub data Mtu : Type 0 where
  unset mtu_4096 : Mtu

pub data Opcode : Type 0 where
  rdma_write rdma_write_with_imm rdma_read send send_with_imm : Opcode

pub data WcStatus : Type 0 where
  success : WcStatus
  failure : ℕ → WcStatus

pub data PortState : Type 0 where
  active inactive : PortState

pub record PortAttr : Type 0 where
  pub port_state : PortState
  pub lid : ℕ

pub record AhAttr : Type 0 where
  pub dlid : ℕ
  pub sl : ℕ
  pub src_path_bits : ℕ
  pub port_num : ℕ
  pub is_global : ℕ
  pub dgid : Bytes
  pub flow_label : ℕ
  pub hop_limit : ℕ
  pub sgid_index : ℕ
  pub traffic_class : ℕ

pub record QpAttr : Type 0 where
  pub qp_state : QpState
  pub port_num : ℕ
  pub pkey_index : ℕ
  pub qp_access_flags : List AccessFlag
  pub mtu : Mtu
  pub dest_qp_num : ℕ
  pub rq_psn : ℕ
  pub sq_psn : ℕ
  pub ah_attr : AhAttr
  pub max_dest_rd_atomic : ℕ
  pub min_rnr_timer : ℕ
  pub timeout : ℕ
  pub retry_cnt : ℕ
  pub rnr_retry : ℕ
  pub max_rd_atomic : ℕ

pub record QpInitAttr : Type 0 where
  pub qp_type : QpType
  pub sq_sig_all : ℕ
  pub send_cq : Option ℕ
  pub recv_cq : Option ℕ
  pub max_send_wr : ℕ
  pub max_recv_wr : ℕ
  pub max_send_sge : ℕ
  pub max_recv_sge : ℕ
  pub max_inline_data : ℕ

-- The queue pair that a pointer leads to.
pub record Qp : Type 0 where
  pub handle : ℕ
  pub qp_num : ℕ
  pub qp_type : QpType

pub record Mr : Type 0 where
  pub addr : ℕ
  pub lkey : ℕ
  pub rkey : ℕ

pub record Sge : Type 0 where
  pub addr : ℕ
  pub length : ℕ
  pub lkey : ℕ

pub record SendWr : Type 0 where
  pub wr_id : ℕ
  pub sg_list : List Sge
  pub num_sge : ℕ
  pub opcode : Opcode
  pub send_flags : List SendFlag
  pub imm_data : ℕ
  pub remote_addr : ℕ
  pub rkey : ℕ

pub record RecvWr : Type 0 where
  pub wr_id : ℕ
  pub sg_list : List Sge
  pub num_sge : ℕ

pub record Wc : Type 0 where
  pub wr_id : ℕ
  pub status : WcStatus

-- What `memset(&x, 0, sizeof x)` leaves.
abbrev pub zero_gid : Bytes
zero_gid = 0 ∷ 0 ∷ 0 ∷ 0 ∷ 0 ∷ 0 ∷ 0 ∷ 0 ∷ 0 ∷ 0 ∷ 0 ∷ 0 ∷ 0 ∷ 0 ∷ 0 ∷ 0 ∷ []

abbrev pub zero_ah_attr : AhAttr
zero_ah_attr = record {
  dlid = 0;
  sl = 0;
  src_path_bits = 0;
  port_num = 0;
  is_global = 0;
  dgid = zero_gid;
  flow_label = 0;
  hop_limit = 0;
  sgid_index = 0;
  traffic_class = 0;
}

abbrev pub zero_qp_attr : QpAttr
zero_qp_attr = record {
  qp_state = reset;
  port_num = 0;
  pkey_index = 0;
  qp_access_flags = [];
  mtu = unset;
  dest_qp_num = 0;
  rq_psn = 0;
  sq_psn = 0;
  ah_attr = zero_ah_attr;
  max_dest_rd_atomic = 0;
  min_rnr_timer = 0;
  timeout = 0;
  retry_cnt = 0;
  rnr_retry = 0;
  max_rd_atomic = 0;
}
