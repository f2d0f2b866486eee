-- ===== src/Transport/Connect.antt =====
-- The transitions of `RDMAtransport` against those of rdma_common.cc, and the packet sequence numbers
-- of two connected sides.
use nvm_rdma_examples.Prelude.{◌≡◌, arith}
use nvm_rdma_examples.Verbs.Types.{QpType, Qp}
use nvm_rdma_examples.Verbs.Interface.{Verbs}
use nvm_rdma_examples.Effects.{Sys}
use nvm_rdma_examples.QueuePair
use nvm_rdma_examples.QueuePair.{RdmaContext, ConnectInfo, psn_const}
use nvm_rdma_examples.Message.RoundTrip.{learn}
use nvm_rdma_examples.Transport.{
  RdmaTransport, RdmaConnection, to_info, of_info, attr_to_init, attr_to_rtr, attr_to_rts,
  mask_to_rtr, modify_qp_to_init, modify_qp_to_rtr, modify_qp_to_rts,
}

module _ {W : Type 0} (v : Verbs W) (qp : Qp) (s : Sys W) where
  modify_qp_to_init_eq :
      (this : RdmaTransport) (context : RdmaContext)
      → this.port ≡ context.port
      → modify_qp_to_init v qp this s ≡ QueuePair.modify_qp_to_init v qp context s
  unfolding modify_qp_to_init QueuePair.modify_qp_to_init attr_to_init
  modify_qp_to_init_eq this context h = ground arith

  modify_qp_to_rtr_eq :
      (remote : RdmaConnection)
      → remote.psn ≡ psn_const
      → modify_qp_to_rtr v qp remote s ≡ QueuePair.modify_qp_to_rtr v qp (to_info remote) s
  unfolding modify_qp_to_rtr QueuePair.modify_qp_to_rtr attr_to_rtr mask_to_rtr to_info
  modify_qp_to_rtr_eq remote h = rw h

  modify_qp_to_rts_eq :
      (local : RdmaConnection)
      → local.psn ≡ psn_const
      → modify_qp_to_rts v qp local s ≡ QueuePair.modify_qp_to_rts v qp s
  unfolding modify_qp_to_rts QueuePair.modify_qp_to_rts attr_to_rts
  modify_qp_to_rts_eq local h = ground arith

  -- The transitions of `RDMAtransport` to INIT, RTR and RTS do what the functions of rdma_common.cc
  -- do, for a context of the same port and with the fixed packet sequence number of rdma_common.hh
  -- in both connections.
  pub transitions_agree :
      (this : RdmaTransport) (context : RdmaContext) (local remote : RdmaConnection)
      → this.port ≡ context.port
      → local.psn ≡ psn_const
      → remote.psn ≡ psn_const
      → (modify_qp_to_init v qp this s ≡ QueuePair.modify_qp_to_init v qp context s)
        × (modify_qp_to_rtr v qp remote s ≡ QueuePair.modify_qp_to_rtr v qp (to_info remote) s)
        × (modify_qp_to_rts v qp local s ≡ QueuePair.modify_qp_to_rts v qp s)
  transitions_agree this context local remote p l r = (
    modify_qp_to_init_eq this context p,
    modify_qp_to_rtr_eq remote r,
    modify_qp_to_rts_eq local l,
  )

-- A side expects the packet sequence number that the other sends, and is addressed to its queue pair,
-- once each has learnt the connection of the other.
pub attr_to_rtr-attr_to_rts :
    (t : QpType) (own peer : RdmaConnection)
    → let known = of_info (learn (to_info peer) (to_info own)) in
      ((attr_to_rtr t known).rq_psn ≡ (attr_to_rts peer).sq_psn)
      × ((attr_to_rtr t known).dest_qp_num ≡ peer.qpn)
      × ((attr_to_rtr t known).ah_attr.dgid ≡ peer.gid)
unfolding attr_to_rtr attr_to_rts of_info to_info
attr_to_rtr-attr_to_rts t own peer = ground arith
