-- ===== src/Programs/Peers.antt =====
-- What a connection of the examples knows of its peer, and the transition to RTR that it asks for.
use nvm_rdma_examples.Prelude.{ℕ, List, [], ◌∷◌, Option, none, some, if◌then◌else◌, ◌≡◌, ◌≢◌, arith}
use nvm_rdma_examples.Verbs.Types.{Qp, QpAttr}
use nvm_rdma_examples.Verbs.Interface.{Verbs}
use nvm_rdma_examples.Effects.{Call}
use nvm_rdma_examples.QueuePair.{
  RdmaContext, ConnectInfo, is_rtr, attr_to_rtr, create_queue_pair_shared, create_queue_pair,
  modify_qp_to_rtr, modify_qp_to_rts,
}
use nvm_rdma_examples.Programs.{Process, set_at, make_qp, connect_to}

-- The attributes of the latest transition to RTR.
abbrev pub last_rtr : List Call → Option QpAttr
last_rtr [] = none
last_rtr (Call.modified_qp qp attr flags res ∷ cs) =
    if is_rtr attr.qp_state then some attr else last_rtr cs
last_rtr (_ ∷ cs) = last_rtr cs

pub set_at_same : (i : ℕ) (a : ConnectInfo) (f : ℕ → ConnectInfo) → set_at i a f i ≡ a
unfolding set_at
set_at_same i a f = ground arith

pub set_at_other : (i j : ℕ) (a : ConnectInfo) (f : ℕ → ConnectInfo) → j ≢ i → set_at i a f j ≡ f j
unfolding set_at
set_at_other i j a f ne = ground arith

module _ {W : Type 0} (v : Verbs W) where
  -- The transitions ask for the peer of the element that is passed.
  pub connect_to_peer :
      (peer : ℕ) (qp : Qp) (i : ℕ) (p : Process W)
      → let p' = (connect_to v peer qp i p).1 in
        (last_rtr p'.sys.calls ≡ some (attr_to_rtr qp.qp_type (p.remote_info peer)))
        × (p'.remote_info ≡ p.remote_info)
  unfolding connect_to modify_qp_to_rtr modify_qp_to_rts attr_to_rtr
  connect_to_peer peer qp i p = (ground arith, ground arith)

  pub make_qp_peers :
      (ctx : RdmaContext) (cq : Option ℕ) (i : ℕ) (p : Process W)
      → (make_qp v ctx cq i p).1.remote_info ≡ p.remote_info
  unfolding make_qp create_queue_pair_shared create_queue_pair
  make_qp_peers ctx cq i p = ground arith
