-- ===== src/QueuePair/Masks.antt =====
-- The attribute masks of the transitions, against those that the manual page ibv_modify_qp(3) asks for.
use mathlib.Core.Logic.{ite}
use nvm_rdma_examples.Prelude.{
  Bool, true, false, ◌&&◌, List, [], ◌∷◌, some, ◌≡◌, ◌≢◌, refl, All, arith,
}
use nvm_rdma_examples.Verbs.Types.{QpType, rc, uc, ud, QpState, init, rtr, rts, AttrMask, Qp}
use nvm_rdma_examples.Verbs.Interface.{Verbs}
use nvm_rdma_examples.Effects.{Call, Sys}
use nvm_rdma_examples.QueuePair.{
  RdmaContext, ConnectInfo, mask_to_init, mask_to_rtr, mask_to_rts, modify_qp_to_init,
  modify_qp_to_rtr, modify_qp_to_rts,
}

AttrMask-discrete : Discrete AttrMask
AttrMask-discrete = hlevel

has : AttrMask → List AttrMask → Bool
unfolding AttrMask-discrete
has a [] = false
has a (b ∷ mask) = ite (AttrMask-discrete a b) true (has a mask)

pub covers : List AttrMask → List AttrMask → Bool
unfolding has
covers [] mask = true
covers (a ∷ needed) mask = has a mask && covers needed mask

-- The attributes that a queue pair of a type needs to enter a state, of the manual's tables for RC
-- and UC; the code has no transition of another type or to another state.
pub required : QpType → QpState → List AttrMask
required _ init = AttrMask.state ∷ AttrMask.access_flags ∷ AttrMask.pkey_index ∷ AttrMask.port ∷ []
required uc rtr =
    AttrMask.state ∷ AttrMask.path_mtu ∷ AttrMask.av ∷ AttrMask.dest_qpn ∷ AttrMask.rq_psn ∷ []
required rc rtr =
    AttrMask.max_dest_rd_atomic ∷ AttrMask.min_rnr_timer ∷ AttrMask.state ∷ AttrMask.path_mtu
    ∷ AttrMask.av ∷ AttrMask.dest_qpn ∷ AttrMask.rq_psn ∷ []
required uc rts = AttrMask.state ∷ AttrMask.sq_psn ∷ []
required rc rts =
    AttrMask.state ∷ AttrMask.sq_psn ∷ AttrMask.max_qp_rd_atomic ∷ AttrMask.retry_cnt
    ∷ AttrMask.rnr_retry ∷ AttrMask.timeout ∷ []
required _ _ = []

-- A mask holds exactly the attributes of another.
abbrev pub SameMask : List AttrMask → List AttrMask → Type 0
SameMask xs ys = (covers xs ys ≡ true) × (covers ys xs ≡ true)

-- A call of `ibv_modify_qp` names exactly the attributes that its queue pair needs.
abbrev pub Complete : Call → Type 0
Complete (Call.modified_qp qp attr mask res) = SameMask mask (required qp.qp_type attr.qp_state)
Complete _ = Unit {0}

init-SameMask : (t : QpType) → SameMask mask_to_init (required t init)
unfolding covers required
init-SameMask rc = (refl, refl)
init-SameMask uc = (refl, refl)
init-SameMask ud = (refl, refl)

rtr-SameMask : (t : QpType) → t ≢ ud → SameMask (mask_to_rtr t) (required t rtr)
unfolding covers required mask_to_rtr
rtr-SameMask rc h = (refl, refl)
rtr-SameMask uc h = (refl, refl)
rtr-SameMask ud h = absurd (h refl)

rts-SameMask : SameMask mask_to_rts (required rc rts)
unfolding covers required
rts-SameMask = (refl, refl)

module _ {W : Type 0} (v : Verbs W) where
  modify_qp_to_init-Complete :
      (qp : Qp) (context : RdmaContext) (s : Sys W)
      → All Complete s.calls
      → All Complete (modify_qp_to_init v qp context s).1.calls
  unfolding modify_qp_to_init
  modify_qp_to_init-Complete qp context s h = ground (arith, init-SameMask qp.qp_type)

  modify_qp_to_rtr-Complete :
      (qp : Qp) (remoteinfo : ConnectInfo) (s : Sys W)
      → qp.qp_type ≢ ud
      → All Complete s.calls
      → All Complete (modify_qp_to_rtr v qp remoteinfo s).1.calls
  unfolding modify_qp_to_rtr
  modify_qp_to_rtr-Complete qp remoteinfo s t h = ground (arith, rtr-SameMask qp.qp_type)

  modify_qp_to_rts-Complete :
      (qp : Qp) (s : Sys W) → All Complete s.calls → All Complete (modify_qp_to_rts v qp s).1.calls
  unfolding modify_qp_to_rts
  modify_qp_to_rts-Complete qp s h = ground (arith, rts-SameMask)

  -- For an RC queue pair, each call of `ibv_modify_qp` that the three transitions make, on whatever
  -- path they return, names exactly the attributes that the transition needs.
  pub transitions-Complete :
      (qp : Qp) (context : RdmaContext) (remoteinfo : ConnectInfo) (s : Sys W)
      → qp.qp_type ≡ rc
      → All Complete s.calls
      → All Complete
          (modify_qp_to_rts v qp
            (modify_qp_to_rtr v qp remoteinfo (modify_qp_to_init v qp context s).1).1).1.calls
  transitions-Complete qp context remoteinfo s t h = modify_qp_to_rts-Complete qp _ (
      modify_qp_to_rtr-Complete qp remoteinfo _ (λ e. cc)
        (modify_qp_to_init-Complete qp context s h))

  -- For a UC queue pair that is in RTR, the transition to RTS turns the type in the structure into
  -- RC; its mask names attributes that a UC queue pair does not have.
  pub modify_qp_to_rts_uc :
      (qp : Qp) (s : Sys W)
      → qp.qp_type ≡ uc
      → (v.query_qp qp s.world).0 ≡ some rtr
      → ((modify_qp_to_rts v qp s).0.0.qp_type ≡ rc)
        × (covers mask_to_rts (required uc rts) ≡ false)
  unfolding modify_qp_to_rts covers required
  modify_qp_to_rts_uc qp s t q = ground arith
