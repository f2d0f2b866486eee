-- ===== src/QueuePair/Transitions.antt =====
-- The guards of the transitions, and the states that a queue pair goes through.
use nvm_rdma_examples.Prelude.{
  ℕ, ◌+◌, ◌&&◌, Bool, true, false, List, Option, none, some, ◌≡◌, arith, if◌then◌else◌,
}
use nvm_rdma_examples.Prelude.Int.{is_zero}
use nvm_rdma_examples.Verbs.Types.{QpState, reset, init, rtr, rts, AttrMask, QpAttr, Qp, rc}
use nvm_rdma_examples.Verbs.Interface.{Verbs}
use nvm_rdma_examples.Effects.{Call, Sys}
use nvm_rdma_examples.Ledger.{total}
use nvm_rdma_examples.QueuePair.{
  is_reset, is_rtr, RdmaContext, ConnectInfo, modify_qp_to_init, modify_qp_to_rtr, modify_qp_to_rts,
  attr_to_init, attr_to_rtr, attr_to_rts, mask_to_init, mask_to_rtr, mask_to_rts, psn_const,
}

-- What the code relies on in the library: a queue pair has a state in each world, a query reports it
-- and leaves it alone, and a modification that succeeds moves it to the state of the attributes.
pub record HasStates {W : Type 0} (v : Verbs W) : Type 0 where
  pub state_of : ℕ → W → QpState
  pub query_reports :
      (qp : Qp) (w : W) {st : QpState} → (v.query_qp qp w).0 ≡ some st → st ≡ state_of qp.handle w
  pub query_keeps : (qp : Qp) (w : W) (h : ℕ) → state_of h (v.query_qp qp w).1 ≡ state_of h w
  pub modify_moves :
      (qp : Qp) (attr : QpAttr) (mask : List AttrMask) (w : W)
      → is_zero (v.modify_qp qp attr mask w).0 ≡ true
      → state_of qp.handle (v.modify_qp qp attr mask w).1 ≡ attr.qp_state

module _ {W : Type 0} (v : Verbs W) (states : HasStates v) where
  open states use {state_of, query_reports, query_keeps, modify_moves}

  -- Where queries report the state and a modification that succeeds sets it: a transition to INIT
  -- that reports success found the queue pair in RESET and left it in INIT.
  modify_qp_to_init_moves :
      (qp : Qp) (context : RdmaContext) (s : Sys W)
      → (modify_qp_to_init v qp context s).0 ≡ true
      → (state_of qp.handle s.world ≡ reset)
        × (state_of qp.handle (modify_qp_to_init v qp context s).1.world ≡ init)
  unfolding modify_qp_to_init
  modify_qp_to_init_moves qp context s h = ground (
    arith,
    query_reports qp s.world {st = reset},
    modify_moves qp (attr_to_init qp.qp_type context.port) mask_to_init (v.query_qp qp s.world).1,
  )

  -- A transition to RTR that reports success left the queue pair in RTR.
  modify_qp_to_rtr_moves :
      (qp : Qp) (remoteinfo : ConnectInfo) (s : Sys W)
      → (modify_qp_to_rtr v qp remoteinfo s).0 ≡ true
      → state_of qp.handle (modify_qp_to_rtr v qp remoteinfo s).1.world ≡ rtr
  unfolding modify_qp_to_rtr
  modify_qp_to_rtr_moves qp remoteinfo s h =
      ground (
        arith,
        modify_moves qp (attr_to_rtr qp.qp_type remoteinfo) (mask_to_rtr qp.qp_type) s.world,
      )

  -- Where queries report the state and a modification that succeeds sets it: a transition to RTS
  -- that reports success found the queue pair in RTR and left it in RTS.
  modify_qp_to_rts_moves :
      (qp : Qp) (s : Sys W)
      → (modify_qp_to_rts v qp s).0.1 ≡ true
      → (state_of qp.handle s.world ≡ rtr)
        × (state_of qp.handle (modify_qp_to_rts v qp s).1.world ≡ rts)
  unfolding modify_qp_to_rts
  modify_qp_to_rts_moves qp s h = ground (
    arith,
    query_reports qp s.world {st = rtr},
    modify_moves (record qp { qp_type = rc }) (attr_to_rts psn_const) mask_to_rts
        (v.query_qp qp s.world).1,
  )

  -- Where queries report the state of a queue pair and a modification that succeeds sets it: if the
  -- transitions to INIT, RTR and RTS, one after the other, all report success, the queue pair was in
  -- RESET before them and in INIT, RTR and RTS after each.
  pub transitions_move :
      (qp : Qp) (context : RdmaContext) (remoteinfo : ConnectInfo) (s : Sys W)
      → let (a, s1) = modify_qp_to_init v qp context s in
        let (b, s2) = modify_qp_to_rtr v qp remoteinfo s1 in
        let (c, s3) = modify_qp_to_rts v qp s2 in
        a ≡ true
        → b ≡ true
        → c.1 ≡ true
        → (state_of qp.handle s.world ≡ reset)
          × (state_of qp.handle s1.world ≡ init)
          × (state_of qp.handle s2.world ≡ rtr)
          × (state_of qp.handle s3.world ≡ rts)
  transitions_move qp context remoteinfo s a b c =
      let (before, after) = modify_qp_to_init_moves qp context s a in
      let s1 = (modify_qp_to_init v qp context s).1 in
      let s2 = (modify_qp_to_rtr v qp remoteinfo s1).1 in
      (before, after, modify_qp_to_rtr_moves qp remoteinfo s1 b, (modify_qp_to_rts_moves qp s2 c).1)

-- Whether a query answered with a state.
abbrev pub reports_reset : Option QpState → Bool
reports_reset none = false
reports_reset (some st) = is_reset st

abbrev pub reports_rtr : Option QpState → Bool
reports_rtr none = false
reports_rtr (some st) = is_rtr st

abbrev pub modifies : Call → ℕ
modifies (Call.modified_qp qp attr mask res) = 1
modifies _ = 0

module _ {W : Type 0} (v : Verbs W) where
  -- The transition to INIT asks the device to modify the queue pair exactly once where the query
  -- reports RESET, and that to RTS where it reports RTR; where the query reports another state or fails
  -- they ask for nothing and return false, and the type in the structure of the queue pair stays as it
  -- was, which the transition to RTS else makes RC.
  pub transitions_guarded :
      (qp : Qp) (context : RdmaContext) (s : Sys W)
      → let is_in_reset = reports_reset (v.query_qp qp s.world).0 in
        let is_in_rtr = reports_rtr (v.query_qp qp s.world).0 in
        let (to_init, s1) = modify_qp_to_init v qp context s in
        let ((qp', to_rts), s2) = modify_qp_to_rts v qp s in
        (total modifies s1.calls ≡ total modifies s.calls + (if is_in_reset then 1 else 0))
        × (to_init ≡ (is_in_reset && to_init))
        × (total modifies s2.calls ≡ total modifies s.calls + (if is_in_rtr then 1 else 0))
        × (to_rts ≡ (is_in_rtr && to_rts))
        × (qp'.qp_type ≡ (if is_in_rtr then rc else qp.qp_type))
  unfolding modify_qp_to_init modify_qp_to_rts
  transitions_guarded qp context s = ground arith

-- A device that takes every modification, and answers every query.
pub record Accepts {W : Type 0} (v : Verbs W) (states : HasStates v) : Type 0 where
  pub query_answers : (qp : Qp) (w : W) → (v.query_qp qp w).0 ≡ some (states.state_of qp.handle w)
  pub modify_accepts :
      (qp : Qp) (attr : QpAttr) (mask : List AttrMask) (w : W)
      → is_zero (v.modify_qp qp attr mask w).0 ≡ true

module _ {W : Type 0} (v : Verbs W) (states : HasStates v) (accepts : Accepts v states) where
  init_accepted :
      (qp : Qp) (context : RdmaContext) (s : Sys W)
      → states.state_of qp.handle s.world ≡ reset
      → (modify_qp_to_init v qp context s).0 ≡ true
  unfolding modify_qp_to_init
  init_accepted qp context s h = ground (
    arith,
    accepts.query_answers qp s.world,
    accepts.modify_accepts qp (attr_to_init qp.qp_type context.port) mask_to_init
        (v.query_qp qp s.world).1,
  )

  rtr_accepted :
      (qp : Qp) (remoteinfo : ConnectInfo) (s : Sys W)
      → (modify_qp_to_rtr v qp remoteinfo s).0 ≡ true
  unfolding modify_qp_to_rtr
  rtr_accepted qp remoteinfo s =
      accepts.modify_accepts qp (attr_to_rtr qp.qp_type remoteinfo) (mask_to_rtr qp.qp_type) s.world

  rts_accepted :
      (qp : Qp) (s : Sys W)
      → states.state_of qp.handle s.world ≡ rtr
      → (modify_qp_to_rts v qp s).0.1 ≡ true
  unfolding modify_qp_to_rts
  rts_accepted qp s h = ground (
    arith,
    accepts.query_answers qp s.world,
    accepts.modify_accepts (record qp { qp_type = rc }) (attr_to_rts psn_const) mask_to_rts
        (v.query_qp qp s.world).1,
  )

  -- On a device that answers every query with the state of the queue pair and takes every
  -- modification, the transitions to INIT, RTR and RTS in this order all succeed from RESET, and
  -- leave the queue pair in RTS.
  pub bring_up :
      (qp : Qp) (context : RdmaContext) (remoteinfo : ConnectInfo) (s : Sys W)
      → states.state_of qp.handle s.world ≡ reset
      → let (a, s1) = modify_qp_to_init v qp context s in
        let (b, s2) = modify_qp_to_rtr v qp remoteinfo s1 in
        let (c, s3) = modify_qp_to_rts v qp s2 in
        (a ≡ true) × (b ≡ true) × (c.1 ≡ true) × (states.state_of qp.handle s3.world ≡ rts)
  bring_up qp context remoteinfo s h =
      let (a, s1) = modify_qp_to_init v qp context s in
      let (b, s2) = modify_qp_to_rtr v qp remoteinfo s1 in
      let b_ok = rtr_accepted qp remoteinfo s1 in
      let in_rtr = modify_qp_to_rtr_moves v states qp remoteinfo s1 b_ok in
      let c_ok = rts_accepted qp s2 in_rtr in
      (init_accepted qp context s h, b_ok, c_ok, (modify_qp_to_rts_moves v states qp s2 c_ok).1)
