-- ===== src/Programs/Connected.antt =====
-- The connections of the clients of nvm_ibverbs/examples, with the data that the exchange brings.
pub mod Server
use mathlib.Core.Path.{subst}
use nvm_rdma_examples.Prelude.{
  ℕ, ◌^◌, ◌<◌, Bool-cases, Bool, true, Option, some, ◌≡◌, sym, arith, Option-cases, inl, inr,
}
use nvm_rdma_examples.Prelude.Int.{ℤ}
use nvm_rdma_examples.Verbs.Types.{Qp, Mr, QpType}
use nvm_rdma_examples.Verbs.Interface.{Verbs}
use nvm_rdma_examples.Sockets.{Sockets}
use nvm_rdma_examples.Effects.{Sys}
use nvm_rdma_examples.QueuePair.{
  RdmaContext, ConnectInfo, attr_to_rtr, modify_qp_to_init, modify_qp_to_rtr, modify_qp_to_rts,
}
use nvm_rdma_examples.Message.{msg_size, Fits}
use nvm_rdma_examples.Gid.{IsGid}
use nvm_rdma_examples.Message.RoundTrip.{learn}
use nvm_rdma_examples.Exchange.{Locals, client_exch_data}
use nvm_rdma_examples.Exchange.Agreement.{IsSized, text_of}
use nvm_rdma_examples.Exchange.Streams.{IsStartOf, client_exch_data_safe}
use nvm_rdma_examples.Bench.{fill}
use nvm_rdma_examples.Programs.{
  Process, buf_size, buf_at, example_port, set_at, own_info, make_qp, connect_to, client_link,
}
use nvm_rdma_examples.Programs.Peers.{last_rtr, set_at_same, connect_to_peer, make_qp_peers}

-- The parts of what a connection tells of itself that the message holds: of the context, the address and
-- the region.
pub record TellsFit (ctx : RdmaContext) (vaddr : ℕ) (mr : Mr) : Type 0 where
  pub lid_fits : ctx.lid < 2 ^ 16
  pub gid_fits : IsGid ctx.gid
  pub vaddr_fits : vaddr < 2 ^ 64
  pub rkey_fits : mr.rkey < 2 ^ 32

own_info-Fits :
    (ctx : RdmaContext) (vaddr : ℕ) (qp : Qp) (mr : Mr) (info : ConnectInfo)
    → TellsFit ctx vaddr mr
    → qp.qp_num < 2 ^ 24
    → Fits (own_info ctx vaddr qp mr info)
unfolding own_info
own_info-Fits ctx vaddr qp mr info t q = record {
  lid_fits = t.lid_fits;
  qpn_fits = q;
  psn_fits = ground arith;
  r_key_fits = t.rkey_fits;
  data_vaddr_fits = t.vaddr_fits;
  gid_fits = t.gid_fits;
}

module _ {W : Type 0} (v : Verbs W) where
  connect_to_num :
      (peer : ℕ) (qp : Qp) (i : ℕ) (p : Process W) {qp' : Qp}
      → (connect_to v peer qp i p).0 ≡ some qp'
      → qp'.qp_num ≡ qp.qp_num
  unfolding connect_to modify_qp_to_rtr modify_qp_to_rts
  connect_to_num peer qp i p e = ground arith

module _ {W : Type 0} (n : Sockets W) where
  -- An exchange that returned true brought the data of the peer.
  exchanged :
      (local_dest peer rem_dest : ConnectInfo) (l : Locals) (s : Sys W) {d : Bool × ConnectInfo}
      → Fits local_dest
      → Fits peer
      → IsSized l
      → ((fd : ℤ) (w : W) → IsStartOf (text_of peer) (n.read fd msg_size w).0)
      → (client_exch_data n example_port local_dest rem_dest l s).0 ≡ some d
      → d.0 ≡ true
      → d.1 ≡ learn peer rem_dest
  exchanged local_dest peer rem_dest l s fits peer_fits sized starts e good =
      elim (client_exch_data_safe n example_port local_dest peer rem_dest l s fits peer_fits sized
        starts) [ inl a ↦ cc | inr a ↦ cc ]

module _ {W : Type 0} (v : Verbs W) (n : Sockets W) where
  -- A connection of a client that comes to its end knows its peer: where its own data and those of the
  -- peer fit the fields of the message, and every read brings the start of the message of the peer, however
  -- it is broken up or cut short, a client that got a queue pair whose number has 24 bits has stored the
  -- whole data of the peer, and has asked for the transition to RTR with these data and no others.
  pub client_link_connected :
      (ctx : RdmaContext) (buf : ℕ) (cq : Option ℕ) (region : Mr) (l : Locals) (i : ℕ)
      (p : Process W) (peer : ConnectInfo) {qp' : Qp}
      → TellsFit ctx (buf_at buf i) region
      → Fits peer
      → IsSized l
      → ((fd : ℤ) (w : W) → IsStartOf (text_of peer) (n.read fd msg_size w).0)
      → (client_link v n ctx buf cq (some region) l i p).0 ≡ some (some qp')
      → qp'.qp_num < 2 ^ 24
      → let p' = (client_link v n ctx buf cq (some region) l i p).1 in
        (p'.remote_info i ≡ learn peer (p.remote_info i))
        × ((t : QpType) × (last_rtr p'.sys.calls
              ≡ some (attr_to_rtr t (learn peer (p.remote_info i)))))
  unfolding client_link
  client_link_connected ctx buf cq region l i p peer {qp'} tells peer_fits sized starts done num =
      let p1 : Process W = record p { memory = fill (buf_at buf i) b'b' buf_size p.memory } in
      let (o2, p2) = make_qp v ctx cq i p1 in
      let same2 = make_qp_peers v ctx cq i p1 in
      elim (Option-cases o2) [
        | inl e ↦ ground arith
        | inr (qp, e) ↦
            let info = own_info ctx (buf_at buf i) qp region (p2.local_info i) in
            let infos = set_at i info p2.local_info in
            let s4 = (modify_qp_to_init v qp ctx p2.sys).1 in
            let (r, s5) = client_exch_data n example_port (infos i) (p2.remote_info i) l s4 in
            elim (Option-cases r) [
              | inl e5 ↦ ground arith
              | inr (d, e5) ↦ elim (Bool-cases d.0) [
                | inr bad ↦ ground arith
                | inl good ↦
                    let p6 : Process W = record p2 {
                      local_info = infos;
                      remote_info = set_at i d.1 p2.remote_info;
                      sys = s5;
                    } in
                    let (rtr_to, same6) = connect_to_peer v i qp i p6 in
                    let gives : (connect_to v i qp i p6).0 ≡ some qp' = ground arith in
                    let ends : qp'.qp_num ≡ qp.qp_num = connect_to_num v i qp i p6 gives in
                    let qp_num_fits : qp.qp_num < 2 ^ 24 = ground (arith, ends, num) in
                    let fits : Fits (infos i) =
                      subst (λ k. Fits k) (sym (set_at_same i info p2.local_info))
                        (own_info-Fits ctx (buf_at buf i) qp region (p2.local_info i) tells
                          qp_num_fits) in
                    let got =
                      exchanged n (infos i) peer (p2.remote_info i) l s4 fits peer_fits sized starts
                        e5 good in
                    let mine = set_at_same i d.1 p2.remote_info in
                    (
                      ground (arith, same6, mine, got, same2),
                      (qp.qp_type, ground (arith, rtr_to, mine, got, same2)),
                    )
              ]
            ]
      ]
