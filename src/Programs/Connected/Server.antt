-- ===== src/Programs/Connected/Server.antt =====
-- The connections of the servers of nvm_ibverbs/examples, with the data that the exchange brings or not.
use mathlib.Core.Path.{subst}
use nvm_rdma_examples.Prelude.{
  ℕ, ◌^◌, ◌<◌, Bool, Option, some, ◌≡◌, sym, arith, Option-cases, ◌⊎◌, inl, inr,
}
use nvm_rdma_examples.Prelude.Int.{ℤ}
use nvm_rdma_examples.Verbs.Types.{Qp, Mr, QpType}
use nvm_rdma_examples.Verbs.Interface.{Verbs}
use nvm_rdma_examples.Sockets.{Sockets}
use nvm_rdma_examples.Effects.{Sys}
use nvm_rdma_examples.QueuePair.{
  RdmaContext, ConnectInfo, attr_to_rtr, create_memory_region, modify_qp_to_init,
}
use nvm_rdma_examples.Message.{msg_size, Fits}
use nvm_rdma_examples.Message.RoundTrip.{learn}
use nvm_rdma_examples.Exchange.{Locals, server_exch_data}
use nvm_rdma_examples.Exchange.Agreement.{IsSized, text_of}
use nvm_rdma_examples.Exchange.Streams.{IsStartOf, server_exch_data_safe}
use nvm_rdma_examples.Programs.{
  Process, buf_size, example_port, set_at, own_info, make_qp, connect_to, server_link,
}
use nvm_rdma_examples.Programs.Peers.{last_rtr, set_at_same, connect_to_peer, make_qp_peers}
use nvm_rdma_examples.Programs.Connected.{TellsFit, own_info-Fits, connect_to_num}

module _ {W : Type 0} (n : Sockets W) where
  -- What an exchange of a server leaves is the whole data of the peer, or what was there.
  left_behind :
      (local_dest peer rem_dest : ConnectInfo) (l : Locals) (s : Sys W) {d : Bool × ConnectInfo}
      → Fits local_dest
      → Fits peer
      → IsSized l
      → ((fd : ℤ) (w : W) → IsStartOf (text_of peer) (n.read fd msg_size w).0)
      → (server_exch_data n example_port local_dest rem_dest l s).0 ≡ some d
      → (d.1 ≡ learn peer rem_dest) ⊎ (d.1 ≡ rem_dest)
  left_behind local_dest peer rem_dest l s fits peer_fits sized starts e =
      elim (server_exch_data_safe n example_port local_dest peer rem_dest l s fits peer_fits sized
        starts).1 [ inl a ↦ inl cc | inr a ↦ inr cc ]

same_parts :
    {qp qp' : Qp} {mr mr' : Mr}
    → ◌≡◌ {A = Option (Qp × Mr)} (some (qp, mr)) (some (qp', mr'))
    → (qp ≡ qp') × (mr ≡ mr')
same_parts e = (cc, cc)

module _ {W : Type 0} (v : Verbs W) (n : Sockets W) where
  -- What a connection of a server that comes to its end has asked for, given that the server passes its
  -- own element: where what it told and the data of the peer fit the fields of the message, and every
  -- read brings the start of the message of the peer, the transition to RTR was asked for with the data
  -- now in the array, and these are the whole data of the peer, or what the array held before: the
  -- server goes on after an exchange that failed.
  pub server_link_connected :
      (ctx : RdmaContext) (nvmbuf : ℕ) (cq : Option ℕ) (l : Locals) (i : ℕ) (p : Process W)
      (peer : ConnectInfo) {qp' : Qp} {region : Mr}
      → Fits peer
      → IsSized l
      → ((fd : ℤ) (w : W) → IsStartOf (text_of peer) (n.read fd msg_size w).0)
      → (server_link v n ctx nvmbuf cq l i i p).0 ≡ some (qp', region)
      → TellsFit ctx region.addr region
      → qp'.qp_num < 2 ^ 24
      → let p' = (server_link v n ctx nvmbuf cq l i i p).1 in
        ((t : QpType) × (last_rtr p'.sys.calls ≡ some (attr_to_rtr t (p'.remote_info i))))
        × ((p'.remote_info i ≡ learn peer (p.remote_info i)) ⊎ (p'.remote_info i ≡ p.remote_info i))
  unfolding server_link
  server_link_connected ctx nvmbuf cq l i p peer {qp'} {region} peer_fits sized starts done tells
        num =
      let (o2, p2) = make_qp v ctx cq i p in
      let same2 = make_qp_peers v ctx cq i p in
      elim (Option-cases o2) [
        | inl e ↦ ground arith
        | inr (qp, e) ↦
            let (made, s3) = create_memory_region v nvmbuf buf_size ctx p2.sys in
            elim (Option-cases made) [
              | inl e3 ↦ ground arith
              | inr (mr, e3) ↦
                  let info = own_info ctx mr.addr qp mr (p2.local_info i) in
                  let infos = set_at i info p2.local_info in
                  let s4 = (modify_qp_to_init v qp ctx s3).1 in
                  let (x, s5) = server_exch_data n example_port (infos i) (p2.remote_info i) l s4 in
                  elim (Option-cases x) [
                    | inl e5 ↦ ground arith
                    | inr (d, e5) ↦
                        let p6 : Process W = record p2 {
                          local_info = infos;
                          remote_info = set_at i d.1 p2.remote_info;
                          sys = s5;
                        } in
                        let (rtr_to, same6) = connect_to_peer v i qp i p6 in
                        elim (Option-cases (connect_to v i qp i p6).0) [
                          | inl e6 ↦ ground arith
                          | inr (qp2, e6) ↦
                              let ends = connect_to_num v i qp i p6 e6 in
                              let both : ◌≡◌ {A = Option (Qp × Mr)} (some (qp2, mr))
                                  (some (qp', region)) =
                                ground arith in
                              let (same_qp, same_mr) = same_parts both in
                              let qp_num_fits : qp.qp_num < 2 ^ 24 =
                                ground (arith, ends, same_qp, num) in
                              let tells' = subst (λ k. TellsFit ctx k.addr k) (sym same_mr) tells in
                              let fits : Fits (infos i) =
                                subst (λ k. Fits k) (sym (set_at_same i info p2.local_info))
                                  (own_info-Fits ctx mr.addr qp mr (p2.local_info i) tells'
                                    qp_num_fits) in
                              let mine = set_at_same i d.1 p2.remote_info in
                              (
                                (qp.qp_type, ground (arith, rtr_to, same6)),
                                elim (left_behind n (infos i) peer (p2.remote_info i) l s4 fits
                                    peer_fits sized starts e5) [
                                      | inl a ↦ inl (ground (arith, same6, mine, a, same2))
                                      | inr a ↦ inr (ground (arith, same6, mine, a, same2))
                                    ],
                              )
                        ]
                  ]
            ]
      ]
