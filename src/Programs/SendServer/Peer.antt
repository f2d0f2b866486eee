-- ===== src/Programs/SendServer/Peer.antt =====
-- The peer that the sending server asks its queue pairs to connect to.
use nvm_rdma_examples.Prelude.{ℕ, Option, some, ◌≡◌, ◌≢◌, refl, arith, Option-cases, inl, inr}
use nvm_rdma_examples.Prelude.Int.{minus_one}
use nvm_rdma_examples.Verbs.Types.{Qp, Mr, Wc, QpType}
use nvm_rdma_examples.Verbs.Interface.{Verbs}
use nvm_rdma_examples.Sockets.{Sockets}
use nvm_rdma_examples.Os.{Os}
use nvm_rdma_examples.QueuePair.{RdmaContext, attr_to_rtr, create_memory_region, modify_qp_to_init}
use nvm_rdma_examples.Post.{rdma_send}
use nvm_rdma_examples.Exchange.{Locals, server_exch_data}
use nvm_rdma_examples.Bench.Rounds.{store_bytes}
use nvm_rdma_examples.OneSided.{name_text}
use nvm_rdma_examples.Programs.{
  Process, buf_size, example_port, nvm_size, set_at, own_info, open_and_fill, make_qp, poll_one,
  server_link,
}
use nvm_rdma_examples.Programs.Polled.{poll_one_unseen}
use nvm_rdma_examples.Programs.Peers.{last_rtr, set_at_other, connect_to_peer, make_qp_peers}
use nvm_rdma_examples.Programs.SendServer.{send_one}

module _ {W : Type 0} (v : Verbs W) where
  -- The poll changes neither the attributes last asked for nor what is known of the peers.
  poll_one_peers :
      (fuel : ℕ) (cq : Option ℕ) (wc : Wc) (p : Process W)
      → let p' = (poll_one v fuel cq wc p).1 in
        (last_rtr p'.sys.calls ≡ last_rtr p.sys.calls) × (p'.remote_info ≡ p.remote_info)
  unfolding poll_one
  poll_one_peers fuel cq wc p =
      (poll_one_unseen v last_rtr (λ c n o cs. refl) fuel cq wc p, ground arith)

module _ {W : Type 0} (v : Verbs W) (n : Sockets W) where
  server_link_peer :
      (ctx : RdmaContext) (nvmbuf : ℕ) (cq : Option ℕ) (l : Locals) (peer i : ℕ) (p : Process W)
      {r : Qp × Mr}
      → peer ≢ i
      → (server_link v n ctx nvmbuf cq l peer i p).0 ≡ some r
      → let p' = (server_link v n ctx nvmbuf cq l peer i p).1 in
        (t : QpType) × (last_rtr p'.sys.calls ≡ some (attr_to_rtr t (p.remote_info peer)))
        × (p'.remote_info peer ≡ p.remote_info peer)
  unfolding server_link
  server_link_peer ctx nvmbuf cq l peer i p ne done =
      let (o2, p2) = make_qp v ctx cq i p in
      let same2 = make_qp_peers v ctx cq i p in
      elim (Option-cases o2) [
        | inl e ↦ ground arith
        | inr (qp, e) ↦
            let (mr, s3) = create_memory_region v nvmbuf buf_size ctx p2.sys in
            elim (Option-cases mr) [
              | inl e3 ↦ ground arith
              | inr (region, e3) ↦
                  let info = own_info ctx region.addr qp region (p2.local_info i) in
                  let infos = set_at i info p2.local_info in
                  let s4 = (modify_qp_to_init v qp ctx s3).1 in
                  let (x, s5) = server_exch_data n example_port (infos i) (p2.remote_info i) l s4 in
                  elim (Option-cases x) [
                    | inl e5 ↦ ground arith
                    | inr (d, e5) ↦
                        let p6 : Process W = record p2 {
                          local_info = infos;
                          remote_info = set_at i d.1 p2.remote_info;
                          sys = s5;
                        } in
                        let other : set_at i d.1 p2.remote_info peer ≡ p2.remote_info peer =
                          set_at_other i peer d.1 p2.remote_info ne in
                        let (rtr_to, same6) = connect_to_peer v peer qp i p6 in
                        (
                          qp.qp_type,
                          ground (arith, rtr_to, same6, other, same2),
                          ground (arith, rtr_to, same6, other, same2),
                        )
                  ]
            ]
      ]

module _ {W : Type 0} (v : Verbs W) (n : Sockets W) (os : Os W) where
  open_and_fill_peers :
      (size : ℕ) (p : Process W) → (open_and_fill os size p).1.remote_info ≡ p.remote_info
  unfolding open_and_fill
  open_and_fill_peers size p = ground arith

  -- A connection of the sending server but the first, where it comes to its end, has asked for the peer
  -- of the first connection, whatever its own exchange brought.
  pub send_one_peer :
      (fuel : ℕ) (ctx : RdmaContext) (cq : Option ℕ) (l : Locals) (wc : Wc) (i : ℕ) (p : Process W)
      → 0 ≢ i
      → (send_one v n os fuel ctx cq l wc i p).0 ≡ some tt
      → let p' = (send_one v n os fuel ctx cq l wc i p).1 in
        ((t : QpType) × (last_rtr p'.sys.calls ≡ some (attr_to_rtr t (p.remote_info 0))))
        × (p'.remote_info 0 ≡ p.remote_info 0)
  unfolding send_one rdma_send
  send_one_peer fuel ctx cq l wc i p ne done =
      let (opened, p1) = open_and_fill os nvm_size p in
      let same1 = open_and_fill_peers nvm_size p in
      elim (Option-cases opened) [
        | inl e ↦ ground arith
        | inr (nvmbuf, e) ↦
            let (o, p2) = server_link v n ctx nvmbuf cq l 0 i p1 in
            elim (Option-cases o) [
              | inl e2 ↦ ground arith
              | inr (r, e2) ↦
                  let (t, rtr_to, same2) = server_link_peer v n ctx nvmbuf cq l 0 i p1 ne e2 in
                  let p3 : Process W = record p2 {
                    memory = store_bytes nvmbuf name_text p2.memory;
                    sys = (rdma_send v r.0 r.1.addr 1500 r.1.lkey minus_one p2.sys).1;
                  } in
                  let (same3, same4) = poll_one_peers v fuel cq wc p3 in
                  elim (Option-cases (poll_one v fuel cq wc p3).0) [
                    | inl e3 ↦ ground arith
                    | inr (u, e3) ↦ (
                      (t, ground (arith, rtr_to, same1, same3)),
                      ground (arith, same1, same2, same4),
                    )
                  ]
            ]
      ]
