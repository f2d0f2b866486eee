-- ===== src/Programs/Links.antt =====
-- The connections of the examples post no request, and touch no element of the arrays but their own.
use nvm_rdma_examples.Prelude.{ℕ, Option, ◌≡◌, ◌≢◌, refl, arith, Option-cases, inl, inr}
use nvm_rdma_examples.Verbs.Types.{Qp, Mr}
use nvm_rdma_examples.Verbs.Interface.{Verbs}
use nvm_rdma_examples.Sockets.{Sockets}
use nvm_rdma_examples.Os.{Os}
use nvm_rdma_examples.QueuePair.{
  RdmaContext, create_queue_pair_shared, create_queue_pair, create_memory_region, modify_qp_to_init,
  modify_qp_to_rtr,
}
use nvm_rdma_examples.Exchange.{Locals, client_exch_data, server_exch_data}
use nvm_rdma_examples.Bench.{fill}
use nvm_rdma_examples.Programs.{
  Process, buf_size, buf_at, example_port, set_at, own_info, open_and_fill, make_qp, connect_to,
  client_link, server_link,
}
use nvm_rdma_examples.Programs.Named.{
  requests, requests-modify_qp_to_init, requests-modify_qp_to_rts,
}
use nvm_rdma_examples.Programs.Talks.{requests-client_exch_data, requests-server_exch_data}

-- Between two states no request was posted, and no queue pair but that of element `i` was stored.
pub record Links {W : Type 0} (i : ℕ) (p p' : Process W) : Type 0 where
  pub no_requests : requests p'.sys.calls ≡ requests p.sys.calls
  pub own_qp : (j : ℕ) → i ≢ j → p'.all_qp j ≡ p.all_qp j

module _ {W : Type 0} where
  pub Links-refl : (i : ℕ) (p : Process W) → Links i p p
  Links-refl i p = record { no_requests = refl; own_qp = λ j ne. refl }

module _ {W : Type 0} (os : Os W) where
  pub open_and_fill-Links : (size i : ℕ) (p : Process W) → Links i p (open_and_fill os size p).1
  unfolding open_and_fill
  open_and_fill-Links size i p = record {
    no_requests = ground arith;
    own_qp = λ j ne. ground arith;
  }

module _ {W : Type 0} (v : Verbs W) where
  make_qp-Links :
      (ctx : RdmaContext) (cq : Option ℕ) (i : ℕ) (p : Process W)
      → Links i p (make_qp v ctx cq i p).1
  unfolding make_qp create_queue_pair_shared create_queue_pair set_at
  make_qp-Links ctx cq i p = record { no_requests = ground arith; own_qp = λ j ne. ground arith }

  connect_to-Links :
      (peer : ℕ) (qp : Qp) (i : ℕ) (p : Process W) → Links i p (connect_to v peer qp i p).1
  unfolding connect_to modify_qp_to_rtr set_at
  connect_to-Links peer qp i p =
      let s1 = (modify_qp_to_rtr v qp (p.remote_info peer) p.sys).1 in
      record {
        no_requests = ground (arith, requests-modify_qp_to_rts v qp s1);
        own_qp = λ j ne. ground arith;
      }

module _ {W : Type 0} (v : Verbs W) (n : Sockets W) where
  pub client_link-Links :
      (ctx : RdmaContext) (buf : ℕ) (cq : Option ℕ) (mr : Option Mr) (l : Locals) (i : ℕ)
      (p : Process W)
      → Links i p (client_link v n ctx buf cq mr l i p).1
  unfolding client_link
  client_link-Links ctx buf cq mr l i p =
      let p1 : Process W = record p { memory = fill (buf_at buf i) b'b' buf_size p.memory } in
      let (o2, p2) = make_qp v ctx cq i p1 in
      let links2 = make_qp-Links v ctx cq i p1 in
      elim (Option-cases o2) [
        | inl e ↦ record {
          no_requests = ground (arith, links2.no_requests);
          own_qp = λ j ne. ground (arith, links2.own_qp j ne);
        }
        | inr (qp, e) ↦ elim (Option-cases mr) [
          | inl e3 ↦ record {
            no_requests = ground (arith, links2.no_requests);
            own_qp = λ j ne. ground (arith, links2.own_qp j ne);
          }
          | inr (region, e3) ↦
              let info = own_info ctx (buf_at buf i) qp region (p2.local_info i) in
              let infos = set_at i info p2.local_info in
              let s4 = (modify_qp_to_init v qp ctx p2.sys).1 in
              let (r, s5) = client_exch_data n example_port (infos i) (p2.remote_info i) l s4 in
              let same4 = requests-modify_qp_to_init v qp ctx p2.sys in
              let same5 =
                requests-client_exch_data n example_port (infos i) (p2.remote_info i) l s4 in
              elim (Option-cases r) [
                | inl e5 ↦ record {
                  no_requests = ground (arith, links2.no_requests, same4, same5);
                  own_qp = λ j ne. ground (arith, links2.own_qp j ne);
                }
                | inr (d, e5) ↦
                    let p6 : Process W = record p2 {
                      local_info = infos;
                      remote_info = set_at i d.1 p2.remote_info;
                      sys = s5;
                    } in
                    let links6 = connect_to-Links v i qp i p6 in
                    record {
                      no_requests =
                          ground (arith, links2.no_requests, same4, same5, links6.no_requests);
                      own_qp = λ j ne. ground (arith, links2.own_qp j ne, links6.own_qp j ne);
                    }
              ]
        ]
      ]

  pub server_link-Links :
      (ctx : RdmaContext) (nvmbuf : ℕ) (cq : Option ℕ) (l : Locals) (peer i : ℕ) (p : Process W)
      → Links i p (server_link v n ctx nvmbuf cq l peer i p).1
  unfolding server_link create_memory_region
  server_link-Links ctx nvmbuf cq l peer i p =
      let (o2, p2) = make_qp v ctx cq i p in
      let links2 = make_qp-Links v ctx cq i p in
      elim (Option-cases o2) [
        | inl e ↦ record {
          no_requests = ground (arith, links2.no_requests);
          own_qp = λ j ne. ground (arith, links2.own_qp j ne);
        }
        | inr (qp, e) ↦
            let (mr, s3) = create_memory_region v nvmbuf buf_size ctx p2.sys in
            elim (Option-cases mr) [
              | inl e3 ↦ record {
                no_requests = ground (arith, links2.no_requests);
                own_qp = λ j ne. ground (arith, links2.own_qp j ne);
              }
              | inr (region, e3) ↦
                  let info = own_info ctx region.addr qp region (p2.local_info i) in
                  let infos = set_at i info p2.local_info in
                  let s4 = (modify_qp_to_init v qp ctx s3).1 in
                  let (r, s5) = server_exch_data n example_port (infos i) (p2.remote_info i) l s4 in
                  let same4 = requests-modify_qp_to_init v qp ctx s3 in
                  let same5 =
                    requests-server_exch_data n example_port (infos i) (p2.remote_info i) l s4 in
                  elim (Option-cases r) [
                    | inl e5 ↦ record {
                      no_requests = ground (arith, links2.no_requests, same4, same5);
                      own_qp = λ j ne. ground (arith, links2.own_qp j ne);
                    }
                    | inr (d, e5) ↦
                        let p6 : Process W = record p2 {
                          local_info = infos;
                          remote_info = set_at i d.1 p2.remote_info;
                          sys = s5;
                        } in
                        let links6 = connect_to-Links v peer qp i p6 in
                        record {
                          no_requests =
                              ground (arith, links2.no_requests, same4, same5, links6.no_requests);
                          own_qp = λ j ne. ground (arith, links2.own_qp j ne, links6.own_qp j ne);
                        }
                  ]
            ]
      ]
