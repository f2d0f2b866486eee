-- ===== src/Programs/Named.antt =====
-- The requests of a log, the local memory that they name, and the operations that post none.
use nvm_rdma_examples.Prelude.{
  ℕ, suc, List, [], ◌∷◌, ◌++◌, none, ◌≡◌, refl, arith, Option-cases, inl, inr,
}
use nvm_rdma_examples.Prelude.Int.{ℤ}
use nvm_rdma_examples.Verbs.Types.{Qp, PortAttr, Sge, SendWr, RecvWr}
use nvm_rdma_examples.Verbs.Interface.{Verbs}
use nvm_rdma_examples.Effects.{Call, Sys}
use nvm_rdma_examples.QueuePair.{RdmaContext, modify_qp_to_init, modify_qp_to_rts}
use nvm_rdma_examples.Context.{
  Frame, query_ports, scan_devices, open_chosen, fill_context, create_body, create_context,
  destroy_context, destroy_pd, destroy_ctx, create_exit, exit_pd, exit_ctx, exit_list,
}
use nvm_rdma_examples.Context.Accounts.{list_cases}

-- A request that was posted, to be sent or to receive.
pub data Request : Type 0 where
  to_send : SendWr → Request
  to_receive : RecvWr → Request

-- The requests posted, the latest first.
abbrev pub requests : List Call → List Request
requests [] = []
requests (Call.posted_send qp wr res ∷ cs) = to_send wr ∷ requests cs
requests (Call.posted_recv qp wr res ∷ cs) = to_receive wr ∷ requests cs
requests (_ ∷ cs) = requests cs

-- Their entries.
abbrev pub entries : List Request → List Sge
entries [] = []
entries (to_send wr ∷ rs) = wr.sg_list ++ entries rs
entries (to_receive wr ∷ rs) = wr.sg_list ++ entries rs

abbrev pub named : List Call → List Sge
named cs = entries (requests cs)

module _ {W : Type 0} (v : Verbs W) where
  pub requests-modify_qp_to_init :
      (qp : Qp) (ctx : RdmaContext) (s : Sys W)
      → requests (modify_qp_to_init v qp ctx s).1.calls ≡ requests s.calls
  unfolding modify_qp_to_init
  requests-modify_qp_to_init qp ctx s = ground arith

  pub requests-modify_qp_to_rts :
      (qp : Qp) (s : Sys W) → requests (modify_qp_to_rts v qp s).1.calls ≡ requests s.calls
  unfolding modify_qp_to_rts
  requests-modify_qp_to_rts qp s = ground arith

  pub requests-destroy_context :
      (ctx : RdmaContext) (s : Sys W)
      → requests (destroy_context v ctx s).1.calls ≡ requests s.calls
  unfolding destroy_context destroy_pd destroy_ctx
  requests-destroy_context ctx s = ground arith

  requests-create_exit : (f : Frame W) → requests (create_exit v f).calls ≡ requests f.sys.calls
  unfolding create_exit exit_pd exit_ctx exit_list
  requests-create_exit f = ground arith

  requests-query_ports :
      (ctx : ℕ) (js : List ℕ) (f : Frame W)
      → requests (query_ports v ctx js f).1.sys.calls ≡ requests f.sys.calls
  unfolding query_ports
  requests-query_ports ctx [] f = refl
  requests-query_ports ctx (j ∷ js) f =
      let answer = (v.query_port ctx j f.sys.world).0 in
      let s1 : Sys W = record {
        world = (v.query_port ctx j f.sys.world).1;
        calls = Call.queried_port ctx j answer ∷ f.sys.calls;
      } in
      let f1 : Frame W = record f { sys = s1 } in
      elim (Option-cases answer) [
        | inl e ↦ ground (arith, requests-query_ports ctx js f1)
        | inr (a, e) ↦ ground (arith, requests-query_ports ctx js (record f1 { port_attr = a }))
      ]

  requests-scan_devices :
      (ds : List ℕ) (k i : ℕ) (f : Frame W)
      → requests (scan_devices v ds k i f).1.sys.calls ≡ requests f.sys.calls
  unfolding scan_devices
  requests-scan_devices [] k i f = refl
  requests-scan_devices (d ∷ ds) k i f =
      let ctx = (v.open_device d f.sys.world).0 in
      let s1 : Sys W = record {
        world = (v.open_device d f.sys.world).1;
        calls = Call.opened_device d ctx ∷ f.sys.calls;
      } in
      let f1 : Frame W = record f { sys = s1; ctx = ctx } in
      elim (Option-cases ctx) [
        | inl e ↦ ground (arith, requests-scan_devices ds (suc k) i f1)
        | inr (c, e) ↦
            let (o, f2) = query_ports v c (0 ∷ 1 ∷ []) f1 in
            ground
              (arith, requests-query_ports c (0 ∷ 1 ∷ []) f1, requests-scan_devices ds (suc k) i f2)
      ]

  requests-open_chosen :
      (ds : List ℕ) (i : ℕ) (f : Frame W)
      → requests (open_chosen v ds i f).1.sys.calls ≡ requests f.sys.calls
  unfolding open_chosen
  requests-open_chosen ds i f = ground arith

  requests-fill_context :
      (context : RdmaContext) (port : ℕ) (gid_index : ℤ) (i ctx : ℕ) (f : Frame W)
      → requests (fill_context v context port gid_index i ctx f).1.sys.calls ≡ requests f.sys.calls
  unfolding fill_context
  requests-fill_context context port gid_index i ctx f = ground arith

  requests-create_body :
      (context : RdmaContext) (port : ℕ) (gid_index : ℤ) (dev_index : ℕ) (f : Frame W)
      → requests (create_body v context port gid_index dev_index f).1.sys.calls
        ≡ requests f.sys.calls
  unfolding create_body
  requests-create_body context port gid_index dev_index f =
      let got = (v.get_device_list f.sys.world).0 in
      let s1 : Sys W = record {
        world = (v.get_device_list f.sys.world).1;
        calls = Call.got_device_list got ∷ f.sys.calls;
      } in
      let f1 : Frame W = record f { sys = s1; device_list = got } in
      elim (list_cases got) [
        | inl e ↦ ground arith
        | inr (d, ds, e) ↦
            let (o2, f2) = scan_devices v (d ∷ ds) 0 dev_index f1 in
            elim (Option-cases o2) [
              | inl e2 ↦ ground (arith, requests-scan_devices (d ∷ ds) 0 dev_index f1)
              | inr (chosen, e2) ↦
                  let (o3, f3) = open_chosen v (d ∷ ds) chosen f2 in
                  elim (Option-cases o3) [
                    | inl e3 ↦ ground (
                      arith,
                      requests-scan_devices (d ∷ ds) 0 dev_index f1,
                      requests-open_chosen (d ∷ ds) chosen f2,
                    )
                    | inr (ctx, e3) ↦ ground (
                      arith,
                      requests-scan_devices (d ∷ ds) 0 dev_index f1,
                      requests-open_chosen (d ∷ ds) chosen f2,
                      requests-fill_context context port gid_index chosen ctx f3,
                    )
                  ]
            ]
      ]

  pub requests-create_context :
      (context : RdmaContext) (port : ℕ) (gid_index : ℤ) (dev_index : ℕ) (junk : PortAttr)
      (s : Sys W)
      → requests (create_context v context port gid_index dev_index junk s).1.calls
        ≡ requests s.calls
  unfolding create_context
  requests-create_context context port gid_index dev_index junk s =
      let f : Frame W = record {
        ctx = none;
        pd = none;
        device_list = none;
        port_attr = junk;
        sys = s;
      } in
      let (done, f') = create_body v context port gid_index dev_index f in
      let body = requests-create_body context port gid_index dev_index f in
      elim (Option-cases done) [
        | inl e ↦ ground (arith, body, requests-create_exit f')
        | inr (c, e) ↦ ground (arith, body)
      ]
