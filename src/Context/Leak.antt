-- ===== src/Context/Leak.antt =====
-- The device contexts that `createContext` opens.
use nvm_rdma_examples.Prelude.{
  ℕ, suc, ◌+◌, ◌≤◌, true, List, [], ◌∷◌, none, some, ◌≡◌, refl, arith, is_some, Option-cases, inl,
  inr,
}
use nvm_rdma_examples.Prelude.Int.{ℤ}
use nvm_rdma_examples.Verbs.Types.{PortAttr}
use nvm_rdma_examples.Verbs.Interface.{Verbs}
use nvm_rdma_examples.Effects.{Call, Sys}
use nvm_rdma_examples.QueuePair.{RdmaContext}
use nvm_rdma_examples.Context.{
  Frame, query_ports, scan_devices, open_chosen, fill_context, create_body, create_context,
}
use nvm_rdma_examples.Ledger.{total, contexts_opened}
use nvm_rdma_examples.Context.Accounts.{list_cases}

abbrev opened : {W : Type 0} → Frame W → ℕ
opened f = total contexts_opened f.sys.calls

module _ {W : Type 0} (v : Verbs W) where
  opened-query_ports :
      (ctx : ℕ) (js : List ℕ) (f : Frame W) → opened (query_ports v ctx js f).1 ≡ opened f
  unfolding query_ports
  opened-query_ports ctx [] f = refl
  opened-query_ports ctx (j ∷ js) f =
      let answer = (v.query_port ctx j f.sys.world).0 in
      let s1 : Sys W = record {
        world = (v.query_port ctx j f.sys.world).1;
        calls = Call.queried_port ctx j answer ∷ f.sys.calls;
      } in
      let f1 : Frame W = record f { sys = s1 } in
      elim (Option-cases answer) [
        | inl e ↦ ground (arith, opened-query_ports ctx js f1)
        | inr (a, e) ↦ ground (arith, opened-query_ports ctx js (record f1 { port_attr = a }))
      ]

  opened-scan_devices :
      (ds : List ℕ) (k i : ℕ) (f : Frame W) → opened f ≤ opened (scan_devices v ds k i f).1
  unfolding scan_devices
  opened-scan_devices [] k i f = omega arith
  opened-scan_devices (d ∷ ds) k i f =
      let ctx = (v.open_device d f.sys.world).0 in
      let s1 : Sys W = record {
        world = (v.open_device d f.sys.world).1;
        calls = Call.opened_device d ctx ∷ f.sys.calls;
      } in
      let f1 : Frame W = record f { sys = s1; ctx = ctx } in
      elim (Option-cases ctx) [
        | inl e ↦ ground (arith, opened-scan_devices ds (suc k) i f1)
        | inr (c, e) ↦
            let (o, f2) = query_ports v c (0 ∷ 1 ∷ []) f1 in
            ground
              (arith, opened-query_ports c (0 ∷ 1 ∷ []) f1, opened-scan_devices ds (suc k) i f2)
      ]

  -- The first device that opens is counted.
  opened-scan_devices_first :
      (d : ℕ) (ds : List ℕ) (k i : ℕ) (f : Frame W)
      → is_some (v.open_device d f.sys.world).0 ≡ true
      → opened f + 1 ≤ opened (scan_devices v (d ∷ ds) k i f).1
  unfolding scan_devices
  opened-scan_devices_first d ds k i f h =
      let ctx = (v.open_device d f.sys.world).0 in
      let s1 : Sys W = record {
        world = (v.open_device d f.sys.world).1;
        calls = Call.opened_device d ctx ∷ f.sys.calls;
      } in
      let f1 : Frame W = record f { sys = s1; ctx = ctx } in
      elim (Option-cases ctx) [
        | inl e ↦ ground arith
        | inr (c, e) ↦
            let (o, f2) = query_ports v c (0 ∷ 1 ∷ []) f1 in
            ground
              (arith, opened-query_ports c (0 ∷ 1 ∷ []) f1, opened-scan_devices ds (suc k) i f2)
      ]

  opened-open_chosen :
      (ds : List ℕ) (i : ℕ) (f : Frame W) {c : ℕ}
      → (open_chosen v ds i f).0 ≡ some c
      → opened (open_chosen v ds i f).1 ≡ opened f + 1
  unfolding open_chosen
  opened-open_chosen ds i f h = ground arith

  opened-fill_context :
      (context : RdmaContext) (port : ℕ) (gid_index : ℤ) (i ctx : ℕ) (f : Frame W)
      → opened (fill_context v context port gid_index i ctx f).1 ≡ opened f
  unfolding fill_context
  opened-fill_context context port gid_index i ctx f = ground arith

  opened-create_body :
      ((d : ℕ) (w : W) → is_some (v.open_device d w).0 ≡ true)
      → (context : RdmaContext) (port : ℕ) (gid_index : ℤ) (dev_index : ℕ) (f : Frame W)
        {c : RdmaContext}
      → (create_body v context port gid_index dev_index f).0 ≡ some c
      → opened f + 2 ≤ opened (create_body v context port gid_index dev_index f).1
  unfolding create_body
  opened-create_body all context port gid_index dev_index f {c} h =
      let got = (v.get_device_list f.sys.world).0 in
      let s1 : Sys W = record {
        world = (v.get_device_list f.sys.world).1;
        calls = Call.got_device_list got ∷ f.sys.calls;
      } in
      let f1 : Frame W = record f { sys = s1; device_list = got } in
      elim (list_cases got) [
        | inl e ↦ ground arith
        | inr (d, ds, e) ↦
            let (o2, f2) = scan_devices v (d ∷ ds) 0 dev_index f1 in
            elim (Option-cases o2) [
              | inl e2 ↦ ground arith
              | inr (chosen, e2) ↦
                  let (o3, f3) = open_chosen v (d ∷ ds) chosen f2 in
                  elim (Option-cases o3) [
                    | inl e3 ↦ ground arith
                    | inr (ctx, e3) ↦ ground (
                      arith,
                      opened-scan_devices_first d ds 0 dev_index f1 (all d s1.world),
                      opened-open_chosen (d ∷ ds) chosen f2 e3,
                      opened-fill_context context port gid_index chosen ctx f3,
                    )
                  ]
            ]
      ]

  -- Where every device opens, a creation of a context that succeeds has opened at least two device
  -- contexts.
  pub create_context_leaks :
      ((d : ℕ) (w : W) → is_some (v.open_device d w).0 ≡ true)
      → (context : RdmaContext) (port : ℕ) (gid_index : ℤ) (dev_index : ℕ) (junk : PortAttr)
        (s : Sys W)
      → (create_context v context port gid_index dev_index junk s).0.1 ≡ true
      → total contexts_opened s.calls + 2
        ≤ total contexts_opened (create_context v context port gid_index dev_index junk s).1.calls
  unfolding create_context
  create_context_leaks all context port gid_index dev_index junk s h =
      let f : Frame W = record {
        ctx = none;
        pd = none;
        device_list = none;
        port_attr = junk;
        sys = s;
      } in
      elim (Option-cases (create_body v context port gid_index dev_index f).0) [
        | inl e ↦ ground arith
        | inr (c, e) ↦ ground (arith, opened-create_body all context port gid_index dev_index f e)
      ]
