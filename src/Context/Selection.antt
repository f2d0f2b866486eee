-- ===== src/Context/Selection.antt =====
-- Which device `createContext` takes, where devices and ports answer the same at every time.
use nvm_rdma_examples.Prelude.{
  ℕ, suc, Bool, true, false, ◌||◌, List, [], ◌∷◌, Option, none, some, ◌≡◌, refl, arith,
  if◌then◌else◌, u8, get_elem?, is_some, Option-cases, inl, inr,
}
use nvm_rdma_examples.Prelude.Int.{ℤ}
use nvm_rdma_examples.Verbs.Types.{PortAttr}
use nvm_rdma_examples.Verbs.Interface.{Verbs}
use nvm_rdma_examples.Effects.{Call, Sys}
use nvm_rdma_examples.QueuePair.{RdmaContext}
use nvm_rdma_examples.Context.{
  Frame, is_active, query_ports, scan_devices, open_chosen, fill_context, create_body,
  create_context,
}
use nvm_rdma_examples.Context.Accounts.{list_cases}

-- The answers do not depend on the world.
pub record Steady {W : Type 0} (v : Verbs W) : Type 0 where
  pub devices : List ℕ
  pub ctx_of : ℕ → Option ℕ
  pub port_of : ℕ → ℕ → Option PortAttr
  pub list_steady : (w : W) → (v.get_device_list w).0 ≡ some devices
  pub open_steady : (d : ℕ) (w : W) → (v.open_device d w).0 ≡ ctx_of d
  pub query_steady : (c j : ℕ) (w : W) → (v.query_port c j w).0 ≡ port_of c j

abbrev pub is_active_port : Option PortAttr → Bool
is_active_port none = false
is_active_port (some attr) = is_active attr.port_state

module _ (ctx_of : ℕ → Option ℕ) (port_of : ℕ → ℕ → Option PortAttr) where
  any_active : ℕ → List ℕ → Bool
  any_active c [] = false
  any_active c (j ∷ js) = is_active_port (port_of c j) || any_active c js

  -- Whether a device opens and has an active port among 0 and 1.
  pub has_active : Option ℕ → Bool
  has_active none = false
  has_active (some c) = any_active c (0 ∷ 1 ∷ [])

  -- The index, in 8 bits, of the first such device from the number `k` on, or a default.
  pub first_active : List ℕ → ℕ → ℕ → ℕ
  first_active [] k i = i
  first_active (d ∷ ds) k i = if has_active (ctx_of d) then u8 k else first_active ds (suc k) i

module _ {W : Type 0} (v : Verbs W) (st : Steady v) where
  open st use {devices, ctx_of, port_of, list_steady, open_steady, query_steady}

  query_ports_found :
      (c : ℕ) (js : List ℕ) (f : Frame W)
      → (query_ports v c js f).0 ≡ some (any_active ctx_of port_of c js)
  unfolding query_ports any_active
  query_ports_found c [] f = refl
  query_ports_found c (j ∷ js) f =
      let answer = (v.query_port c j f.sys.world).0 in
      let s1 : Sys W = record {
        world = (v.query_port c j f.sys.world).1;
        calls = Call.queried_port c j answer ∷ f.sys.calls;
      } in
      let f1 : Frame W = record f { sys = s1 } in
      elim (Option-cases answer) [
        | inl e ↦ ground (arith, query_ports_found c js f1, query_steady c j f.sys.world)
        | inr (a, e) ↦ ground (
          arith,
          query_ports_found c js (record f1 { port_attr = a }),
          query_steady c j f.sys.world,
        )
      ]

  scan_devices_first :
      (ds : List ℕ) (k i : ℕ) (f : Frame W)
      → (scan_devices v ds k i f).0 ≡ some (first_active ctx_of port_of ds k i)
  unfolding scan_devices first_active has_active
  scan_devices_first [] k i f = refl
  scan_devices_first (d ∷ ds) k i f =
      let ctx = (v.open_device d f.sys.world).0 in
      let s1 : Sys W = record {
        world = (v.open_device d f.sys.world).1;
        calls = Call.opened_device d ctx ∷ f.sys.calls;
      } in
      let f1 : Frame W = record f { sys = s1; ctx = ctx } in
      elim (Option-cases ctx) [
        | inl e ↦ ground (arith, scan_devices_first ds (suc k) i f1, open_steady d f.sys.world)
        | inr (c, e) ↦
            let (o, f2) = query_ports v c (0 ∷ 1 ∷ []) f1 in
            ground (
              arith,
              query_ports_found c (0 ∷ 1 ∷ []) f1,
              scan_devices_first ds (suc k) i f2,
              open_steady d f.sys.world,
            )
      ]

  -- The context is that of the device at the index.
  open_chosen_ctx :
      (ds : List ℕ) (i : ℕ) (f : Frame W) {c : ℕ}
      → (open_chosen v ds i f).0 ≡ some c
      → (d : ℕ) × (get_elem? ds i ≡ some d)
        × (ctx_of d ≡ some c)
        × ((open_chosen v ds i f).1.ctx ≡ some c)
  unfolding open_chosen
  open_chosen_ctx ds i f h = elim (Option-cases (get_elem? ds i)) [
    | inl e ↦ absurd (ground arith)
    | inr (d, e) ↦
        (d, e, ground (arith, open_steady d f.sys.world), ground (arith, open_steady d f.sys.world))
  ]

  fill_context_fields :
      (context : RdmaContext) (port : ℕ) (gid_index : ℤ) (i ctx : ℕ) (f : Frame W) {c : RdmaContext}
      → (fill_context v context port gid_index i ctx f).0 ≡ some c
      → (c.dev_index ≡ i)
        × (c.ctx ≡ f.ctx)
        × (c.lid ≡ f.port_attr.lid)
        × (c.port ≡ port)
        × (is_some c.pd ≡ true)
  unfolding fill_context
  fill_context_fields context port gid_index i ctx f h = ground arith

  create_body_selects :
      (context : RdmaContext) (port : ℕ) (gid_index : ℤ) (dev_index : ℕ) (f : Frame W)
      {c : RdmaContext}
      → (create_body v context port gid_index dev_index f).0 ≡ some c
      → (d : ℕ) × (c.dev_index ≡ first_active ctx_of port_of devices 0 dev_index)
        × (get_elem? devices c.dev_index ≡ some d)
        × (ctx_of d ≡ c.ctx)
        × (is_some c.pd ≡ true)
  unfolding create_body
  create_body_selects context port gid_index dev_index f {c} h =
      let got = (v.get_device_list f.sys.world).0 in
      let s1 : Sys W = record {
        world = (v.get_device_list f.sys.world).1;
        calls = Call.got_device_list got ∷ f.sys.calls;
      } in
      let f1 : Frame W = record f { sys = s1; device_list = got } in
      let g = list_steady f.sys.world in
      elim (list_cases got) [
        | inl e ↦ absurd (ground arith)
        | inr (d, ds, e) ↦
            let (o2, f2) = scan_devices v (d ∷ ds) 0 dev_index f1 in
            let chosen = first_active ctx_of port_of (d ∷ ds) 0 dev_index in
            let e2 = scan_devices_first (d ∷ ds) 0 dev_index f1 in
            let (o3, f3) = open_chosen v (d ∷ ds) chosen f2 in
            elim (Option-cases o3) [
              | inl e3 ↦ absurd (ground (arith, e2))
              | inr (ctx, e3) ↦
                  let (dev, at, opens, kept) = open_chosen_ctx (d ∷ ds) chosen f2 e3 in
                  let filled = fill_context_fields context port gid_index chosen ctx f3 {c = c} in
                  (
                    dev,
                    ground (arith, e2, filled),
                    ground (arith, e2, filled, at),
                    ground (arith, e2, filled, opens, kept),
                    ground (arith, e2, filled),
                  )
            ]
      ]

  -- Where the list, the devices and the ports answer the same in every world, a context that was
  -- created has the index, cut to 8 bits, of the first device that opens and has an active port
  -- among 0 and 1, or the index of the argument where there is none; it holds the handle of the
  -- device at that index, and a protection domain.
  pub create_context_selects :
      (context : RdmaContext) (port : ℕ) (gid_index : ℤ) (dev_index : ℕ) (junk : PortAttr)
      (s : Sys W)
      → (create_context v context port gid_index dev_index junk s).0.1 ≡ true
      → let context' = (create_context v context port gid_index dev_index junk s).0.0 in
        (d : ℕ) × (context'.dev_index ≡ first_active ctx_of port_of devices 0 dev_index)
        × (get_elem? devices context'.dev_index ≡ some d)
        × (ctx_of d ≡ context'.ctx)
        × (is_some context'.pd ≡ true)
  unfolding create_context
  create_context_selects context port gid_index dev_index junk s h =
      let f : Frame W = record {
        ctx = none;
        pd = none;
        device_list = none;
        port_attr = junk;
        sys = s;
      } in
      elim (Option-cases (create_body v context port gid_index dev_index f).0) [
        | inl e ↦ absurd (ground arith)
        | inr (c, e) ↦
            let (d, a, b, x, y) = create_body_selects context port gid_index dev_index f e in
            (d, ground (arith, a), ground (arith, b), ground (arith, x), ground (arith, y))
      ]
