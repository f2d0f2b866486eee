-- ===== src/Context/Accounts.antt =====
-- What `createContext` holds when it returns: lists, protection domains and device contexts, counted
-- in the log.
use nvm_rdma_examples.Prelude.{
  ℕ, suc, ◌+◌, ◌≤◌, true, false, List, [], ◌∷◌, Option, none, some, ◌≡◌, ◌⊎◌, refl, arith,
  if◌then◌else◌, is_some, Option-cases, inl, inr,
}
use nvm_rdma_examples.Prelude.Int.{ℤ}
use nvm_rdma_examples.Verbs.Types.{PortAttr}
use nvm_rdma_examples.Verbs.Interface.{Verbs}
use nvm_rdma_examples.Effects.{Call, Sys}
use nvm_rdma_examples.Ledger.{
  one_if, total, Exceeds, lists_got, lists_freed, pds_allocated, pds_deallocated, contexts_opened,
  contexts_closed,
}
use nvm_rdma_examples.QueuePair.{RdmaContext}
use nvm_rdma_examples.Context.{
  Frame, query_ports, scan_devices, open_chosen, fill_context, create_body, create_exit,
  create_context, destroy_context,
}

-- While the body runs from a log `cs`: what the locals name is what is held, and no context has been
-- closed.
record Held {W : Type 0} (cs : List Call) (f : Frame W) : Type 0 where
  lists : Exceeds lists_got lists_freed (one_if f.device_list) cs f.sys.calls
  pds : Exceeds pds_allocated pds_deallocated (one_if f.pd) cs f.sys.calls
  unclosed : total contexts_closed f.sys.calls ≡ total contexts_closed cs

-- Until the list is freed, there is a list and no protection domain.
record Scanning {W : Type 0} (cs : List Call) (f : Frame W) : Type 0 where
  held : Held cs f
  listed : is_some f.device_list ≡ true
  no_pd : f.pd ≡ none

-- A list that the code goes on with is neither null nor empty.
pub list_cases :
    (o : Option (List ℕ))
    → ((o ≡ none) ⊎ (o ≡ some [])) ⊎ ((d : ℕ) × (ds : List ℕ) × (o ≡ some (d ∷ ds)))
list_cases none = inl (inl refl)
list_cases (some []) = inl (inr refl)
list_cases (some (d ∷ ds)) = inr (d, ds, refl)

module _ {W : Type 0} (v : Verbs W) (cs : List Call) where
  query_ports-Scanning :
      (ctx : ℕ) (js : List ℕ) (f : Frame W) → Scanning cs f → Scanning cs (query_ports v ctx js f).1
  unfolding query_ports
  query_ports-Scanning ctx [] f h = h
  query_ports-Scanning ctx (j ∷ js) f h =
      let answer = (v.query_port ctx j f.sys.world).0 in
      let s1 : Sys W = record {
        world = (v.query_port ctx j f.sys.world).1;
        calls = Call.queried_port ctx j answer ∷ f.sys.calls;
      } in
      let f1 : Frame W = record f { sys = s1 } in
      elim (Option-cases answer) [
        | inl e ↦ ground (arith, query_ports-Scanning ctx js f1)
        | inr (a, e) ↦ ground (arith, query_ports-Scanning ctx js (record f1 { port_attr = a }))
      ]

  scan_devices-Scanning :
      (ds : List ℕ) (k dev_index : ℕ) (f : Frame W)
      → Scanning cs f
      → Scanning cs (scan_devices v ds k dev_index f).1
  unfolding scan_devices
  scan_devices-Scanning [] k dev_index f h = h
  scan_devices-Scanning (d ∷ ds) k dev_index f h =
      let ctx = (v.open_device d f.sys.world).0 in
      let s1 : Sys W = record {
        world = (v.open_device d f.sys.world).1;
        calls = Call.opened_device d ctx ∷ f.sys.calls;
      } in
      let f1 : Frame W = record f { sys = s1; ctx = ctx } in
      elim (Option-cases ctx) [
        | inl e ↦ ground (arith, scan_devices-Scanning ds (suc k) dev_index f1)
        | inr (c, e) ↦
            let (o, f2) = query_ports v c (0 ∷ 1 ∷ []) f1 in
            ground (
              arith,
              query_ports-Scanning c (0 ∷ 1 ∷ []) f1,
              scan_devices-Scanning ds (suc k) dev_index f2,
            )
      ]

  open_chosen-Scanning :
      (ds : List ℕ) (i : ℕ) (f : Frame W) → Scanning cs f → Scanning cs (open_chosen v ds i f).1
  unfolding open_chosen
  open_chosen-Scanning ds i f h = ground arith

  fill_context-Held :
      (context : RdmaContext) (port : ℕ) (gid_index : ℤ) (dev_index ctx : ℕ) (f : Frame W)
      → Scanning cs f
      → Held cs (fill_context v context port gid_index dev_index ctx f).1
  unfolding fill_context
  fill_context-Held context port gid_index dev_index ctx f h = ground arith

  -- After the body, the locals name what is held, and all that a context has if it succeeded.
  create_body-Held :
      (context : RdmaContext) (port : ℕ) (gid_index : ℤ) (dev_index : ℕ) (f : Frame W)
      → Held cs f
      → f.pd ≡ none
      → f.device_list ≡ none
      → Held cs (create_body v context port gid_index dev_index f).1
  unfolding create_body
  create_body-Held context port gid_index dev_index f h np nl =
      let got = (v.get_device_list f.sys.world).0 in
      let s1 : Sys W = record {
        world = (v.get_device_list f.sys.world).1;
        calls = Call.got_device_list got ∷ f.sys.calls;
      } in
      let f1 : Frame W = record f { sys = s1; device_list = got } in
      elim (list_cases got) [
        | inl e ↦ ground arith
        | inr (d, ds, e) ↦
            let (o2, f2) = scan_devices v (d ∷ ds) 0 dev_index f1 in
            let start : Scanning cs f1 = record {
              held = ground arith;
              listed = ground arith;
              no_pd = np;
            } in
            let scanned = scan_devices-Scanning (d ∷ ds) 0 dev_index f1 start in
            elim (Option-cases o2) [
              | inl e2 ↦ ground (arith, scanned)
              | inr (chosen, e2) ↦
                  let (o3, f3) = open_chosen v (d ∷ ds) chosen f2 in
                  let opened = open_chosen-Scanning (d ∷ ds) chosen f2 scanned in
                  elim (Option-cases o3) [
                    | inl e3 ↦ ground (arith, opened)
                    | inr (ctx, e3) ↦
                        ground
                          (arith, fill_context-Held context port gid_index chosen ctx f3 opened)
                  ]
            ]
      ]

module _ {W : Type 0} (v : Verbs W) where
  create_body_done :
      (context : RdmaContext) (port : ℕ) (gid_index : ℤ) (dev_index : ℕ) (f : Frame W)
      {c : RdmaContext}
      → (create_body v context port gid_index dev_index f).0 ≡ some c
      → ((create_body v context port gid_index dev_index f).1.device_list ≡ none)
        × (is_some (create_body v context port gid_index dev_index f).1.pd ≡ true)
  unfolding create_body fill_context
  create_body_done context port gid_index dev_index f h = ground arith

  -- On every path of `createContext` the device list is given back as often as it was got, and
  -- protection domains are too, but for one where it reports success; a success closes no device,
  -- and a failure at most one.
  pub create_context_accounts :
      (context : RdmaContext) (port : ℕ) (gid_index : ℤ) (dev_index : ℕ) (junk : PortAttr)
      (s : Sys W)
      → let ((context', ok), s') = create_context v context port gid_index dev_index junk s in
        Exceeds lists_got lists_freed 0 s.calls s'.calls
        × Exceeds pds_allocated pds_deallocated (if ok then 1 else 0) s.calls s'.calls
        × (total contexts_closed s'.calls ≤ total contexts_closed s.calls + (if ok then 0 else 1))
  unfolding create_context create_exit
  create_context_accounts context port gid_index dev_index junk s =
      let f : Frame W = record {
        ctx = none;
        pd = none;
        device_list = none;
        port_attr = junk;
        sys = s;
      } in
      let start : Held s.calls f = record {
        lists = omega arith;
        pds = omega arith;
        unclosed = refl;
      } in
      let (o, f') = create_body v context port gid_index dev_index f in
      let body = create_body-Held v s.calls context port gid_index dev_index f start refl refl in
      elim (Option-cases o) [
        | inl e ↦ ground (arith, body)
        | inr (c, e) ↦ ground (arith, body, create_body_done context port gid_index dev_index f e)
      ]

  -- Destroying gives back the protection domain and the device context that are there, one call each,
  -- and reports whether every call succeeded.
  destroy_context_accounts :
      (context : RdmaContext) (s : Sys W)
      → Exceeds pds_deallocated pds_allocated
          (one_if context.pd)
          s.calls
          (destroy_context v context s).1.calls
        × Exceeds contexts_closed contexts_opened
            (one_if context.ctx)
            s.calls
            (destroy_context v context s).1.calls
        × Exceeds lists_got lists_freed 0 s.calls (destroy_context v context s).1.calls
  unfolding destroy_context
  destroy_context_accounts context s = ground arith

  pub create_context_pd :
      (context : RdmaContext) (port : ℕ) (gid_index : ℤ) (dev_index : ℕ) (junk : PortAttr)
      (s : Sys W)
      → (create_context v context port gid_index dev_index junk s).0.1 ≡ true
      → one_if (create_context v context port gid_index dev_index junk s).0.0.pd ≡ 1
  unfolding create_context create_body fill_context
  create_context_pd context port gid_index dev_index junk s h = ground arith

  -- A context that could not be created is left as it was.
  pub create_context_fails :
      (context : RdmaContext) (port : ℕ) (gid_index : ℤ) (dev_index : ℕ) (junk : PortAttr)
      (s : Sys W)
      → (create_context v context port gid_index dev_index junk s).0.1 ≡ false
      → (create_context v context port gid_index dev_index junk s).0.0 ≡ context
  unfolding create_context
  create_context_fails context port gid_index dev_index junk s h = ground arith

  -- Where `createContext` succeeded, `destoryContext` of the context it made leaves every protection
  -- domain and every device list given back that was got since before the creation.
  pub destroy_context-create_context :
      (context : RdmaContext) (port : ℕ) (gid_index : ℤ) (dev_index : ℕ) (junk : PortAttr)
      (s : Sys W)
      → (create_context v context port gid_index dev_index junk s).0.1 ≡ true
      → let ((context', ok), s') = create_context v context port gid_index dev_index junk s in
        let s'' = (destroy_context v context' s').1 in
        Exceeds pds_allocated pds_deallocated 0 s.calls s''.calls
        × Exceeds lists_got lists_freed 0 s.calls s''.calls
  destroy_context-create_context context port gid_index dev_index junk s h =
      let ((context', ok), s') = create_context v context port gid_index dev_index junk s in
      ground (
        arith,
        create_context_accounts context port gid_index dev_index junk s,
        create_context_pd context port gid_index dev_index junk s h,
        destroy_context_accounts context' s',
      )
