-- ===== src/Transport/Create.antt =====
-- The constructor of `RDMAtransport`, of rdma_transport/src/RDMAtransport.cc.
pub mod Exit
use nvm_rdma_examples.Prelude.{
  ℕ, zero, suc, Bool, true, false, List, [], ◌∷◌, Option, none, some, if◌then◌else◌, get_elem?, u8,
}
use nvm_rdma_examples.Prelude.Int.{ℤ, pos, minus_one, eq_int}
use nvm_rdma_examples.Verbs.Types.{PortAttr}
use nvm_rdma_examples.Verbs.Interface.{Verbs}
use nvm_rdma_examples.Effects.{Call, Sys, M, call, run}
use nvm_rdma_examples.Attempt.{Try, pure, goto_exit, ◌>>=◌, ◌>>◌, update}
use nvm_rdma_examples.Context.{is_active, exit_pd, exit_ctx, exit_list}
use nvm_rdma_examples.Transport.{RdmaTransport}

-- The object under construction, the locals that the exit looks at, and the state.
pub record Frame (W : Type 0) : Type 0 where
  pub this : RdmaTransport
  pub device_list : Option (List ℕ)
  pub port_attr : PortAttr
  pub sys : Sys W

module _ {W : Type 0} where
  abbrev pub lift : {A : Type 0} → M W A → Try (Frame W) A
  lift m f = let (a, s) = m f.sys in (some a, record f { sys = s })

  abbrev pub set_this : (RdmaTransport → RdmaTransport) → Try (Frame W) (Unit {0})
  set_this g = update (λ f. record f { this = g f.this })

  abbrev pub set_ctx : Option ℕ → Try (Frame W) (Unit {0})
  set_ctx c = set_this (λ t. record t { ctx = c })

  abbrev pub read_this : Try (Frame W) RdmaTransport
  read_this f = (some f.this, f)

module _ {W : Type 0} (v : Verbs W) where
  -- The inner loop of the scan; the port found goes to the member `port`.
  unfoldable pub query_ports : ℕ → ℕ → List ℕ → Try (Frame W) Bool
  query_ports ctx k [] = pure false
  query_ports ctx k (j ∷ js) = do
    answer ← lift (call (v.query_port ctx j) (Call.queried_port ctx j))
    (elim answer [
      | none ↦ query_ports ctx k js
      | some attr ↦ (do
        update (λ f. record f { port_attr = attr })
        (if is_active attr.port_state
            then (do set_this (λ t. record t { dev_index = u8 k; port = j }); pure true)
            else query_ports ctx k js))
    ])

  unfoldable pub scan_devices : List ℕ → ℕ → Try (Frame W) (Unit {0})
  scan_devices [] k = pure tt
  scan_devices (d ∷ ds) k = do
    ctx ← lift (call (v.open_device d) (Call.opened_device d))
    set_ctx ctx
    let next = scan_devices ds (suc k)
    (elim ctx [
      | none ↦ next
      | some c ↦ (do rc ← query_ports c k (0 ∷ 1 ∷ []); (if rc then pure tt else next))
    ])

  -- `dev_idx == -1` compares a `uint8_t`, promoted to `int`, with -1.
  unfoldable pub choose_device : List ℕ → ℕ → Try (Frame W) (Unit {0})
  choose_device devices dev_idx =
      if eq_int minus_one dev_idx
      then scan_devices devices 0
      else set_this (λ t. record t { dev_index = dev_idx })

  unfoldable pub open_chosen : List ℕ → Try (Frame W) ℕ
  open_chosen devices = do
    this ← read_this
    (elim (get_elem? devices this.dev_index) [
      | none ↦ goto_exit
      | some dev ↦ (do
        ctx ← lift (call (v.open_device dev) (Call.opened_device dev))
        set_ctx ctx
        (elim ctx [ none ↦ goto_exit | some c ↦ pure c ]))
    ])

  unfoldable pub fill_members : ℕ → ℕ → Try (Frame W) (Unit {0})
  fill_members gid_idx ctx = do
    lift (run v.free_device_list Call.freed_device_list)
    update (λ f. record f { device_list = none })
    pd ← lift (call (v.alloc_pd ctx) (Call.allocated_pd ctx))
    set_this (λ t. record t { pd = pd })
    (elim pd [
      | none ↦ goto_exit
      | some p ↦ (do
        this ← read_this
        gid ← lift (
            call (v.query_gid ctx this.port (pos gid_idx))
              (Call.queried_gid ctx this.port (pos gid_idx)))
        (elim gid [
          | none ↦ goto_exit
          | some g ↦ update (λ f. record f {
            this = record (f.this) { gid = g; gid_index = pos gid_idx; lid = f.port_attr.lid };
          })
        ]))
    ])

  unfoldable pub create_body : ℕ → ℕ → Try (Frame W) (Unit {0})
  create_body gid_idx dev_idx = do
    device_list ← lift (call v.get_device_list Call.got_device_list)
    update (λ f. record f { device_list = device_list })
    (elim device_list [
      | none ↦ goto_exit
      | some [] ↦ goto_exit
      | some (d ∷ ds) ↦ (do
        choose_device (d ∷ ds) dev_idx
        ctx ← open_chosen (d ∷ ds)
        fill_members gid_idx ctx)
    ])

  -- There is no return in front of the label: the exit runs on every path, and clears the members.
  unfoldable pub create_exit : Frame W → M W RdmaTransport
  create_exit f s = (
    record (f.this) { pd = none; ctx = none },
    exit_list v f.device_list (exit_ctx v f.this.ctx (exit_pd v f.this.pd s)),
  )

  -- `this` has the members as they are found, and `junk` is the uninitialised `portAttr`.
  unfoldable pub create : ℕ → ℕ → PortAttr → RdmaTransport → M W RdmaTransport
  create gid_idx dev_idx junk this s =
      let (done, f) =
        create_body gid_idx dev_idx
          (record { this = this; device_list = none; port_attr = junk; sys = s }) in
      create_exit f f.sys
