-- ===== src/Context.antt =====
-- The device context, of nvm_ibverbs/src/rdma_common.cc: `createContext` and `destoryContext`.
pub mod Accounts
pub mod Selection
pub mod Leak
use nvm_rdma_examples.Prelude.{
  ℕ, zero, suc, ◌+◌, Bool, true, false, not, List, [], ◌∷◌, Option, none, some, if◌then◌else◌, u8,
  ltb, leb, length, get_elem?, ◌&&◌,
}
use nvm_rdma_examples.Prelude.Int.{ℤ, is_zero}
use nvm_rdma_examples.Text.Digits.{Bytes}
use nvm_rdma_examples.Verbs.Types.{PortState, active, inactive, PortAttr}
use nvm_rdma_examples.Verbs.Interface.{Verbs}
use nvm_rdma_examples.Attempt.{Try, pure, goto_exit, ◌>>=◌, ◌>>◌}
use nvm_rdma_examples.Effects.{Call, Sys, M, call, run}
use nvm_rdma_examples.QueuePair.{RdmaContext}

-- The locals of `createContext` that its exit looks at, and the state that it runs in.
pub record Frame (W : Type 0) : Type 0 where
  pub ctx : Option ℕ
  pub pd : Option ℕ
  pub device_list : Option (List ℕ)
  pub port_attr : PortAttr
  pub sys : Sys W

abbrev pub is_active : PortState → Bool
is_active active = true
is_active inactive = false

module _ {W : Type 0} where
  abbrev pub lift : {A : Type 0} → M W A → Try (Frame W) A
  lift m f = let (a, s) = m f.sys in (some a, record f { sys = s })

  abbrev pub set_ctx : Option ℕ → Try (Frame W) (Unit {0})
  set_ctx c f = (some tt, record f { ctx = c })

  abbrev pub set_pd : Option ℕ → Try (Frame W) (Unit {0})
  set_pd p f = (some tt, record f { pd = p })

  abbrev pub set_device_list : Option (List ℕ) → Try (Frame W) (Unit {0})
  set_device_list l f = (some tt, record f { device_list = l })

  abbrev pub set_port_attr : PortAttr → Try (Frame W) (Unit {0})
  set_port_attr a f = (some tt, record f { port_attr = a })

module _ {W : Type 0} (v : Verbs W) where
  -- The inner loop: whether one of the ports is active. Each port that answers overwrites
  -- `portAttr`.
  unfoldable pub query_ports : ℕ → List ℕ → Try (Frame W) Bool
  query_ports ctx [] = pure false
  query_ports ctx (j ∷ js) = do
    answer ← lift (call (v.query_port ctx j) (Call.queried_port ctx j))
    (elim answer [
      | none ↦ query_ports ctx js
      | some attr ↦ (do
        set_port_attr attr
        (if is_active attr.port_state then pure true else query_ports ctx js))
    ])

  -- The outer loop from the device number `k` on; the result is `devIndex`, which has 8 bits.
  unfoldable pub scan_devices : List ℕ → ℕ → ℕ → Try (Frame W) ℕ
  scan_devices [] k dev_index = pure dev_index
  scan_devices (d ∷ ds) k dev_index = do
    ctx ← lift (call (v.open_device d) (Call.opened_device d))
    set_ctx ctx
    let next = scan_devices ds (suc k) dev_index
    (elim ctx [
      | none ↦ next
      | some c ↦ (do rc ← query_ports c (0 ∷ 1 ∷ []); (if rc then pure (u8 k) else next))
    ])

  -- The device chosen, opened; `goto` where there is none or it does not open.
  unfoldable pub open_chosen : List ℕ → ℕ → Try (Frame W) ℕ
  open_chosen devices dev_index = elim (get_elem? devices dev_index) [
    | none ↦ goto_exit
    | some dev ↦ (do
      ctx ← lift (call (v.open_device dev) (Call.opened_device dev))
      set_ctx ctx
      (elim ctx [ none ↦ goto_exit | some c ↦ pure c ]))
  ]

  -- The list is freed, then the protection domain and the gid are fetched.
  unfoldable pub fill_context : RdmaContext → ℕ → ℤ → ℕ → ℕ → Try (Frame W) RdmaContext
  fill_context context port gid_index dev_index ctx = do
    lift (run v.free_device_list Call.freed_device_list)
    set_device_list none
    pd ← lift (call (v.alloc_pd ctx) (Call.allocated_pd ctx))
    set_pd pd
    (elim pd [
      | none ↦ goto_exit
      | some p ↦ (do
        gid ← lift (call (v.query_gid ctx port gid_index) (Call.queried_gid ctx port gid_index))
        (elim gid [
          | none ↦ goto_exit
          | some g ↦ (λ f. (
            some (record {
              dev_index = dev_index;
              port = port;
              gid_index = gid_index;
              ctx = f.ctx;
              pd = f.pd;
              lid = f.port_attr.lid;
              gid = g;
            }),
            f,
          ))
        ]))
    ])

  -- The body up to `return true`.
  unfoldable pub create_body : RdmaContext → ℕ → ℤ → ℕ → Try (Frame W) RdmaContext
  create_body context port gid_index dev_index = do
    device_list ← lift (call v.get_device_list Call.got_device_list)
    set_device_list device_list
    (elim device_list [
      | none ↦ goto_exit
      | some [] ↦ goto_exit
      | some (d ∷ ds) ↦ (do
        chosen ← scan_devices (d ∷ ds) 0 dev_index
        ctx ← open_chosen (d ∷ ds) chosen
        fill_context context port gid_index chosen ctx)
    ])

  -- The three tests of the exit; the results of the calls are not looked at.
  unfoldable pub exit_pd : Option ℕ → Sys W → Sys W
  exit_pd none s = s
  exit_pd (some pd) s = (call (v.dealloc_pd pd) (Call.deallocated_pd pd) s).1

  unfoldable pub exit_ctx : Option ℕ → Sys W → Sys W
  exit_ctx none s = s
  exit_ctx (some ctx) s = (call (v.close_device ctx) (Call.closed_device ctx) s).1

  unfoldable pub exit_list : Option (List ℕ) → Sys W → Sys W
  exit_list none s = s
  exit_list (some l) s = (run v.free_device_list Call.freed_device_list s).1

  unfoldable pub create_exit : Frame W → Sys W
  unfolding exit_pd exit_ctx exit_list
  create_exit f = exit_list f.device_list (exit_ctx f.ctx (exit_pd f.pd f.sys))

  -- The context that `*context` is afterwards, and the result; `junk` is the uninitialised `portAttr`.
  unfoldable pub create_context : RdmaContext → ℕ → ℤ → ℕ → PortAttr → M W (RdmaContext × Bool)
  create_context context port gid_index dev_index junk s =
      let (done, f) =
        create_body context port gid_index dev_index
          (record { ctx = none; pd = none; device_list = none; port_attr = junk; sys = s }) in
      elim done [
        | none ↦ ((context, false), create_exit f)
        | some context' ↦ ((context', true), f.sys)
      ]

  -- Each resource is given back if it is there, and the result is whether none of them objected.
  unfoldable pub destroy_pd : Option ℕ → M W Bool
  destroy_pd none s = (true, s)
  destroy_pd (some pd) s =
      let (ans, s') = call (v.dealloc_pd pd) (Call.deallocated_pd pd) s in (is_zero ans, s')

  unfoldable pub destroy_ctx : Option ℕ → M W Bool
  destroy_ctx none s = (true, s)
  destroy_ctx (some ctx) s =
      let (ans, s') = call (v.close_device ctx) (Call.closed_device ctx) s in (is_zero ans, s')

  unfoldable pub destroy_context : RdmaContext → M W Bool
  unfolding destroy_pd destroy_ctx
  destroy_context context s =
      let (pd_freed, s1) = destroy_pd context.pd s in
      let (ctx_closed, s2) = destroy_ctx context.ctx s1 in (pd_freed && ctx_closed, s2)
