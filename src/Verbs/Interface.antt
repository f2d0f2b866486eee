-- ===== src/Verbs/Interface.antt =====
-- The calls of libibverbs over a type `W` of worlds: the state of the devices and of the library.
use nvm_rdma_examples.Prelude.{ℕ, List, Option}
use nvm_rdma_examples.Prelude.Int.{ℤ}
use nvm_rdma_examples.Text.Digits.{Bytes}
use nvm_rdma_examples.Verbs.Types.{
  QpState, AccessFlag, AttrMask, PortAttr, QpAttr, QpInitAttr, Qp, Mr, SendWr, RecvWr, Wc,
}

-- A call that returns a pointer has `none` for NULL. A call that fills a structure has `none` where
-- it fails. The others have their return code, which is 0 where they succeed.
pub record Verbs (W : Type 0) : Type 0 where
  pub get_device_list : W → Option (List ℕ) × W
  pub free_device_list : W → W
  pub open_device : ℕ → W → Option ℕ × W
  pub close_device : ℕ → W → ℤ × W
  pub query_port : ℕ → ℕ → W → Option PortAttr × W
  pub query_gid : ℕ → ℕ → ℤ → W → Option Bytes × W
  pub alloc_pd : ℕ → W → Option ℕ × W
  pub dealloc_pd : ℕ → W → ℤ × W
  pub create_cq : ℕ → ℕ → W → Option ℕ × W
  pub destroy_cq : ℕ → W → ℤ × W
  pub create_qp : Option ℕ → QpInitAttr → W → Option Qp × W
  pub destroy_qp : Qp → W → ℤ × W
  pub reg_mr : Option ℕ → ℕ → ℕ → List AccessFlag → W → Option Mr × W
  pub dereg_mr : Mr → W → ℤ × W
  pub query_qp : Qp → W → Option QpState × W
  pub modify_qp : Qp → QpAttr → List AttrMask → W → ℤ × W
  pub post_send : Qp → SendWr → W → ℤ × W
  pub post_recv : Qp → RecvWr → W → ℤ × W
  -- the completion is what the call stores through its last argument
  pub poll_cq : ℕ → W → (ℤ × Option Wc) × W
