-- ===== src/Rlib/ReadWrite/Session.antt =====
-- What a run of the client that comes to its end has done.
use nvm_rdma_examples.Prelude.{ℕ, true, ◌≡◌, arith}
use nvm_rdma_examples.Rlib.Interface.{Rlib, IoCode, Tool, is_ok}
use nvm_rdma_examples.Rlib.ReadWrite.{open_nic}

ok_lem : (c : IoCode) → is_ok c ≡ true → c ≡ IoCode.ok
ok_lem c h = ground arith

module _ {W : Type 0} (r : Rlib W) where
  pub open_nic_quiet :
      (idx : ℕ) (t : Tool W)
      → let t' = (open_nic r idx t).1 in (t'.events ≡ t.events) × (t'.memory ≡ t.memory)
  unfolding open_nic
  open_nic_quiet idx t = (ground arith, ground arith)
