-- ===== src/Rlib/Nvm.antt =====
-- `main` of nvm_write/server.cc, and what a thread of nvm_write/client.cc does.
use nvm_rdma_examples.Prelude.{ℕ, ◌*◌, some}
use nvm_rdma_examples.Text.Digits.{Bytes}
use nvm_rdma_examples.Prelude.Int.{pos}
use nvm_rdma_examples.Attempt.{Try, ◌>>=◌, ◌>>◌}
use nvm_rdma_examples.Os.{Os, bind_to_core}
use nvm_rdma_examples.Region.{Mapping, nvm_create, dram_create}
use nvm_rdma_examples.Rlib.Interface.{Rlib, Tool, ask, tell, value}
use nvm_rdma_examples.Rlib.ReadWrite.{
  reg_name, open_nic, connect_rc, bind_regions, register_nic, register_mem,
}

-- `nvm_sz` in bytes, and the size of the region of a thread.
abbrev pub nvm_bytes : ℕ
nvm_bytes = 2 * (1024 * 1024 * 1024)

abbrev pub dram_bytes : ℕ
dram_bytes = 2 * 1024 * 1024

module _ {W : Type 0} (r : Rlib W) (m : Mapping W) where
  -- `main` of the server up to its endless loop. The memory over the mapped region, `rmem`, is made and
  -- not used: what is registered is a new memory of 1024 bytes.
  unfoldable pub nvm_server : Try (Tool W) (Unit {0})
  nvm_server = do
    nic ← open_nic r 1
    register_nic r reg_name nic
    created ← ask (nvm_create m nvm_bytes)
    nvm_region ← value created
    register_mem r reg_name reg_name
    tell r.start_daemon

module _ {W : Type 0} (r : Rlib W) (m : Mapping W) (os : Os W) where
  -- The function of a thread: the name of its queue pair is a parameter, since its format has a
  -- conversion that is undefined. `none` stands for what ends the program.
  unfoldable pub nvm_client_thread : Bytes → ℕ → Try (Tool W) (Unit {0})
  nvm_client_thread qp_name thread_id = do
    made ← ask (dram_create m dram_bytes)
    dram_region ← value made
    bound ← ask (bind_to_core os (pos thread_id))
    value bound
    nic ← open_nic r 1
    created ← ask (r.create_rc nic)
    qp ← value created
    key ← connect_rc r qp_name qp 1
    bind_regions r qp nic (some dram_region.addr) dram_region.sz 1
