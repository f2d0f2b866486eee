-- ===== src/Rlib/ReadWrite.antt =====
-- `main` of readwrite/client.cc and of readwrite/server.cc.
pub mod Session
use nvm_rdma_examples.Prelude.{
  ℕ, zero, suc, ◌+◌, Bool, not, List, [], ◌∷◌, Option, none, some, get_elem?, length,
}
use nvm_rdma_examples.Text.Digits.{Bytes}
use nvm_rdma_examples.Attempt.{Try, pure, ◌>>=◌, ◌>>◌, update}
use nvm_rdma_examples.Bench.Rounds.{store_bytes}
use nvm_rdma_examples.Rlib.Interface.{
  Rlib, Event, WriteReq, Tool, ask, note, tell, value, ensure, is_ok, is_timeout,
}

-- "client-qp", and the text that is written with its terminator.
abbrev pub client_qp : Bytes
client_qp = b'c' ∷ b'l' ∷ b'i' ∷ b'e' ∷ b'n' ∷ b't' ∷ b'-' ∷ b'q' ∷ b'p' ∷ []

abbrev pub written_text : Bytes
written_text = b'w' ∷ b'o' ∷ b's' ∷ b'h' ∷ b'i' ∷ b's' ∷ b'h' ∷ b'a' ∷ b'b' ∷ b'i' ∷ 0 ∷ []

-- `strlen("Zhang Rui")` bytes, without the terminator.
abbrev pub server_text : Bytes
server_text = b'Z' ∷ b'h' ∷ b'a' ∷ b'n' ∷ b'g' ∷ b' ' ∷ b'R' ∷ b'u' ∷ b'i' ∷ []

-- `reg_nic_name` and `reg_mem_name` of both programs, and the size of their memory.
abbrev pub reg_name : ℕ
reg_name = 73

abbrev pub mem_size : ℕ
mem_size = 1024

-- The request of the client.
unfoldable pub write_req : ℕ → WriteReq
write_req addr = record {
  len = length written_text;
  wr_id = 0;
  local_addr = addr;
  remote_addr = 1;
  imm_data = 0;
}

module _ {W : Type 0} (r : Rlib W) where
  -- The device at an index, and a queue pair on it.
  unfoldable pub open_nic : ℕ → Try (Tool W) ℕ
  open_nic idx = do
    names ← ask r.query_dev_names
    name ← value (get_elem? names idx)
    nic ← ask (r.create_nic name)
    value nic

  -- The queue pair at the server under a name; a server that is not ready in time ends the program. The
  -- result is the key.
  unfoldable pub connect_rc : Bytes → ℕ → ℕ → Try (Tool W) ℕ
  connect_rc name qp nic_name = do
    ready ← ask (r.wait_ready 1000000 2)
    ensure (not (is_timeout ready))
    made ← note (r.cc_rc name qp nic_name) (λ x. Event.asked_rc name nic_name x.0 x.1)
    ensure (is_ok made.0)
    pure made.1

  -- The local region, and the remote region under a name, bound to the queue pair.
  unfoldable pub bind_regions : ℕ → ℕ → Option ℕ → ℕ → ℕ → Try (Tool W) (Unit {0})
  bind_regions qp nic mem size mem_name = do
    created ← ask (r.create_mr mem size nic)
    local_mr ← value created
    fetched ← note (r.fetch_remote_mr mem_name) (λ x. Event.fetched mem_name x.0)
    ensure (is_ok fetched.0)
    tell (r.bind_remote_mr qp fetched.1)
    asked ← ask (r.get_reg_attr local_mr)
    attr ← value asked
    tell (r.bind_local_mr qp attr)

  -- The write, its completion, and the end of the queue pair at the server.
  unfoldable pub write_and_delete : ℕ → ℕ → ℕ → Try (Tool W) (Unit {0})
  write_and_delete qp addr key = do
    update (λ t. record t {
      memory = store_bytes addr written_text (store_bytes addr (b'x' ∷ []) t.memory);
    })
    sent ← note (r.send_normal qp (write_req addr)) (Event.wrote qp (write_req addr))
    ensure (is_ok sent)
    done ← note (r.wait_one_comp qp) Event.waited
    ensure (is_ok done)
    deleted ← note (r.delete_remote_rc client_qp key) (Event.deleted_rc client_qp key)
    ensure (is_ok deleted)

  -- `main` of the client: `none` where an assertion fails, an option is empty, an index is out of range
  -- or a null pointer is followed.
  unfoldable pub readwrite_client : Try (Tool W) (Unit {0})
  readwrite_client = do
    nic ← open_nic 1
    made ← ask (r.create_rc nic)
    qp ← value made
    key ← connect_rc client_qp qp reg_name
    local_mem ← ask (r.new_mem mem_size)
    bind_regions qp nic local_mem mem_size reg_name
    addr ← value local_mem
    write_and_delete qp addr key

  -- The device and the memory of a server under their names.
  unfoldable pub register_mem : ℕ → ℕ → Try (Tool W) (Unit {0})
  register_mem nic_name mem_name = do
    mem ← ask (r.new_mem mem_size)
    queried ← ask (r.query_nic nic_name)
    nic ← value queried
    registered ←
        note (r.create_then_reg mem_name mem mem_size nic)
          (Event.registered_mr mem_name mem mem_size)
    ensure registered

  unfoldable pub register_nic : ℕ → ℕ → Try (Tool W) (Unit {0})
  register_nic nic_name nic = do
    registered ← note (r.reg_nic nic_name nic) (Event.registered_nic nic_name)
    ensure registered

  -- `main` of the server up to the loop that does nothing but print for 20 seconds.
  unfoldable pub readwrite_server : Try (Tool W) (Unit {0})
  readwrite_server = do
    nic ← open_nic 1
    register_nic reg_name nic
    register_mem reg_name reg_name
    queried ← ask (r.query_mr reg_name)
    mr ← value queried
    asked ← ask (r.get_reg_attr mr)
    attr ← value asked
    update (λ t. record t { memory = store_bytes attr.buf server_text t.memory })
    tell r.start_daemon
