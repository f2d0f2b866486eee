-- ===== src/Rlib/Interface.antt =====
-- The calls of rlib over a type of worlds, and the state of the programs that make them.
use nvm_rdma_examples.Prelude.{ℕ, Bool, true, false, List, ◌∷◌, Option, none, some}
use nvm_rdma_examples.Text.Digits.{Bytes}
use nvm_rdma_examples.Attempt.{Try}

-- `IOCode::Code`.
pub data IoCode : Type 0 where
  ok err timeout near_ok not_ready : IoCode

abbrev pub is_ok : IoCode → Bool
is_ok IoCode.ok = true
is_ok _ = false

abbrev pub is_timeout : IoCode → Bool
is_timeout IoCode.timeout = true
is_timeout _ = false

-- The attributes of a registered region.
pub record RegAttr : Type 0 where
  pub buf : ℕ
  pub size : ℕ
  pub key : ℕ

-- A signaled one-sided write.
pub record WriteReq : Type 0 where
  pub len : ℕ
  pub wr_id : ℕ
  pub local_addr : ℕ
  pub remote_addr : ℕ
  pub imm_data : ℕ

-- Devices, queue pairs and regions are numbers. A result that is used through `value()` is `none` where
-- it has none, and a pointer is `none` for null.
pub record Rlib (W : Type 0) : Type 0 where
  pub query_dev_names : W → List ℕ × W
  pub create_nic : ℕ → W → Option ℕ × W
  pub create_rc : ℕ → W → Option ℕ × W
  -- the time in microseconds, and the number of tries
  pub wait_ready : ℕ → ℕ → W → IoCode × W
  -- the name, the queue pair, the name of the device at the server; the code and the key
  pub cc_rc : Bytes → ℕ → ℕ → W → (IoCode × ℕ) × W
  pub fetch_remote_mr : ℕ → W → (IoCode × RegAttr) × W
  pub delete_remote_rc : Bytes → ℕ → W → IoCode × W
  -- the memory of a `new RMem` of a size, and a region over memory of a size, on a device
  pub new_mem : ℕ → W → Option ℕ × W
  pub create_mr : Option ℕ → ℕ → ℕ → W → Option ℕ × W
  pub get_reg_attr : ℕ → W → Option RegAttr × W
  pub bind_remote_mr : ℕ → RegAttr → W → W
  pub bind_local_mr : ℕ → RegAttr → W → W
  pub send_normal : ℕ → WriteReq → W → IoCode × W
  pub wait_one_comp : ℕ → W → IoCode × W
  -- the control of a server: devices and regions by their names
  pub reg_nic : ℕ → ℕ → W → Bool × W
  pub query_nic : ℕ → W → Option ℕ × W
  pub create_then_reg : ℕ → Option ℕ → ℕ → ℕ → W → Bool × W
  pub query_mr : ℕ → W → Option ℕ × W
  pub start_daemon : W → W

-- The calls that theorems read, with their arguments and results, the latest first.
pub data Event : Type 0 where
  asked_rc : Bytes → ℕ → IoCode → ℕ → Event
  fetched : ℕ → IoCode → Event
  wrote : ℕ → WriteReq → IoCode → Event
  waited : IoCode → Event
  deleted_rc : Bytes → ℕ → IoCode → Event
  registered_nic : ℕ → Bool → Event
  registered_mr : ℕ → Option ℕ → ℕ → Bool → Event

pub record Tool (W : Type 0) : Type 0 where
  pub world : W
  pub memory : ℕ → ℕ
  pub events : List Event

module _ {W : Type 0} where
  abbrev pub ask : {A : Type 0} → (W → A × W) → Try (Tool W) A
  ask f t = let (a, w) = f t.world in (some a, record t { world = w })

  -- A call whose entry is kept.
  abbrev pub note : {A : Type 0} → (W → A × W) → (A → Event) → Try (Tool W) A
  note f entry t =
      let (a, w) = f t.world in (some a, record t { world = w; events = entry a ∷ t.events })

  abbrev pub tell : (W → W) → Try (Tool W) (Unit {0})
  tell f t = (some tt, record t { world = f t.world })

  -- `value()` of an empty option, and `at` beyond the end, throw; a null pointer is followed.
  abbrev pub value : {A : Type 0} → Option A → Try (Tool W) A
  value none t = (none, t)
  value (some a) t = (some a, t)

  -- `RDMA_ASSERT` ends the program where it fails.
  abbrev pub ensure : Bool → Try (Tool W) (Unit {0})
  ensure false t = (none, t)
  ensure true t = (some tt, t)
