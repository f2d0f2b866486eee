-- ===== src/Ledger.antt =====
-- Counting calls in a log: what has been acquired since an earlier log, and what has been given back.
use nvm_rdma_examples.Prelude.{ℕ, ◌+◌, List, [], ◌∷◌, Option, none, some, ◌≡◌}
use nvm_rdma_examples.Effects.{Call}

abbrev pub one_if {ℓ} : {A : Type ℓ} → Option A → ℕ
one_if none = 0
one_if (some a) = 1

abbrev pub total : (Call → ℕ) → List Call → ℕ
total f [] = 0
total f (c ∷ cs) = f c + total f cs

-- Since a log `cs`, the calls `got` exceed the calls `given` by `k`.
abbrev pub Exceeds : (Call → ℕ) → (Call → ℕ) → ℕ → List Call → List Call → Type 0
Exceeds got given k cs cs' = total got cs' + total given cs ≡ total given cs' + total got cs + k

abbrev pub last_call : List Call → Option Call
last_call [] = none
last_call (c ∷ cs) = some c

abbrev pub lists_got : Call → ℕ
lists_got (Call.got_device_list l) = one_if l
lists_got _ = 0

abbrev pub lists_freed : Call → ℕ
lists_freed Call.freed_device_list = 1
lists_freed _ = 0

abbrev pub pds_allocated : Call → ℕ
pds_allocated (Call.allocated_pd ctx pd) = one_if pd
pds_allocated _ = 0

abbrev pub pds_deallocated : Call → ℕ
pds_deallocated (Call.deallocated_pd pd res) = 1
pds_deallocated _ = 0

abbrev pub contexts_opened : Call → ℕ
contexts_opened (Call.opened_device d ctx) = one_if ctx
contexts_opened _ = 0

abbrev pub contexts_closed : Call → ℕ
contexts_closed (Call.closed_device ctx res) = 1
contexts_closed _ = 0

abbrev pub cqs_created : Call → ℕ
cqs_created (Call.created_cq ctx n cq) = one_if cq
cqs_created _ = 0

abbrev pub cqs_destroyed : Call → ℕ
cqs_destroyed (Call.destroyed_cq cq res) = 1
cqs_destroyed _ = 0

abbrev pub qps_created : Call → ℕ
qps_created (Call.created_qp pd attr qp) = one_if qp
qps_created _ = 0

abbrev pub qps_destroyed : Call → ℕ
qps_destroyed (Call.destroyed_qp qp res) = 1
qps_destroyed _ = 0

abbrev pub mrs_registered : Call → ℕ
mrs_registered (Call.registered_mr pd mm size flags mr) = one_if mr
mrs_registered _ = 0

abbrev pub mrs_deregistered : Call → ℕ
mrs_deregistered (Call.deregistered_mr mr res) = 1
mrs_deregistered _ = 0
