-- ===== src/Effects.antt =====
-- The state that the code runs in: the world behind libibverbs and the sockets, and the log of the calls made, the
-- latest first. The log is no part of the program: theorems read it.
use nvm_rdma_examples.Prelude.{ℕ, List, ◌∷◌, Option}
use nvm_rdma_examples.Prelude.Int.{ℤ}
use nvm_rdma_examples.Text.Digits.{Bytes}
use nvm_rdma_examples.Verbs.Types.{
  QpState, AccessFlag, AttrMask, PortAttr, QpAttr, QpInitAttr, Qp, Mr, SendWr, RecvWr, Wc,
}

-- A call with its arguments and its result.
pub data Call : Type 0 where
  got_device_list : Option (List ℕ) → Call
  freed_device_list : Call
  opened_device : ℕ → Option ℕ → Call
  closed_device : ℕ → ℤ → Call
  queried_port : ℕ → ℕ → Option PortAttr → Call
  queried_gid : ℕ → ℕ → ℤ → Option Bytes → Call
  allocated_pd : ℕ → Option ℕ → Call
  deallocated_pd : ℕ → ℤ → Call
  created_cq : ℕ → ℕ → Option ℕ → Call
  destroyed_cq : ℕ → ℤ → Call
  created_qp : Option ℕ → QpInitAttr → Option Qp → Call
  destroyed_qp : Qp → ℤ → Call
  registered_mr : Option ℕ → ℕ → ℕ → List AccessFlag → Option Mr → Call
  deregistered_mr : Mr → ℤ → Call
  queried_qp : Qp → Option QpState → Call
  modified_qp : Qp → QpAttr → List AttrMask → ℤ → Call
  posted_send : Qp → SendWr → ℤ → Call
  posted_recv : Qp → RecvWr → ℤ → Call
  polled_cq : ℕ → ℤ → Option Wc → Call
  got_addresses : ℤ → List ℕ → Call
  opened_socket : ℕ → ℤ → Call
  connected : ℤ → ℕ → ℤ → Call
  bound : ℤ → ℕ → ℤ → Call
  listened : ℤ → Call
  accepted : ℤ → ℤ → Call
  received : ℤ → Option Bytes → Call
  sent : ℤ → Bytes → ℤ → Call
  closed : ℤ → Call
  freed_info : Call

pub record Sys (W : Type 0) : Type 0 where
  pub world : W
  pub calls : List Call

abbrev pub M : Type 0 → Type 0 → Type 0
M W A = Sys W → A × Sys W

module _ {W : Type 0} where
  abbrev pub pure : {A : Type 0} → A → M W A
  pure a s = (a, s)

  infixl 5 ◌>>=◌ ◌>>◌
  abbrev pub ◌>>=◌ : {A B : Type 0} → M W A → (A → M W B) → M W B
  ◌>>=◌ m f s = let (a, s') = m s in f a s'

  abbrev pub ◌>>◌ : {A B : Type 0} → M W A → M W B → M W B
  m >> k = m >>= λ _. k

  -- A call of the library, and its entry in the log.
  abbrev pub call : {A : Type 0} → (W → A × W) → (A → Call) → M W A
  call f entry s = let (a, w) = f s.world in (a, record { world = w; calls = entry a ∷ s.calls })

  -- A call that has no result, and one that leaves no entry.
  abbrev pub run : (W → W) → Call → M W (Unit {0})
  run f entry s = (tt, record { world = f s.world; calls = entry ∷ s.calls })

  abbrev pub quiet : {A : Type 0} → (W → A × W) → M W A
  quiet f s = let (a, w) = f s.world in (a, record s { world = w })
