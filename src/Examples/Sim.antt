-- ===== src/Examples/Sim.antt =====
-- Concrete functions for the libraries that the code calls.
use nvm_rdma_examples.Prelude.{
  ℕ, zero, suc, ◌+◌, Bool, false, ◌&&◌, List, [], ◌∷◌, Option, none, some, if◌then◌else◌, ◌==◌, ◌≡◌,
  refl, arith, length,
}
use nvm_rdma_examples.Prelude.Int.{ℤ, pos, minus_one}
use nvm_rdma_examples.Text.Digits.{Bytes}
use nvm_rdma_examples.Verbs.Types.{
  QpState, reset, rc, active, inactive, PortAttr, Qp, Mr, Wc, success, zero_gid,
}
use nvm_rdma_examples.Verbs.Interface.{Verbs}
use nvm_rdma_examples.Sockets.{Sockets}
use nvm_rdma_examples.Os.{Os}
use nvm_rdma_examples.Effects.{Sys}
use nvm_rdma_examples.QueuePair.{RdmaContext, ConnectInfo}
use nvm_rdma_examples.QueuePair.Transitions.{HasStates, Accepts}
use nvm_rdma_examples.Context.Selection.{Steady}
use nvm_rdma_examples.Exchange.{Locals}
use nvm_rdma_examples.Gid.{IsGid}
use nvm_rdma_examples.Exchange.Agreement.{IsSized}
use nvm_rdma_examples.Message.{Fits}

-- One queue pair, the completions to come, the messages to come, and whether the peer refuses.
pub record Nic : Type 0 where
  pub state : QpState
  pub completions : List (ℤ × Option Wc)
  pub inbox : List Bytes
  pub refuses : Bool

abbrev next_poll : List (ℤ × Option Wc) → ℤ × Option Wc
next_poll [] = (pos 0, none)
next_poll (c ∷ cs) = c

abbrev later_polls : List (ℤ × Option Wc) → List (ℤ × Option Wc)
later_polls [] = []
later_polls (c ∷ cs) = cs

abbrev next_text : List Bytes → Option Bytes
next_text [] = none
next_text (b ∷ bs) = some b

abbrev later_texts : List Bytes → List Bytes
later_texts [] = []
later_texts (b ∷ bs) = bs

abbrev pub sim_port : ℕ → ℕ → Option PortAttr
sim_port c j =
    if c == 108 && j == 1
    then some (record { port_state = active; lid = 5 })
    else some (record { port_state = inactive; lid = 4 })

abbrev pub sim_qp : Qp
sim_qp = record { handle = 1; qp_num = 77; qp_type = rc }

abbrev pub sim_mr : Mr
sim_mr = record { addr = 4096; lkey = 11; rkey = 12 }

-- Two devices, 7 and 8, of which the second has an active port.
abbrev pub sim : Verbs Nic
sim = record {
  get_device_list = λ w. (some (7 ∷ 8 ∷ []), w);
  free_device_list = λ w. w;
  open_device = λ d w. (some (d + 100), w);
  close_device = λ c w. (pos 0, w);
  query_port = λ c j w. (sim_port c j, w);
  query_gid = λ c p i w. (some zero_gid, w);
  alloc_pd = λ c w. (some 55, w);
  dealloc_pd = λ p w. (pos 0, w);
  create_cq = λ c n w. (some 66, w);
  destroy_cq = λ c w. (pos 0, w);
  create_qp = λ p a w. (some sim_qp, w);
  destroy_qp = λ q w. (pos 0, w);
  reg_mr = λ p a s f w. (some sim_mr, w);
  dereg_mr = λ m w. (pos 0, w);
  query_qp = λ q w. (some w.state, w);
  modify_qp = λ q a m w. (pos 0, record w { state = a.qp_state });
  post_send = λ q r w. (pos 0, w);
  post_recv = λ q r w. (pos 0, w);
  poll_cq = λ c w. (next_poll w.completions, record w { completions = later_polls w.completions });
}

abbrev pub net : Sockets Nic
net = record {
  format_service = λ p w. (pos 5, w);
  getaddrinfo = λ w. ((pos 0, 1 ∷ 2 ∷ []), w);
  socket = λ a w. (pos 3, w);
  connect = λ f a w. (if w.refuses then minus_one else pos 0, w);
  bind = λ f a w. (if w.refuses then minus_one else pos 0, w);
  listen = λ f w. w;
  accept = λ f w. (pos 4, w);
  read = λ f n w. (next_text w.inbox, record w { inbox = later_texts w.inbox });
  write = λ f b w. (pos (length b), w);
  close = λ f w. w;
}

abbrev pub os : Os Nic
os = record {
  num_cores = λ w. (pos 48, w);
  set_affinity = λ c w. (pos 0, w);
  geteuid = λ w. (0, w);
  open_file = λ w. (pos 9, w);
  mmap = λ f n w. (some 4096, w);
}

abbrev pub done : Wc
done = record { wr_id = 0; status = success }

abbrev pub idle_nic : Nic
idle_nic = record { state = reset; completions = []; inbox = []; refuses = false }

abbrev pub start : Sys Nic
start = record { world = idle_nic; calls = [] }

abbrev pub at : Nic → Sys Nic
at w = record { world = w; calls = [] }

pub state_reported : {a b : QpState} → some a ≡ some b → b ≡ a
state_reported e = cc

abbrev pub sim_states : HasStates sim
sim_states = record {
  state_of = λ h w. w.state;
  query_reports = λ q w e. state_reported e;
  query_keeps = λ q w h. refl;
  modify_moves = λ q a m w e. refl;
}

abbrev pub sim_accepts : Accepts sim sim_states
sim_accepts = record { query_answers = λ q w. refl; modify_accepts = λ q a m w. refl }

abbrev pub sim_steady : Steady sim
sim_steady = record {
  devices = 7 ∷ 8 ∷ [];
  ctx_of = λ d. some (d + 100);
  port_of = sim_port;
  list_steady = λ w. refl;
  open_steady = λ d w. refl;
  query_steady = λ c j w. refl;
}

abbrev pub blank_context : RdmaContext
blank_context = record {
  dev_index = 0;
  port = 0;
  gid_index = pos 0;
  ctx = none;
  pd = none;
  lid = 0;
  gid = zero_gid;
}

abbrev pub context : RdmaContext
context = record blank_context { port = 1; ctx = some 108; pd = some 55; lid = 5 }

abbrev pub junk : PortAttr
junk = record { port_state = inactive; lid = 999 }

abbrev pub roce_gid : Bytes
roce_gid = 254 ∷ 128 ∷ 0 ∷ 0 ∷ 0 ∷ 0 ∷ 0 ∷ 0 ∷ 2 ∷ 17 ∷ 34 ∷ 255 ∷ 254 ∷ 51 ∷ 68 ∷ 85 ∷ []

pub roce_gid-IsGid : IsGid roce_gid
roce_gid-IsGid = record { sixteen = refl; bytes = ground arith }

abbrev pub client_info : ConnectInfo
client_info = record {
  qpn = 77;
  psn = 3185;
  lid = 5;
  gid = roce_gid;
  gid_index = 3;
  r_key = 12;
  data_vaddr = 140737488355328;
  mr = some sim_mr;
}

abbrev pub server_info : ConnectInfo
server_info = record client_info { qpn = 78; lid = 6; r_key = 4294967295; data_vaddr = 4096 }

abbrev pub blank_info : ConnectInfo
blank_info = record {
  qpn = 0;
  psn = 0;
  lid = 0;
  gid = zero_gid;
  gid_index = 0;
  r_key = 0;
  data_vaddr = 0;
  mr = none;
}

pub client_info-Fits : Fits client_info
client_info-Fits = record {
  lid_fits = omega arith;
  qpn_fits = omega arith;
  psn_fits = omega arith;
  r_key_fits = omega arith;
  data_vaddr_fits = omega arith;
  gid_fits = roce_gid-IsGid;
}

pub server_info-Fits : Fits server_info
server_info-Fits = record {
  lid_fits = omega arith;
  qpn_fits = omega arith;
  psn_fits = omega arith;
  r_key_fits = omega arith;
  data_vaddr_fits = omega arith;
  gid_fits = roce_gid-IsGid;
}

abbrev zeros : ℕ → Bytes
zeros zero = []
zeros (suc n) = 0 ∷ zeros n

abbrev pub locals : Locals
locals = record { msg = zeros 78; gid = zeros 33; junk = 5 }

pub locals-IsSized : IsSized locals
locals-IsSized = record { msg_sized = refl; gid_sized = refl }
