-- ===== src/Examples/Threads.antt =====
-- The theorems on requests, polling, threads, regions and devices of the other parts.
use nvm_rdma_examples.Prelude.{
  ℕ, ◌+◌, ◌*◌, ◌≤◌, ◌<◌, true, [], ◌∷◌, none, some, if◌then◌else◌, ◌≡◌, ◌==◌, refl, arith,
}
use nvm_rdma_examples.Prelude.Int.{pos, minus_one}
use nvm_rdma_examples.Text.Digits.{Bytes}
use nvm_rdma_examples.Verbs.Types.{Wc, failure, SendWr, zero_gid}
use nvm_rdma_examples.Effects.{Call}
use nvm_rdma_examples.Ledger.{
  total, Exceeds, lists_got, lists_freed, pds_allocated, pds_deallocated, contexts_opened,
  contexts_closed,
}
use nvm_rdma_examples.QueuePair
use nvm_rdma_examples.QueuePair.{psn_const, create_queue_pair_shared, create_memory_region}
use nvm_rdma_examples.Post.{rdma_read, rdma_write, poll_with_cq}
use nvm_rdma_examples.Post.Transfer.{
  Hosts, copy, execute, rdma_read_transfers, rdma_write_transfers,
}
use nvm_rdma_examples.Post.Poll.{Delivers, poll_with_cq-Delivers}
use nvm_rdma_examples.Transport.{
  RdmaTransport, RdmaConnection, to_info, modify_qp_to_init, modify_qp_to_rtr, modify_qp_to_rts,
}
use nvm_rdma_examples.Transport.Connect.{transitions_agree}
use nvm_rdma_examples.Transport.Create.{create}
use nvm_rdma_examples.Transport.Create.Exit.{create_balanced}
use nvm_rdma_examples.Region.{Mapping, map_failed, align_to_sz, nvm_create}
use nvm_rdma_examples.Region.Sizes.{align_to_sz_lem, nvm_create_lem}
use nvm_rdma_examples.NicMem.{
  get_nic_mem, get_nic_mem_accounts, find_device, is_wanted, probe_device,
}
use nvm_rdma_examples.Examples.Sim.{Nic, sim, sim_qp, start, idle_nic, at, context, junk, done}

-- The far memory holds 9 at 200, and the near one 3 everywhere.
abbrev hosts : Hosts
hosts = ((λ a. 3), (λ a. 9))

rdma_read_transfers_example :
    let (result, s') = rdma_read sim sim_qp 100 200 64 11 12 true 7 start in
    (wr : SendWr) × (s'.calls ≡ Call.posted_send sim_qp wr (pos 0) ∷ [])
    × (result ≡ true)
    × (execute wr hosts ≡ (copy hosts.1 200 hosts.0 100 64, hosts.1))
rdma_read_transfers_example =
    rdma_read_transfers sim sim_qp start 100 200 64 11 12 true 7 hosts (omega arith)

rdma_write_transfers_example :
    let (result, s') = rdma_write sim sim_qp 100 200 64 11 12 (pos 4) true 7 start in
    (wr : SendWr) × (s'.calls ≡ Call.posted_send sim_qp wr (pos 0) ∷ [])
    × (result ≡ true)
    × (execute wr hosts ≡ (hosts.0, copy hosts.0 100 hosts.1 200 64))
rdma_write_transfers_example =
    rdma_write_transfers sim sim_qp start 100 200 64 11 12 (pos 4) true 7 hosts (omega arith)

-- An empty poll, a completion, and a second one that failed.
abbrev bad : Wc
bad = record { wr_id = 1; status = failure 12 }

abbrev busy_nic : Nic
busy_nic = record idle_nic {
  completions = (pos 0, none) ∷ (pos 1, some done) ∷ (pos 1, some bad) ∷ [];
}

two_delivered : Delivers sim 66 2 3 busy_nic done bad
two_delivered =
    Delivers.idle refl (Delivers.completes refl (Delivers.completes refl Delivers.delivered))

poll_with_cq-Delivers_example :
    (poll_with_cq sim 5 66 (pos 2) done (at busy_nic)).0 ≡ some (minus_one, bad)
poll_with_cq-Delivers_example =
    poll_with_cq-Delivers sim 66 5 done (at busy_nic) two_delivered (omega arith) (omega arith)
      (omega arith)

abbrev broken_nic : Nic
broken_nic = record idle_nic { completions = (minus_one, none) ∷ [] }

abbrev huge_page : ℕ
huge_page = 2097152

align_to_sz_lem_example :
    (5000000 ≤ align_to_sz 5000000 huge_page)
    × (align_to_sz 5000000 huge_page < 5000000 + huge_page)
    × ((q : ℕ) × (align_to_sz 5000000 huge_page ≡ q * huge_page))
align_to_sz_lem_example = align_to_sz_lem 5000000 huge_page (omega arith) (omega arith)

-- A system whose mappings fail.
abbrev full_memory : Mapping Nic
full_memory = record {
  open_device = λ w. (pos 3, w);
  mmap = λ f n w. (map_failed, w);
  mmap_huge = λ n w. (map_failed, w);
  malloc = λ n w. (0, w);
  file_size = λ w. 4096;
  close = λ f w. w;
}

nvm_create_lem_example :
    (nvm_create full_memory 4096 idle_nic).0
    ≡ some (record { fd = pos 3; region = record { sz = 4096; addr = map_failed } })
nvm_create_lem_example = nvm_create_lem full_memory 4096 idle_nic

-- "mlx5_0" for device 7 and "mlx5_1" for the others.
abbrev name_of : ℕ → Bytes
name_of d = b'm' ∷ b'l' ∷ b'x' ∷ b'5' ∷ b'_' ∷ (if d == 7 then b'0' else b'1') ∷ []

probed : (get_nic_mem sim name_of 200 start).0 ≡ some true
unfolding get_nic_mem find_device is_wanted probe_device
probed = refl

get_nic_mem_accounts_example :
    let s' = (get_nic_mem sim name_of 200 start).1 in
    Exceeds contexts_opened contexts_closed 0 start.calls s'.calls
    × (total lists_freed s'.calls ≡ total lists_freed start.calls + 1)
get_nic_mem_accounts_example = get_nic_mem_accounts sim name_of 200 start probed

abbrev transport : RdmaTransport
transport = record {
  dev_index = 255;
  port = 1;
  gid_index = pos 3;
  ctx = none;
  pd = none;
  lid = 0;
  gid = zero_gid;
  num_qp = 0;
  qp = [];
  cq = [];
  send_cq = none;
  recv_cq = none;
  qps_max_depth = 128;
  max_inline_data = 0;
}

abbrev connection : RdmaConnection
connection = record {
  qpn = 77;
  psn = psn_const;
  lid = 5;
  gid = zero_gid;
  r_key = 12;
  data_vaddr = 4096;
  mr = none;
}

transitions_agree_example :
    (modify_qp_to_init sim sim_qp transport start
      ≡ QueuePair.modify_qp_to_init sim sim_qp context start)
    × (modify_qp_to_rtr sim sim_qp connection start
        ≡ QueuePair.modify_qp_to_rtr sim sim_qp (to_info connection) start)
    × (modify_qp_to_rts sim sim_qp connection start ≡ QueuePair.modify_qp_to_rts sim sim_qp start)
transitions_agree_example =
    transitions_agree sim sim_qp start transport context connection connection refl refl refl

create_balanced_example :
    let s' = (create sim 3 0 junk transport start).1 in
    Exceeds lists_got lists_freed 0 start.calls s'.calls
    × Exceeds pds_allocated pds_deallocated 0 start.calls s'.calls
    × Exceeds contexts_opened contexts_closed 0 start.calls s'.calls
create_balanced_example = create_balanced sim 3 0 junk transport start refl refl
