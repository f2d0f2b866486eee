-- ===== src/Examples/Devices.antt =====
-- The theorems on contexts, queue pairs and requests, on the device of Sim.
use nvm_rdma_examples.Prelude.{
  ℕ, ◌+◌, ◌≤◌, Bool, true, [], ◌∷◌, some, if◌then◌else◌, ◌≡◌, refl, All, get_elem?, is_some,
}
use nvm_rdma_examples.Prelude.Int.{pos}
use nvm_rdma_examples.Verbs.Types.{rtr, rts}
use nvm_rdma_examples.Effects.{Sys}
use nvm_rdma_examples.Ledger.{
  total, Exceeds, lists_got, lists_freed, pds_allocated, pds_deallocated, contexts_opened,
  contexts_closed,
}
use nvm_rdma_examples.QueuePair.{modify_qp_to_init, modify_qp_to_rtr, modify_qp_to_rts}
use nvm_rdma_examples.QueuePair.Transitions.{bring_up}
use nvm_rdma_examples.QueuePair.Masks.{transitions-Complete, Complete}
use nvm_rdma_examples.Context.{
  create_context, create_body, scan_devices, query_ports, open_chosen, fill_context, create_exit,
}
use nvm_rdma_examples.Context.Accounts.{create_context_accounts}
use nvm_rdma_examples.Context.Leak.{create_context_leaks}
use nvm_rdma_examples.Context.Selection.{create_context_selects, first_active}
use nvm_rdma_examples.Examples.Sim.{
  sim, sim_states, sim_accepts, sim_steady, sim_port, sim_qp, Nic, start, idle_nic, at,
  blank_context, context, junk, client_info,
}

abbrev created : Bool
created = (create_context sim blank_context 1 (pos 3) 0 junk start).0.1

created_ok : created ≡ true
unfolding create_context create_body scan_devices query_ports open_chosen fill_context create_exit
created_ok = refl

create_context_accounts_example :
    let ((context', ok), s') = create_context sim blank_context 1 (pos 3) 0 junk start in
    Exceeds lists_got lists_freed 0 start.calls s'.calls
    × Exceeds pds_allocated pds_deallocated (if ok then 1 else 0) start.calls s'.calls
    × (total contexts_closed s'.calls ≤ total contexts_closed start.calls + (if ok then 0 else 1))
create_context_accounts_example = create_context_accounts sim blank_context 1 (pos 3) 0 junk start

create_context_leaks_example :
    total contexts_opened start.calls + 2
    ≤ total contexts_opened (create_context sim blank_context 1 (pos 3) 0 junk start).1.calls
create_context_leaks_example =
    create_context_leaks sim (λ d w. refl) blank_context 1 (pos 3) 0 junk start created_ok

create_context_selects_example :
    let context' = (create_context sim blank_context 1 (pos 3) 0 junk start).0.0 in
    (d : ℕ) × (context'.dev_index ≡ first_active (λ d. some (d + 100)) sim_port (7 ∷ 8 ∷ []) 0 0)
    × (get_elem? (7 ∷ 8 ∷ []) context'.dev_index ≡ some d)
    × (some (d + 100) ≡ context'.ctx)
    × (is_some context'.pd ≡ true)
create_context_selects_example =
    create_context_selects sim sim_steady blank_context 1 (pos 3) 0 junk start created_ok

bring_up_example :
    let (a, s1) = modify_qp_to_init sim sim_qp context start in
    let (b, s2) = modify_qp_to_rtr sim sim_qp client_info s1 in
    let (c, s3) = modify_qp_to_rts sim sim_qp s2 in
    (a ≡ true) × (b ≡ true) × (c.1 ≡ true) × (s3.world.state ≡ rts)
bring_up_example = bring_up sim sim_states sim_accepts sim_qp context client_info start refl

abbrev ready : Sys Nic
ready = at (record idle_nic { state = rtr })

all_move :
    let (a, s1) = modify_qp_to_init sim sim_qp context start in
    let (b, s2) = modify_qp_to_rtr sim sim_qp client_info s1 in
    let (c, s3) = modify_qp_to_rts sim sim_qp s2 in (a ≡ true) × (b ≡ true) × (c.1 ≡ true)
unfolding modify_qp_to_init modify_qp_to_rtr modify_qp_to_rts
all_move = (refl, refl, refl)

transitions-Complete_example :
    All Complete
      (modify_qp_to_rts sim sim_qp
        (modify_qp_to_rtr sim sim_qp client_info
          (modify_qp_to_init sim sim_qp context start).1).1).1.calls
transitions-Complete_example = transitions-Complete sim sim_qp context client_info start refl tt
