-- ===== src/Examples/Benches.antt =====
-- The theorems on the threads of the benchmarks and their ends.
use nvm_rdma_examples.Prelude.{
  suc, drop, ◌+◌, true, [], ◌∷◌, none, some, ◌≡◌, refl, arith, All, is_some,
}
use nvm_rdma_examples.Prelude.Int.{pos}
use nvm_rdma_examples.Verbs.Interface.{Verbs}
use nvm_rdma_examples.Effects.{Sys}
use nvm_rdma_examples.Ledger.{
  total, Exceeds, pds_allocated, pds_deallocated, cqs_created, cqs_destroyed, qps_created,
  qps_destroyed, mrs_registered, mrs_deregistered,
}
use nvm_rdma_examples.QueuePair.{
  create_queue_pair_shared, create_memory_region, create_queue_pair, modify_qp_to_init,
  modify_qp_to_rtr, modify_qp_to_rts,
}
use nvm_rdma_examples.Bench.{Bench, Host, set_up, connect_qp, server_connect, read_loop, thread_buf}
use nvm_rdma_examples.Bench.Setup.{sends, read_loop_ends}
use nvm_rdma_examples.Bench.Rounds.{round_text, round_start}
use nvm_rdma_examples.Bench.Regions.{InBlock}
use nvm_rdma_examples.Examples.Sim.{
  Nic, sim, net, os, sim_qp, sim_mr, start, context, junk, blank_info, server_info, done,
  blank_context, locals,
}
use nvm_rdma_examples.Context.{
  create_context, create_body, scan_devices, query_ports, open_chosen, fill_context,
}
use nvm_rdma_examples.Exchange.{server_exch_data, bind_loop, server_talk, is_full}
use nvm_rdma_examples.Bench.Server.{reading, run_server_thread, serve_rounds}
use nvm_rdma_examples.Bench.Server.Steps.{
  Shared, Step, Reached, set_byte, set_writer, begin_round, round_bytes,
}
use nvm_rdma_examples.Bench.Server.Interleaved.{finish_round, interleaved-serve_rounds}
use nvm_rdma_examples.Bench.Server.Isolated.{run_server_thread_isolated}
use nvm_rdma_examples.Os.{stick_this_thread_to_core}
use nvm_rdma_examples.Bench.Inside.{PostsInside, read_loop-Inside}
use nvm_rdma_examples.Bench.Lifecycle.{slot_of, create_bench, destroy_bench}
use nvm_rdma_examples.Bench.Lifecycle.Balance.{destroy_bench-set_up}

-- A device whose every poll finds a completion.
abbrev prompt_sim : Verbs Nic
prompt_sim = record sim { poll_cq = λ c w. ((pos 1, some done), w) }

abbrev bench : Bench
bench = record { ctx = context; buf = 4096; buf_size = 640; block_size = 64; sock_port = 20000 }

abbrev host : Host Nic
host = record {
  cq = none;
  mr = none;
  qp = none;
  local_info = blank_info;
  remote_info = server_info;
  memory = λ a. 0;
  sys = start;
}

read_loop_ends_example :
    ((read_loop prompt_sim net os bench 1 3 sim_qp 0 66 sim_mr done host).0 ≡ some tt)
    × (total sends (read_loop prompt_sim net os bench 1 3 sim_qp 0 66 sim_mr done host).1.sys.calls
        ≡ total sends [] + 3)
read_loop_ends_example =
    read_loop_ends prompt_sim net os bench 66 (λ w. (done, refl)) 0 3 sim_qp 0 sim_mr done host

is_set_up : (set_up sim net os bench 97 2 host).0 ≡ some sim_qp
unfolding set_up create_queue_pair_shared create_memory_region
is_set_up = refl

in_block : InBlock bench 3 4290
unfolding thread_buf
in_block = (omega arith, omega arith)

read_loop-Inside_example :
    All
      (PostsInside bench 2)
      (read_loop sim net os bench 4 3 sim_qp 2 66 sim_mr done host).1.sys.calls
read_loop-Inside_example = read_loop-Inside sim net os bench 4 3 sim_qp 2 66 sim_mr done host tt

-- The constructor, and one thread behind it.
abbrev made : Bench × Sys Nic
made = create_bench sim blank_context junk 4096 640 64 20000 start

abbrev made_host : Host Nic
made_host = record host { sys = made.1 }

made_set_up : (set_up sim net os made.0 97 0 made_host).0 ≡ some sim_qp
unfolding create_bench create_context create_body scan_devices query_ports open_chosen fill_context
    set_up create_queue_pair_shared create_memory_region
made_set_up = refl

made_cq : is_some (set_up sim net os made.0 97 0 made_host).1.cq ≡ true
unfolding create_bench create_context create_body scan_devices query_ports open_chosen fill_context
    set_up create_queue_pair_shared create_memory_region create_queue_pair modify_qp_to_init
made_cq = refl

destroy_bench-set_up_example :
    let h' = (set_up sim net os made.0 97 0 made_host).1 in
    let s' = (destroy_bench sim made.0 1 (slot_of h' ∷ []) h'.sys).1 in
    Exceeds qps_created qps_destroyed 0 made.1.calls s'.calls
    × Exceeds cqs_created cqs_destroyed 0 made.1.calls s'.calls
    × Exceeds mrs_registered mrs_deregistered 0 made.1.calls s'.calls
    × Exceeds pds_allocated pds_deallocated 0 start.calls s'.calls
destroy_bench-set_up_example =
    destroy_bench-set_up sim net os blank_context junk 4096 640 64 20000 97 0 start made_host refl
      refl made_set_up made_cq

server_connected : (server_connect sim net os bench 2 locals host).0 ≡ some sim_qp
unfolding server_connect set_up create_queue_pair_shared create_memory_region create_queue_pair
    modify_qp_to_init server_exch_data bind_loop server_talk is_full connect_qp modify_qp_to_rtr
    modify_qp_to_rts stick_this_thread_to_core
server_connected = refl

run_server_thread_isolated_example :
    (run_server_thread sim net os bench 2 reading 2 locals host).1.memory 4290 ≡ 0
run_server_thread_isolated_example =
    run_server_thread_isolated sim net os bench 2 reading 2 3 4290 locals host (omega arith)
      in_block (omega arith) server_connected

-- Thread 3 stores one byte, thread 2 the bytes of its round, and goes on to the next.
abbrev one_stored : Shared
one_stored = record {
  memory = set_byte (round_start bench 3 0 + 0) b't' host.memory;
  writers =
      set_writer 3 (record { kk = 0; stored = b't' ∷ []; left = drop 1 (round_bytes 3 0) })
        (λ i. begin_round i 0);
}

one_stored-Reached : Reached bench host.memory one_stored
unfolding round_text
one_stored-Reached =
    Reached.next Reached.initial
      (Step.store 3 b't' {rest = drop 1 (round_bytes 3 0)} refl (omega arith))

not_begun : one_stored.writers 2 ≡ begin_round 2 0
unfolding set_writer
not_begun = refl

abbrev round_done :
    (s' : Shared) × Reached bench host.memory s'
    × ((s'.writers 2).kk ≡ 0)
    × ((s'.writers 2).left ≡ [])
round_done =
    finish_round bench host.memory 2 0 [] (round_bytes 2 0) one_stored (omega arith)
      one_stored-Reached not_begun

abbrev after_round : Shared
after_round = record round_done.0 {
  writers = set_writer 2 (begin_round 2 (suc (round_done.0.writers 2).kk)) round_done.0.writers;
}

after_round-Reached : Reached bench host.memory after_round
after_round-Reached = Reached.next round_done.1 (Step.next_round 2 round_done.3)

nothing_stored : (after_round.writers 2).stored ≡ []
unfolding set_writer
nothing_stored = refl

second_block : InBlock bench 2 4230
unfolding thread_buf
second_block = (omega arith, omega arith)

interleaved-serve_rounds_example :
    after_round.memory 4230 ≡ (serve_rounds bench (after_round.writers 2).kk 2 0 host).1.memory 4230
interleaved-serve_rounds_example =
    interleaved-serve_rounds bench host after_round 2 4230 after_round-Reached nothing_stored
      second_block
