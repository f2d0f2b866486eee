-- ===== src/Bench/Lifecycle/Balance.antt =====
-- What the destructor of the benchmark gives back.
use mathlib.Core.Path.{subst}
use nvm_rdma_examples.Prelude.{
  ℕ, suc, ◌+◌, true, List, [], ◌∷◌, none, some, ◌≡◌, refl, sym, All, arith, is_some, length,
}
use nvm_rdma_examples.Verbs.Types.{PortAttr, Qp}
use nvm_rdma_examples.Verbs.Interface.{Verbs}
use nvm_rdma_examples.Sockets.{Sockets}
use nvm_rdma_examples.Os.{Os}
use nvm_rdma_examples.Effects.{Call, Sys}
use nvm_rdma_examples.Ledger.{
  total, one_if, Exceeds, pds_allocated, pds_deallocated, cqs_created, cqs_destroyed, qps_created,
  qps_destroyed, mrs_registered, mrs_deregistered, contexts_closed,
}
use nvm_rdma_examples.QueuePair.{
  RdmaContext, create_queue_pair, create_queue_pair_shared, create_memory_region, modify_qp_to_init,
}
use nvm_rdma_examples.Context.{exit_pd, exit_ctx}
use nvm_rdma_examples.Context.Accounts.{
  create_context_accounts, create_context_pd, create_context_fails,
}
use nvm_rdma_examples.Bench.{Bench, Host, set_up}
use nvm_rdma_examples.Bench.Lifecycle.{
  Slot, slot_of, create_bench, gid_idx, destroy_slot, destroy_slots, destroy_bench,
}

-- An element that a set-up has filled.
pub record IsFilled (slot : Slot) : Type 0 where
  pub has_qp : is_some slot.qp ≡ true
  pub has_cq : is_some slot.cq ≡ true
  pub has_mr : is_some slot.mr ≡ true

-- From one log to another, `k` queue pairs, completion queues and memory regions were given back, none
-- was made, and protection domains and contexts were left alone.
pub record Returned (k : ℕ) (cs cs' : List Call) : Type 0 where
  pub qps : total qps_destroyed cs' ≡ total qps_destroyed cs + k
  pub cqs : total cqs_destroyed cs' ≡ total cqs_destroyed cs + k
  pub mrs : total mrs_deregistered cs' ≡ total mrs_deregistered cs + k
  pub no_qps : total qps_created cs' ≡ total qps_created cs
  pub no_cqs : total cqs_created cs' ≡ total cqs_created cs
  pub no_mrs : total mrs_registered cs' ≡ total mrs_registered cs
  pub kept : total pds_deallocated cs' ≡ total pds_deallocated cs
  pub no_pds : total pds_allocated cs' ≡ total pds_allocated cs
  pub unclosed : total contexts_closed cs' ≡ total contexts_closed cs

Returned-refl : (cs : List Call) → Returned 0 cs cs
Returned-refl cs = record {
  qps = omega arith;
  cqs = omega arith;
  mrs = omega arith;
  no_qps = refl;
  no_cqs = refl;
  no_mrs = refl;
  kept = refl;
  no_pds = refl;
  unclosed = refl;
}

Returned-suc :
    {k : ℕ} {cs cs' cs'' : List Call}
    → Returned 1 cs cs'
    → Returned k cs' cs''
    → Returned (suc k) cs cs''
Returned-suc a b = record {
  qps = omega (arith, a.qps, b.qps);
  cqs = omega (arith, a.cqs, b.cqs);
  mrs = omega (arith, a.mrs, b.mrs);
  no_qps = omega (arith, a.no_qps, b.no_qps);
  no_cqs = omega (arith, a.no_cqs, b.no_cqs);
  no_mrs = omega (arith, a.no_mrs, b.no_mrs);
  kept = omega (arith, a.kept, b.kept);
  no_pds = omega (arith, a.no_pds, b.no_pds);
  unclosed = omega (arith, a.unclosed, b.unclosed);
}

module _ {W : Type 0} (v : Verbs W) where
  destroy_slot-Returned :
      (slot : Slot) (s : Sys W)
      → IsFilled slot
      → ((destroy_slot v slot s).0 ≡ some tt) × Returned 1 s.calls (destroy_slot v slot s).1.calls
  unfolding destroy_slot
  destroy_slot-Returned slot s h = (
    ground arith,
    record {
      qps = ground arith;
      cqs = ground arith;
      mrs = ground arith;
      no_qps = ground arith;
      no_cqs = ground arith;
      no_mrs = ground arith;
      kept = ground arith;
      no_pds = ground arith;
      unclosed = ground arith;
    },
  )

  destroy_slots_step :
      (rounds : ℕ) (slot : Slot) (slots : List Slot) (s : Sys W)
      → (destroy_slot v slot s).0 ≡ some tt
      → destroy_slots v (suc rounds) (slot ∷ slots) s
        ≡ destroy_slots v rounds slots (destroy_slot v slot s).1
  unfolding destroy_slots
  destroy_slots_step rounds slot slots s e = ground arith

  destroy_slots-Returned :
      (slots : List Slot) (s : Sys W)
      → All IsFilled slots
      → ((destroy_slots v (length slots) slots s).0 ≡ some tt)
        × Returned (length slots) s.calls (destroy_slots v (length slots) slots s).1.calls
  destroy_slots-Returned [] s h = unfold destroy_slots in (refl, Returned-refl s.calls)
  destroy_slots-Returned (slot ∷ slots) s h =
      let (e, r) = destroy_slot-Returned slot s h.0 in
      let s' = (destroy_slot v slot s).1 in
      let (e', r') = destroy_slots-Returned slots s' h.1 in
      subst (λ x. (x.0 ≡ some tt) × Returned (suc (length slots)) s.calls x.1.calls)
        (sym (destroy_slots_step (length slots) slot slots s e)) (e', Returned-suc r r')

  create_bench_pds :
      (ctx : RdmaContext) (junk : PortAttr) (buf buf_size block_size sock_port : ℕ) (s : Sys W)
      → ctx.pd ≡ none
      → let (b, s') = create_bench v ctx junk buf buf_size block_size sock_port s in
        Exceeds pds_allocated pds_deallocated (one_if b.ctx.pd) s.calls s'.calls
  unfolding create_bench
  create_bench_pds ctx junk buf buf_size block_size sock_port s np = ground (
    arith,
    create_context_accounts v ctx 1 gid_idx 0 junk s,
    create_context_pd v ctx 1 gid_idx 0 junk s,
    create_context_fails v ctx 1 gid_idx 0 junk s,
  )

  -- The destructor, for threads whose elements are all filled, ends, destroys one queue pair and one
  -- completion queue and deregisters one memory region for each thread, and gives back the protection
  -- domain and the device context that are there.
  pub destroy_bench_releases :
      (b : Bench) (slots : List Slot) (s : Sys W)
      → All IsFilled slots
      → let (o, s') = destroy_bench v b (length slots) slots s in
        (o ≡ some tt)
        × (total qps_destroyed s'.calls ≡ total qps_destroyed s.calls + length slots)
        × (total cqs_destroyed s'.calls ≡ total cqs_destroyed s.calls + length slots)
        × (total mrs_deregistered s'.calls ≡ total mrs_deregistered s.calls + length slots)
        × (total pds_deallocated s'.calls ≡ total pds_deallocated s.calls + one_if b.ctx.pd)
        × (total contexts_closed s'.calls ≡ total contexts_closed s.calls + one_if b.ctx.ctx)
  unfolding destroy_bench exit_pd exit_ctx
  destroy_bench_releases b slots s h =
      let (e, r) = destroy_slots-Returned slots s h in ground (arith, e, r)

  destroy_bench_makes_none :
      (b : Bench) (slots : List Slot) (s : Sys W)
      → All IsFilled slots
      → let s' = (destroy_bench v b (length slots) slots s).1 in
        (total qps_created s'.calls ≡ total qps_created s.calls)
        × (total cqs_created s'.calls ≡ total cqs_created s.calls)
        × (total mrs_registered s'.calls ≡ total mrs_registered s.calls)
        × (total pds_allocated s'.calls ≡ total pds_allocated s.calls)
  unfolding destroy_bench exit_pd exit_ctx
  destroy_bench_makes_none b slots s h =
      let (e, r) = destroy_slots-Returned slots s h in ground (arith, e, r)

module _ {W : Type 0} (v : Verbs W) (n : Sockets W) (os : Os W) where
  -- What a set-up that ends has made.
  set_up_makes :
      (b : Bench) (first i : ℕ) (h : Host W) {qp : Qp}
      → (set_up v n os b first i h).0 ≡ some qp
      → let h' = (set_up v n os b first i h).1 in
        (is_some h'.qp ≡ true)
        × (is_some h'.mr ≡ true)
        × Exceeds qps_created qps_destroyed 1 h.sys.calls h'.sys.calls
        × Exceeds cqs_created cqs_destroyed (one_if h'.cq) h.sys.calls h'.sys.calls
        × Exceeds mrs_registered mrs_deregistered 1 h.sys.calls h'.sys.calls
        × Exceeds pds_allocated pds_deallocated 0 h.sys.calls h'.sys.calls
  unfolding set_up create_memory_region create_queue_pair_shared create_queue_pair modify_qp_to_init
  set_up_makes b first i h e = ground arith

  -- One thread: from the constructor, on a context without a protection domain, over a set-up that
  -- ends with a completion queue, to the destructor, every queue pair, completion queue and memory
  -- region that was made since the constructor is given back, and every protection domain since
  -- before it.
  pub destroy_bench-set_up :
      (ctx : RdmaContext) (junk : PortAttr) (buf buf_size block_size sock_port first i : ℕ)
      (s : Sys W) (h : Host W) {qp : Qp}
      → ctx.pd ≡ none
      → h.sys ≡ (create_bench v ctx junk buf buf_size block_size sock_port s).1
      → let b = (create_bench v ctx junk buf buf_size block_size sock_port s).0 in
        (set_up v n os b first i h).0 ≡ some qp
        → is_some (set_up v n os b first i h).1.cq ≡ true
        → let h' = (set_up v n os b first i h).1 in
          let s' = (destroy_bench v b 1 (slot_of h' ∷ []) h'.sys).1 in
          Exceeds qps_created qps_destroyed 0 h.sys.calls s'.calls
          × Exceeds cqs_created cqs_destroyed 0 h.sys.calls s'.calls
          × Exceeds mrs_registered mrs_deregistered 0 h.sys.calls s'.calls
          × Exceeds pds_allocated pds_deallocated 0 s.calls s'.calls
  destroy_bench-set_up ctx junk buf buf_size block_size sock_port first i s h np hs e c =
      let b = (create_bench v ctx junk buf buf_size block_size sock_port s).0 in
      let h' = (set_up v n os b first i h).1 in
      let (has_qp, has_mr, qps, cqs, mrs, pds) = set_up_makes b first i h e in
      let filled : All IsFilled (slot_of h' ∷ []) =
        (record { has_qp = has_qp; has_cq = c; has_mr = has_mr }, tt) in
      let released = destroy_bench_releases v b (slot_of h' ∷ []) h'.sys filled in
      let none_made = destroy_bench_makes_none v b (slot_of h' ∷ []) h'.sys filled in
      let created = create_bench_pds v ctx junk buf buf_size block_size sock_port s np in
      ground (arith, qps, cqs, mrs, pds, released, none_made, created, hs)
