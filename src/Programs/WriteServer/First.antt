-- ===== src/Programs/WriteServer/First.antt =====
-- The connections that the server of writes comes to.
use nvm_rdma_examples.Prelude.{
  ℕ, zero, suc, Option, none, ◌≡◌, ◌≢◌, refl, arith, Option-cases, inl, inr,
}
use nvm_rdma_examples.Verbs.Types.{PortAttr}
use nvm_rdma_examples.Verbs.Interface.{Verbs}
use nvm_rdma_examples.Sockets.{Sockets}
use nvm_rdma_examples.Os.{Os}
use nvm_rdma_examples.Effects.{Call, call}
use nvm_rdma_examples.QueuePair.{RdmaContext}
use nvm_rdma_examples.Context.{create_context}
use nvm_rdma_examples.Exchange.{Locals}
use nvm_rdma_examples.Bench.{raw_recv_cq_count}
use nvm_rdma_examples.Bench.Lifecycle.{gid_idx}
use nvm_rdma_examples.Programs.{Process, nvm_size, open_and_fill, server_link}
use nvm_rdma_examples.Programs.Links.{server_link-Links, open_and_fill-Links}
use nvm_rdma_examples.Programs.WriteServer.{keep_printing, write_services, write_server}

module _ {W : Type 0} where
  keep_printing_lem : (passes buf : ℕ) (p : Process W) → keep_printing passes buf p ≡ (none, p)
  unfolding keep_printing
  keep_printing_lem zero buf p = refl
  keep_printing_lem (suc passes) buf p = keep_printing_lem passes buf p

module _ {W : Type 0} (v : Verbs W) (n : Sockets W) (os : Os W) where
  write_services_first :
      (passes rounds : ℕ) (ctx : RdmaContext) (cq : Option ℕ) (l : Locals) (i j : ℕ) (p : Process W)
      → i ≢ j
      → let (o, p') = write_services v n os passes (suc rounds) ctx cq l i p in
        (o ≡ none) × (p'.all_qp j ≡ p.all_qp j)
  unfolding write_services
  write_services_first passes rounds ctx cq l i j p ne =
      let (opened, p1) = open_and_fill os nvm_size p in
      let own1 = (open_and_fill-Links os nvm_size i p).own_qp j ne in
      elim (Option-cases opened) [
        | inl e ↦ (ground arith, ground (arith, own1))
        | inr (nvmbuf, e) ↦
            let (o, p2) = server_link v n ctx nvmbuf cq l i i p1 in
            let own2 = (server_link-Links v n ctx nvmbuf cq l i i p1).own_qp j ne in
            elim (Option-cases o) [
              | inl e2 ↦ (ground arith, ground (arith, own1, own2))
              | inr (r, e2) ↦ (
                ground (arith, keep_printing_lem passes nvmbuf p2),
                ground (arith, own1, own2, keep_printing_lem passes nvmbuf p2),
              )
            ]
      ]

  -- However long it runs, the server of writes gives no result, and it never stores a queue pair for a
  -- second of the ten connections that it is written for.
  pub write_server_first :
      (passes : ℕ) (ctx0 : RdmaContext) (junk : PortAttr) (l : Locals) (j : ℕ) (p : Process W)
      → 0 ≢ j
      → let (o, p') = write_server v n os passes ctx0 junk l p in
        (o ≡ none) × (p'.all_qp j ≡ p.all_qp j)
  unfolding write_server
  write_server_first passes ctx0 junk l j p ne =
      let (created, s1) = create_context v ctx0 1 gid_idx 0 junk p.sys in
      elim (Option-cases created.0.ctx) [
        | inl e ↦ (ground arith, ground arith)
        | inr (ctx, e) ↦
            let (cq, s2) =
              call (v.create_cq ctx raw_recv_cq_count) (Call.created_cq ctx raw_recv_cq_count) s1 in
            let p2 : Process W = record p { sys = s2 } in
            let (none_yet, own2) = write_services_first passes 9 created.0 cq l 0 j p2 ne in
            (ground (arith, none_yet), ground (arith, none_yet, own2))
      ]
