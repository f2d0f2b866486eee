-- ===== src/Programs/ReadServer/First.antt =====
-- The connections that the server of reads comes to.
use nvm_rdma_examples.Prelude.{
  ℕ, zero, suc, Option, none, ◌≡◌, ◌≢◌, refl, arith, Option-cases, inl, inr,
}
use nvm_rdma_examples.Verbs.Types.{PortAttr}
use nvm_rdma_examples.Verbs.Interface.{Verbs}
use nvm_rdma_examples.Sockets.{Sockets}
use nvm_rdma_examples.Os.{Os}
use nvm_rdma_examples.Effects.{Call, call}
use nvm_rdma_examples.QueuePair.{RdmaContext}
use nvm_rdma_examples.Context.{create_context}
use nvm_rdma_examples.Exchange.{Locals}
use nvm_rdma_examples.Bench.{raw_recv_cq_count}
use nvm_rdma_examples.Bench.Lifecycle.{gid_idx}
use nvm_rdma_examples.Programs.{Process, nvm_size, open_and_fill, server_link}
use nvm_rdma_examples.Programs.Links.{server_link-Links, open_and_fill-Links}
use nvm_rdma_examples.Programs.ReadServer.{keep_writing, read_services, read_server}
use nvm_rdma_examples.Programs.ReadServer.Memory.{keep_writing_endless}

module _ {W : Type 0} where
  keep_writing_qps :
      (passes buf : ℕ) (p : Process W) → (keep_writing passes buf p).1.all_qp ≡ p.all_qp
  unfolding keep_writing
  keep_writing_qps zero buf p = refl
  keep_writing_qps (suc passes) buf p = keep_writing_qps passes buf _

module _ {W : Type 0} (v : Verbs W) (n : Sockets W) where
  read_services_first :
      (passes rounds : ℕ) (ctx : RdmaContext) (buf : ℕ) (cq : Option ℕ) (l : Locals) (i j : ℕ)
      (p : Process W)
      → i ≢ j
      → let (o, p') = read_services v n passes (suc rounds) ctx buf cq l i p in
        (o ≡ none) × (p'.all_qp j ≡ p.all_qp j)
  unfolding read_services
  read_services_first passes rounds ctx buf cq l i j p ne =
      let (o, p1) = server_link v n ctx buf cq l i i p in
      let own = (server_link-Links v n ctx buf cq l i i p).own_qp j ne in
      elim (Option-cases o) [
        | inl e ↦ (ground arith, ground (arith, own))
        | inr (r, e) ↦ (
          ground (arith, keep_writing_endless passes buf p1),
          ground (arith, own, keep_writing_endless passes buf p1, keep_writing_qps passes buf p1),
        )
      ]

module _ {W : Type 0} (v : Verbs W) (n : Sockets W) (os : Os W) where
  -- However long it runs, the server of reads gives no result, and it never stores a queue pair
  -- for a second of the ten connections that it is written for.
  pub read_server_first :
      (passes : ℕ) (ctx0 : RdmaContext) (junk : PortAttr) (l : Locals) (j : ℕ) (p : Process W)
      → 0 ≢ j
      → let (o, p') = read_server v n os passes ctx0 junk l p in
        (o ≡ none) × (p'.all_qp j ≡ p.all_qp j)
  unfolding read_server
  read_server_first passes ctx0 junk l j p ne =
      let (created, s1) = create_context v ctx0 1 gid_idx 0 junk p.sys in
      let p1 : Process W = record p { sys = s1 } in
      let (opened, p2) = open_and_fill os nvm_size p1 in
      let own2 = (open_and_fill-Links os nvm_size 0 p1).own_qp j ne in
      elim (Option-cases opened) [
        | inl e ↦ (ground arith, ground (arith, own2))
        | inr (buf, e) ↦ elim (Option-cases created.0.ctx) [
          | inl e3 ↦ (ground arith, ground (arith, own2))
          | inr (ctx, e3) ↦
              let (cq, s3) =
                call (v.create_cq ctx raw_recv_cq_count) (Call.created_cq ctx raw_recv_cq_count)
                  p2.sys in
              let p3 : Process W = record p2 { sys = s3 } in
              let (none_yet, own3) =
                read_services_first v n passes 9 created.0 buf cq l 0 j p3 ne in
              (ground (arith, none_yet), ground (arith, none_yet, own2, own3))
        ]
      ]
