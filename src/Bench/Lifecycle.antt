-- ===== src/Bench/Lifecycle.antt =====
-- The constructor and the destructor of `RDMA_bench`, of rdma_bench.cc, and `main` with one thread, the
-- default, up to the end of its set-up. The buffer is allocated and freed outside of the state.
pub mod Balance
use nvm_rdma_examples.Prelude.{
  ℕ, zero, suc, ◌<◌, List, [], ◌∷◌, Option, none, some, if◌then◌else◌, ltb,
}
use nvm_rdma_examples.Prelude.Int.{ℤ, pos}
use nvm_rdma_examples.Verbs.Types.{PortAttr, Qp, Mr}
use nvm_rdma_examples.Verbs.Interface.{Verbs}
use nvm_rdma_examples.Effects.{Call, Sys, M, ◌>>=◌, ◌>>◌, call}
use nvm_rdma_examples.QueuePair.{RdmaContext}
use nvm_rdma_examples.Context.{create_context, exit_pd, exit_ctx}
use nvm_rdma_examples.Bench.{Bench, Host, max_thread}

-- `GID_IDX` of rdma_common.hh.
abbrev pub gid_idx : ℤ
gid_idx = pos 3

-- The elements of the arrays `all_qp`, `cq` and `mr` at one index.
pub record Slot : Type 0 where
  pub qp : Option Qp
  pub cq : Option ℕ
  pub mr : Option Mr

abbrev pub slot_of : {W : Type 0} → Host W → Slot
slot_of h = record { qp = h.qp; cq = h.cq; mr = h.mr }

module _ {W : Type 0} (v : Verbs W) where
  -- A context that could not be created is not noticed. `buf` is the address that `new` returns.
  unfoldable pub create_bench : RdmaContext → PortAttr → ℕ → ℕ → ℕ → ℕ → M W Bench
  create_bench ctx junk buf buf_size block_size sock_port s =
      let ((ctx', ok), s') = create_context v ctx 1 gid_idx 0 junk s in
      (
        record {
          ctx = ctx';
          buf = buf;
          buf_size = buf_size;
          block_size = block_size;
          sock_port = sock_port;
        },
        s',
      )

  -- One round of the loop of the destructor: a null pointer ends the run, and results are not looked at.
  unfoldable pub destroy_slot : Slot → M W (Option (Unit {0}))
  destroy_slot slot s = elim slot.qp [
    | none ↦ (none, s)
    | some qp ↦
        let (r1, s1) = call (v.destroy_qp qp) (Call.destroyed_qp qp) s in
        elim slot.cq [
          | none ↦ (none, s1)
          | some cq ↦
              let (r2, s2) = call (v.destroy_cq cq) (Call.destroyed_cq cq) s1 in
              elim slot.mr [
                | none ↦ (none, s2)
                | some mr ↦ (some tt, (call (v.dereg_mr mr) (Call.deregistered_mr mr) s2).1)
              ]
        ]
  ]

  -- The loop, over the rounds that are left and the elements behind those done; `none` is a null
  -- pointer or an element outside of the arrays.
  unfoldable pub destroy_slots : ℕ → List Slot → M W (Option (Unit {0}))
  destroy_slots zero slots s = (some tt, s)
  destroy_slots (suc rounds) [] s = (none, s)
  destroy_slots (suc rounds) (slot ∷ slots) s =
      let (o, s') = destroy_slot slot s in
      elim o [ none ↦ (none, s') | some u ↦ destroy_slots rounds slots s' ]

  -- The destructor of a benchmark that has run `thread_num` threads.
  unfoldable pub destroy_bench : Bench → ℕ → List Slot → M W (Option (Unit {0}))
  destroy_bench b thread_num slots s =
      let (o, s') = destroy_slots thread_num slots s in
      elim o [
        | none ↦ (none, s')
        | some u ↦ (some tt, exit_ctx v b.ctx.ctx (exit_pd v b.ctx.pd s'))
      ]
