-- ===== src/OneSided/Entries.antt =====
-- The local memory that the requests of the client of one-sided writes name, and the regions registered.
use mathlib.Core.Path.{subst}
use nvm_rdma_examples.Prelude.{
  Option, none, some, ◌∙◌, ℕ, zero, suc, ◌+◌, ◌*◌, ◌≤◌, ◌<◌, Bool, true, ◌&&◌, List, [], ◌∷◌, ◌≡◌,
  refl, sym, All, arith, leb, ◌==◌, Option-cases, inl, inr,
}
use nvm_rdma_examples.Prelude.Int.{minus_one}
use nvm_rdma_examples.Verbs.Types.{Qp, Mr, Wc, Sge, Opcode, PortAttr}
use nvm_rdma_examples.Verbs.Interface.{Verbs}
use nvm_rdma_examples.Sockets.{Sockets}
use nvm_rdma_examples.Effects.{Call, Sys, call}
use nvm_rdma_examples.QueuePair.{RdmaContext, create_memory_region}
use nvm_rdma_examples.Context.{create_context}
use nvm_rdma_examples.Post.{rdma_write, write_wr, fill_sge_send_wr, fill_sge}
use nvm_rdma_examples.Exchange.{Locals}
use nvm_rdma_examples.Bench.{raw_recv_cq_count, max_thread}
use nvm_rdma_examples.Bench.Lifecycle.{gid_idx}
use nvm_rdma_examples.Bench.Rounds.{store_bytes}
use nvm_rdma_examples.Programs.{Process, buf_size, buf_at, poll_one, client_link}
use nvm_rdma_examples.Programs.Named.{
  Request, to_send, to_receive, requests, requests-create_context, requests-destroy_context,
}
use nvm_rdma_examples.Programs.Polled.{requests-poll_one}
use nvm_rdma_examples.Programs.Links.{client_link-Links}
use nvm_rdma_examples.OneSided.{
  name_text, write_round, write_rounds, connect_and_write, write_connections, write_client,
}

-- Whether entries lie in the buffer at an address.
abbrev pub in_region : ℕ → List Sge → Bool
in_region buf [] = true
in_region buf (e ∷ es) =
    leb buf e.addr && leb (e.addr + e.length) (buf + buf_size) && in_region buf es

-- A write of a connection out of its own buffer, with the key of the region: the entry lies in the first
-- buffer exactly if it is the first connection, and in the second, which has a region of its own,
-- exactly if it is the second.
pub record IsOwnWrite (buf : ℕ) (region : Option Mr) (es : List Sge) (i : ℕ) : Type 0 where
  pub in_range : i < max_thread
  pub keyed : (e : Sge) × (mr : Mr) × (es ≡ e ∷ []) × (region ≡ some mr) × (e.lkey ≡ mr.lkey)
  pub own : in_region (buf_at buf i) es ≡ true
  pub only_first : in_region (buf_at buf 0) es ≡ (i == 0)
  pub only_second : in_region (buf_at buf 1) es ≡ (i == 1)

abbrev pub WritesOwn : ℕ → Option Mr → Request → Type 0
WritesOwn buf region (to_send wr) =
    (wr.opcode ≡ Opcode.rdma_write) × (i : ℕ) × IsOwnWrite buf region wr.sg_list i
WritesOwn buf region (to_receive wr) = ⊥

abbrev pub AllOwn : {W : Type 0} → ℕ → Option Mr → Process W → Type 0
AllOwn buf region p = All (WritesOwn buf region) (requests p.sys.calls)

write_wr-WritesOwn :
    (buf i kk dest rkey : ℕ) (mr : Mr)
    → i < max_thread
    → kk < 10
    → WritesOwn buf
        (some mr)
        (to_send (write_wr (buf_at buf i + 10 * kk) dest 10 mr.lkey rkey minus_one true 0))
unfolding write_wr fill_sge_send_wr fill_sge
write_wr-WritesOwn buf i kk dest rkey mr range lt = (
  refl,
  i,
  record {
    in_range = range;
    keyed = (_, mr, refl, refl, refl);
    own = ground arith;
    only_first = ground arith;
    only_second = ground arith;
  },
)

-- What holds of a log holds of one without new requests.
kept :
    (buf : ℕ) (region : Option Mr) {rs rs' : List Request}
    → rs' ≡ rs
    → All (WritesOwn buf region) rs
    → All (WritesOwn buf region) rs'
kept buf region e own = subst (All (WritesOwn buf region)) (sym e) own

module _ {W : Type 0} (v : Verbs W) where
  write_round-AllOwn :
      (fuel buf : ℕ) (qp : Qp) (i : ℕ) (cq : Option ℕ) (mr : Mr) (kk : ℕ) (wc : Wc) (p : Process W)
      → i < max_thread
      → kk < 10
      → AllOwn buf (some mr) p
      → AllOwn buf (some mr) (write_round v fuel buf qp i cq mr kk wc p).1
  unfolding write_round rdma_write
  write_round-AllOwn fuel buf qp i cq mr kk wc p range lt own =
      let r = p.remote_info i in
      let wr =
        write_wr (buf_at buf i + 10 * kk) (r.data_vaddr + 10 * kk) 10 mr.lkey r.r_key minus_one true
          0 in
      let posted = v.post_send qp wr p.sys.world in
      let s1 : Sys W = record {
        world = posted.1;
        calls = Call.posted_send qp wr posted.0 ∷ p.sys.calls;
      } in
      let p1 : Process W = record p {
        memory = store_bytes (buf_at buf i + 10 * kk) name_text p.memory;
        sys = s1;
      } in
      let new = write_wr-WritesOwn buf i kk (r.data_vaddr + 10 * kk) r.r_key mr range lt in
      let polled = kept buf (some mr) (requests-poll_one v fuel cq wc p1) (new, own) in
      elim (Option-cases (poll_one v fuel cq wc p1).0) [
        | inl e ↦ ground (arith, polled)
        | inr (u, e) ↦ ground (arith, polled)
      ]

  write_rounds-AllOwn :
      (fuel rounds buf : ℕ) (qp : Qp) (i : ℕ) (cq : Option ℕ) (mr : Mr) (kk : ℕ) (wc : Wc)
      (p : Process W)
      → i < max_thread
      → kk + rounds ≤ 10
      → AllOwn buf (some mr) p
      → AllOwn buf (some mr) (write_rounds v fuel rounds buf qp i cq mr kk wc p).1
  unfolding write_rounds
  write_rounds-AllOwn fuel zero buf qp i cq mr kk wc p range le own = own
  write_rounds-AllOwn fuel (suc rounds) buf qp i cq mr kk wc p range le own =
      let step = write_round-AllOwn fuel buf qp i cq mr kk wc p range (omega arith) own in
      let p' = (write_round v fuel buf qp i cq mr kk wc p).1 in
      elim (Option-cases (write_round v fuel buf qp i cq mr kk wc p).0) [
        | inl e ↦ ground (arith, step)
        | inr (u, e) ↦ ground (
          arith,
          write_rounds-AllOwn fuel rounds buf qp i cq mr (suc kk) wc p' range (omega arith) step,
        )
      ]

module _ {W : Type 0} (v : Verbs W) (n : Sockets W) where
  connect_and_write-AllOwn :
      (fuel : ℕ) (ctx : RdmaContext) (buf : ℕ) (cq : Option ℕ) (mr : Option Mr) (l : Locals)
      (wc : Wc) (i : ℕ) (p : Process W)
      → i < max_thread
      → AllOwn buf mr p
      → AllOwn buf mr (connect_and_write v n fuel ctx buf cq mr l wc i p).1
  unfolding connect_and_write
  connect_and_write-AllOwn fuel ctx buf cq none l wc i p range own =
      let (o, p1) = client_link v n ctx buf cq none l i p in
      let linked = kept buf none (client_link-Links v n ctx buf cq none l i p).no_requests own in
      elim (Option-cases o) [
        | inl e ↦ ground (arith, linked)
        | inr (q, e) ↦ elim (Option-cases q) [
          | inl e2 ↦ ground (arith, linked)
          | inr (qp, e2) ↦ ground (arith, linked)
        ]
      ]
  connect_and_write-AllOwn fuel ctx buf cq (some region) l wc i p range own =
      let mr = some region in
      let (o, p1) = client_link v n ctx buf cq mr l i p in
      let linked = kept buf mr (client_link-Links v n ctx buf cq mr l i p).no_requests own in
      elim (Option-cases o) [
        | inl e ↦ ground (arith, linked)
        | inr (q, e) ↦ elim (Option-cases q) [
          | inl e2 ↦ ground (arith, linked)
          | inr (qp, e2) ↦
              let rounds =
                write_rounds-AllOwn v fuel 10 buf qp i cq region 0 wc p1 range (omega arith)
                  linked in
              elim (Option-cases (write_rounds v fuel 10 buf qp i cq region 0 wc p1).0) [
                | inl e4 ↦ ground (arith, rounds)
                | inr (u, e4) ↦ ground (arith, rounds)
              ]
        ]
      ]

  write_connections-AllOwn :
      (fuel rounds : ℕ) (ctx : RdmaContext) (buf : ℕ) (cq : Option ℕ) (mr : Option Mr) (l : Locals)
      (wc : Wc) (i : ℕ) (p : Process W)
      → i + rounds ≤ max_thread
      → AllOwn buf mr p
      → AllOwn buf mr (write_connections v n fuel rounds ctx buf cq mr l wc i p).1
  unfolding write_connections
  write_connections-AllOwn fuel zero ctx buf cq mr l wc i p le own = own
  write_connections-AllOwn fuel (suc rounds) ctx buf cq mr l wc i p le own =
      let step = connect_and_write-AllOwn fuel ctx buf cq mr l wc i p (omega arith) own in
      let (o, p') = connect_and_write v n fuel ctx buf cq mr l wc i p in
      let rest =
        write_connections-AllOwn fuel rounds ctx buf cq mr l wc (suc i) p' (omega arith) step in
      elim (Option-cases o) [
        | inl e ↦ ground (arith, step)
        | inr (done, e) ↦ ground (arith, step, rest)
      ]

  -- However the run of the client of one-sided writes goes, and wherever it stops, every request that it
  -- posts, given a log without requests, is a write of one of its connections out of the own buffer of
  -- that connection, with the key of the region that was registered for the first buffer: so what it
  -- names lies in that region exactly if it is the first connection, and in the second buffer, for which
  -- another region was registered, exactly if it is the second.
  pub write_client-WritesOwn :
      (fuel : ℕ) (ctx0 : RdmaContext) (junk : PortAttr) (buf : ℕ) (l : Locals) (wc : Wc)
      (p : Process W)
      → requests p.sys.calls ≡ []
      → let context = (create_context v ctx0 1 gid_idx 0 junk p.sys).0.0 in
        (s : Sys W) × All
          (WritesOwn buf (create_memory_region v (buf_at buf 0) buf_size context s).0)
          (requests (write_client v n fuel ctx0 junk buf l wc p).1.sys.calls)
  unfolding write_client create_memory_region
  write_client-WritesOwn fuel ctx0 junk buf l wc p none_yet =
      let (created, s1) = create_context v ctx0 1 gid_idx 0 junk p.sys in
      let none_yet1 = requests-create_context v ctx0 1 gid_idx 0 junk p.sys in
      elim (Option-cases created.0.ctx) [
        | inl e ↦ (p.sys, ground (arith, none_yet, none_yet1))
        | inr (ctx, e) ↦
            let (cq, s2) =
              call (v.create_cq ctx raw_recv_cq_count) (Call.created_cq ctx raw_recv_cq_count) s1 in
            let (mr, s3) = create_memory_region v (buf_at buf 0) buf_size created.0 s2 in
            let (localmr, s4) = create_memory_region v (buf_at buf 1) buf_size created.0 s3 in
            let p4 : Process W = record p { sys = s4 } in
            let start : AllOwn buf mr p4 = kept buf mr (none_yet1 ∙ none_yet) tt in
            let all =
              write_connections-AllOwn fuel max_thread created.0 buf cq mr l wc 0 p4 (omega arith)
                start in
            let (o, p5) = write_connections v n fuel max_thread created.0 buf cq mr l wc 0 p4 in
            let freed = kept buf mr (requests-destroy_context v created.0 p5.sys) all in
            elim (Option-cases o) [
              | inl e5 ↦ (s2, ground (arith, all))
              | inr (u, e5) ↦ (s2, ground (arith, freed))
            ]
      ]
