-- ===== src/Programs/ReceiveClient/Posts.antt =====
-- The requests of a connection of the receiving client.
use nvm_rdma_examples.Prelude.{
  ℕ, true, [], ◌∷◌, Option, some, ◌≡◌, refl, arith, Option-cases, inl, inr, ◌==◌,
}
use nvm_rdma_examples.Verbs.Types.{Qp, Mr, Wc, Sge, SendWr, RecvWr, Opcode}
use nvm_rdma_examples.Verbs.Interface.{Verbs}
use nvm_rdma_examples.Sockets.{Sockets}
use nvm_rdma_examples.QueuePair.{RdmaContext}
use nvm_rdma_examples.Post.{
  rdma_read, rdma_receive, read_wr, receive_wr, fill_sge_send_wr, fill_sge_recv_wr, fill_sge,
}
use nvm_rdma_examples.Exchange.{Locals}
use nvm_rdma_examples.Programs.{Process, buf_at, poll_one, client_link}
use nvm_rdma_examples.Programs.Named.{requests, to_send, to_receive}
use nvm_rdma_examples.Programs.Polled.{requests-poll_one}
use nvm_rdma_examples.Programs.Links.{client_link-Links}
use nvm_rdma_examples.OneSided.Entries.{in_region}
use nvm_rdma_examples.Programs.ReadClient.Inside.{InFirst}
use nvm_rdma_examples.Programs.ReceiveClient.{read_and_receive, connect_and_receive}

-- A request to read 100 bytes into the first buffer, which is the region registered.
pub record ReadsFirst (buf : ℕ) (mr : Mr) (wr : SendWr) : Type 0 where
  pub is_read : wr.opcode ≡ Opcode.rdma_read
  pub one_entry : (e : Sge) × (wr.sg_list ≡ e ∷ []) × InFirst buf e × (e.lkey ≡ mr.lkey)

-- A request to receive into the buffer of a connection, which names the key of the region of the first:
-- it is inside that region exactly if it is the first connection.
pub record ReceivesOwn (buf i : ℕ) (mr : Mr) (wr : RecvWr) : Type 0 where
  pub one_entry : (e : Sge) × (wr.sg_list ≡ e ∷ []) × (e.addr ≡ buf_at buf i) × (e.lkey ≡ mr.lkey)
  pub only_first : in_region buf wr.sg_list ≡ (i == 0)

read_wr-ReadsFirst :
    (buf dest rkey : ℕ) (mr : Mr)
    → ReadsFirst buf mr (read_wr (buf_at buf 0) dest 100 mr.lkey rkey true 0)
unfolding read_wr fill_sge_send_wr fill_sge
read_wr-ReadsFirst buf dest rkey mr = record {
  is_read = refl;
  one_entry = (_, refl, (omega arith, omega arith), refl);
}

receive_wr-ReceivesOwn :
    (buf i : ℕ) (mr : Mr) → ReceivesOwn buf i mr (receive_wr (buf_at buf i) 1500 mr.lkey 0)
unfolding receive_wr fill_sge_recv_wr fill_sge
receive_wr-ReceivesOwn buf i mr = record {
  one_entry = (_, refl, refl, refl);
  only_first = ground arith;
}

abbrev read_of : {W : Type 0} → Process W → ℕ → ℕ → Mr → SendWr
read_of p i buf mr =
    read_wr (buf_at buf 0) (p.remote_info i).data_vaddr 100 mr.lkey (p.remote_info i).r_key true 0

module _ {W : Type 0} (v : Verbs W) where
  requests-read_and_receive :
      (fuel buf : ℕ) (qp : Qp) (i : ℕ) (cq : Option ℕ) (mr : Mr) (wc : Wc) (p : Process W)
      → (read_and_receive v fuel buf qp i cq mr wc p).0 ≡ some tt
      → requests (read_and_receive v fuel buf qp i cq mr wc p).1.sys.calls
        ≡ to_receive (receive_wr (buf_at buf i) 1500 mr.lkey 0)
          ∷ to_send (read_of p i buf mr)
          ∷ requests p.sys.calls
  unfolding read_and_receive rdma_read rdma_receive
  requests-read_and_receive fuel buf qp i cq mr wc p done =
      let r = p.remote_info i in
      let p1 : Process W = record p {
        sys = (rdma_read v qp (buf_at buf 0) r.data_vaddr 100 mr.lkey r.r_key true 0 p.sys).1;
      } in
      let (o, p2) = poll_one v fuel cq wc p1 in
      let same2 = requests-poll_one v fuel cq wc p1 in
      elim (Option-cases o) [
        | inl e ↦ ground arith
        | inr (wc', e) ↦
            let p3 : Process W = record p2 {
              sys = (rdma_receive v qp (buf_at buf i) 1500 mr.lkey 0 p2.sys).1;
            } in
            let same4 = requests-poll_one v fuel cq wc' p3 in
            elim (Option-cases (poll_one v fuel cq wc' p3).0) [
              | inl e4 ↦ ground arith
              | inr (u, e4) ↦ ground (arith, same2, same4)
            ]
      ]

module _ {W : Type 0} (v : Verbs W) (n : Sockets W) where
  -- A connection of the receiving client that comes to its end has posted two requests, in this order:
  -- one to read into the first buffer, which is the region registered, and one to receive into its own
  -- buffer, which is inside that region exactly if it is the first connection; both name the key of that
  -- region.
  pub connect_and_receive_posts :
      (fuel : ℕ) (ctx : RdmaContext) (buf : ℕ) (cq : Option ℕ) (mr : Mr) (l : Locals) (wc : Wc)
      (i : ℕ) (p : Process W)
      → (connect_and_receive v n fuel ctx buf cq (some mr) l wc i p).0 ≡ some true
      → (wr1 : SendWr) × (wr2 : RecvWr) × (requests
            (connect_and_receive v n fuel ctx buf cq (some mr) l wc i p).1.sys.calls
          ≡ to_receive wr2 ∷ to_send wr1 ∷ requests p.sys.calls)
        × ReadsFirst buf mr wr1
        × ReceivesOwn buf i mr wr2
  unfolding connect_and_receive
  connect_and_receive_posts fuel ctx buf cq mr l wc i p done =
      let (o, p1) = client_link v n ctx buf cq (some mr) l i p in
      let same1 = (client_link-Links v n ctx buf cq (some mr) l i p).no_requests in
      elim (Option-cases o) [
        | inl e ↦ ground arith
        | inr (q, e) ↦ elim (Option-cases q) [
          | inl e2 ↦ ground arith
          | inr (qp, e2) ↦
              let (u, p4) = read_and_receive v fuel buf qp i cq mr wc p1 in
              elim (Option-cases u) [
                | inl e4 ↦ ground arith
                | inr (t, e4) ↦ (
                  read_of p1 i buf mr,
                  receive_wr (buf_at buf i) 1500 mr.lkey 0,
                  ground (arith, same1, requests-read_and_receive v fuel buf qp i cq mr wc p1 e4),
                  read_wr-ReadsFirst buf (p1.remote_info i).data_vaddr (p1.remote_info i).r_key mr,
                  receive_wr-ReceivesOwn buf i mr,
                )
              ]
        ]
      ]
