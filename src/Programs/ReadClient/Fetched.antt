-- ===== src/Programs/ReadClient/Fetched.antt =====
-- The client of reads and the server of reads together: what the requests of the client bring.
use nvm_rdma_examples.Prelude.{
  ℕ, suc, ◌+◌, ◌-◌, ◌%◌, ◌<◌, true, List, [], ◌∷◌, Option, none, some, ◌≡◌, refl, arith, ap, ◌∙◌,
  sym, get_elem?,
}
use nvm_rdma_examples.Verbs.Types.{Qp, Mr, Wc, SendWr}
use nvm_rdma_examples.Verbs.Interface.{Verbs}
use nvm_rdma_examples.Effects.{Call, Sys}
use nvm_rdma_examples.Post.{rdma_read, read_wr}
use nvm_rdma_examples.Post.Transfer.{Memory, copy, execute, execute-read_wr}
use nvm_rdma_examples.Programs.{Process, buf_at}
use nvm_rdma_examples.Programs.Polled.{poll_one_unseen}
use nvm_rdma_examples.Programs.ReadClient.{read_first}
use nvm_rdma_examples.Programs.ReadServer.{upper_text, keep_writing}
use nvm_rdma_examples.Programs.ReadServer.Memory.{keep_writing_lem}

-- The latest request that was posted to a send queue.
abbrev pub last_post : List Call → Option SendWr
last_post [] = none
last_post (Call.posted_send qp wr res ∷ cs) = some wr
last_post (_ ∷ cs) = last_post cs

copy_lem :
    (source : Memory) (from : ℕ) (target : Memory) (to size d : ℕ)
    → d < size
    → copy source from target to size (to + d) ≡ source (from + d)
unfolding copy
copy_lem source from target to size d h =
    let place : to + d - to ≡ d = omega arith in ground (arith, place)

module _ {C S : Type 0} (v : Verbs C) where
  -- Where the data address of a connection is the mapping of the server, and the server has gone through
  -- its loop, the latest request of a round of the client, carried out on the two memories, brings the
  -- first 100 bytes of the texts of the server into the first buffer of the client.
  pub read_first_fetches :
      (fuel buf : ℕ) (qp : Qp) (i : ℕ) (cq : Option ℕ) (mr : Mr) (wc : Wc) (p : Process C)
      (passes nvmbuf : ℕ) (server : Process S)
      → (p.remote_info i).data_vaddr ≡ nvmbuf
      → let far = (keep_writing (suc passes) nvmbuf server).1.memory in
        (wr : SendWr) × (last_post (read_first v fuel buf qp i cq mr wc p).1.sys.calls ≡ some wr)
        × ((d : ℕ)
            → d < 100
            → get_elem? upper_text (d % 10)
              ≡ some ((execute wr (p.memory, far)).0 (buf_at buf 0 + d)))
  unfolding read_first rdma_read
  read_first_fetches fuel buf qp i cq mr wc p passes nvmbuf server e =
      let r = p.remote_info i in
      let wr = read_wr (buf_at buf 0) r.data_vaddr 100 mr.lkey r.r_key true 0 in
      let posted = v.post_send qp wr p.sys.world in
      let s1 : Sys C = record {
        world = posted.1;
        calls = Call.posted_send qp wr posted.0 ∷ p.sys.calls;
      } in
      let far = (keep_writing (suc passes) nvmbuf server).1.memory in
      let texts = (keep_writing_lem passes nvmbuf server).1 in
      (
        wr,
        poll_one_unseen v last_post (λ c n o cs. refl) fuel cq wc (record p { sys = s1 }),
        λ d h.
            let brought =
              ap (λ (m : Memory × Memory). m.0 (buf_at buf 0 + d))
                (execute-read_wr (buf_at buf 0) r.data_vaddr 100 mr.lkey r.r_key true 0
                  (p.memory, far) (omega arith))
              ∙ copy_lem far r.data_vaddr p.memory (buf_at buf 0) 100 d h
              ∙ ap (λ x. far (x + d)) e in
            texts d (omega arith) ∙ ap (λ x. some x) (sym brought),
      )
