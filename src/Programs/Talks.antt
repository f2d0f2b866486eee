-- ===== src/Programs/Talks.antt =====
-- The exchange over TCP posts no request.
use nvm_rdma_examples.Prelude.{ℕ, List, [], ◌∷◌, ◌≡◌, refl, arith}
use nvm_rdma_examples.Prelude.Int.{ℤ, minus_one}
use nvm_rdma_examples.Sockets.{Sockets}
use nvm_rdma_examples.Effects.{Call, Sys}
use nvm_rdma_examples.QueuePair.{ConnectInfo}
use nvm_rdma_examples.Exchange.{
  Locals, connect_loop, bind_loop, client_out, client_talk, client_exch_data, server_talk,
  server_exch_data,
}
use nvm_rdma_examples.Programs.Named.{requests}

module _ {W : Type 0} (n : Sockets W) where
  requests-connect_loop :
      (ts : List ℕ) (fd : ℤ) (s : Sys W)
      → requests (connect_loop n ts fd s).1.calls ≡ requests s.calls
  unfolding connect_loop
  requests-connect_loop [] fd s = refl
  requests-connect_loop (t ∷ ts) fd s =
      let (fd', w) = n.socket t s.world in
      let s1 : Sys W = record { world = w; calls = Call.opened_socket t fd' ∷ s.calls } in
      let (rc, w2) = n.connect fd' t w in
      let s2 : Sys W = record {
        world = n.close fd' w2;
        calls = Call.closed fd' ∷ Call.connected fd' t rc ∷ s1.calls;
      } in
      ground (arith, requests-connect_loop ts fd' s1, requests-connect_loop ts fd' s2)

  requests-bind_loop :
      (ts : List ℕ) (fd : ℤ) (s : Sys W) → requests (bind_loop n ts fd s).1.calls ≡ requests s.calls
  unfolding bind_loop
  requests-bind_loop [] fd s = refl
  requests-bind_loop (t ∷ ts) fd s =
      let (fd', w) = n.socket t s.world in
      let s1 : Sys W = record { world = w; calls = Call.opened_socket t fd' ∷ s.calls } in
      let (rc, w2) = n.bind fd' t w in
      let s2 : Sys W = record {
        world = n.close fd' w2;
        calls = Call.closed fd' ∷ Call.bound fd' t rc ∷ s1.calls;
      } in
      ground (arith, requests-bind_loop ts fd' s1, requests-bind_loop ts minus_one s2)

  requests-client_talk :
      (fd : ℤ) (local_dest rem_dest : ConnectInfo) (l : Locals) (s : Sys W)
      → requests (client_talk n fd local_dest rem_dest l s).1.calls ≡ requests s.calls
  unfolding client_talk client_out
  requests-client_talk fd local_dest rem_dest l s = ground arith

  requests-server_talk :
      (fd : ℤ) (local_dest rem_dest : ConnectInfo) (l : Locals) (s : Sys W)
      → requests (server_talk n fd local_dest rem_dest l s).1.calls ≡ requests s.calls
  unfolding server_talk
  requests-server_talk fd local_dest rem_dest l s = ground arith

  -- The requests of the log stay the same.
  pub requests-client_exch_data :
      (port : ℤ) (local_dest rem_dest : ConnectInfo) (l : Locals) (s : Sys W)
      → requests (client_exch_data n port local_dest rem_dest l s).1.calls ≡ requests s.calls
  unfolding client_exch_data
  requests-client_exch_data port local_dest rem_dest l s =
      let (r, w1) = n.format_service port s.world in
      let (found, w2) = n.getaddrinfo w1 in
      let s2 : Sys W = record {
        world = w2;
        calls = Call.got_addresses found.0 found.1 ∷ s.calls;
      } in
      let (fd, s3) = connect_loop n found.1 minus_one s2 in
      ground (
        arith,
        requests-connect_loop found.1 minus_one s2,
        requests-client_talk fd local_dest rem_dest l s3,
      )

  pub requests-server_exch_data :
      (port : ℤ) (local_dest rem_dest : ConnectInfo) (l : Locals) (s : Sys W)
      → requests (server_exch_data n port local_dest rem_dest l s).1.calls ≡ requests s.calls
  unfolding server_exch_data
  requests-server_exch_data port local_dest rem_dest l s =
      let (r, w1) = n.format_service port s.world in
      let (found, w2) = n.getaddrinfo w1 in
      let s2 : Sys W = record {
        world = w2;
        calls = Call.got_addresses found.0 found.1 ∷ s.calls;
      } in
      let (fd, s3) = bind_loop n found.1 minus_one s2 in
      let w4 = n.listen fd s3.world in
      let (connfd, w5) = n.accept fd w4 in
      let s6 : Sys W = record {
        world = n.close fd w5;
        calls = Call.closed fd ∷ Call.accepted fd connfd ∷ Call.listened fd ∷ s3.calls;
      } in
      ground (
        arith,
        requests-bind_loop found.1 minus_one s2,
        requests-server_talk connfd local_dest rem_dest l s6,
      )
