-- ===== src/Exchange/Descriptors.antt =====
-- The descriptors that the exchange opens and closes.
use nvm_rdma_examples.Prelude.{
  ℕ, ◌+◌, Bool, true, false, List, [], ◌∷◌, some, ◌≡◌, refl, arith, if◌then◌else◌,
}
use nvm_rdma_examples.Prelude.Int.{ℤ, minus_one, is_neg, is_zero}
use nvm_rdma_examples.Sockets.{Sockets}
use nvm_rdma_examples.Effects.{Call, Sys}
use nvm_rdma_examples.Ledger.{total, Exceeds}
use nvm_rdma_examples.QueuePair.{ConnectInfo}
use nvm_rdma_examples.Exchange.{
  Locals, connect_loop, bind_loop, client_talk, client_exch_data, server_talk, server_exch_data,
}

abbrev pub opens : Call → ℕ
opens (Call.opened_socket t fd) = if is_neg fd then 0 else 1
opens (Call.accepted fd connfd) = if is_neg connfd then 0 else 1
opens _ = 0

abbrev pub closes : Call → ℕ
closes (Call.closed fd) = 1
closes _ = 0

-- Between two states, `k` more descriptors were opened than closed.
abbrev pub Held : {W : Type 0} → ℕ → Sys W → Sys W → Type 0
Held k s s' = Exceeds opens closes k s.calls s'.calls

module _ {W : Type 0} (n : Sockets W) where
  connect_loop-Held :
      ((fd : ℤ) (t : ℕ) (w : W) → is_zero (n.connect fd t w).0 ≡ true)
      → (ts : List ℕ) (sockfd : ℤ) (s : Sys W) → is_neg sockfd ≡ true
      → Held
          (if is_neg (connect_loop n ts sockfd s).0 then 0 else 1)
          s
          (connect_loop n ts sockfd s).1
  unfolding connect_loop
  connect_loop-Held all [] sockfd s h = ground arith
  connect_loop-Held all (t ∷ ts) sockfd s h =
      let fd = (n.socket t s.world).0 in
      let s' : Sys W = record {
        world = (n.socket t s.world).1;
        calls = Call.opened_socket t fd ∷ s.calls;
      } in
      ground (arith, connect_loop-Held all ts fd s', all fd t s'.world)

  -- The talk of the client closes its descriptor exactly where it fails.
  client_talk_held :
      (fd : ℤ) (local_dest rem_dest : ConnectInfo) (l : Locals) (s : Sys W) {done : Bool}
      {info : ConnectInfo}
      → (client_talk n fd local_dest rem_dest l s).0 ≡ some (done, info)
      → total opens (client_talk n fd local_dest rem_dest l s).1.calls
          + total closes s.calls
          + (if done then 0 else 1)
        ≡ total closes (client_talk n fd local_dest rem_dest l s).1.calls + total opens s.calls
  unfolding client_talk
  client_talk_held fd local_dest rem_dest l s h = ground arith

  -- The server closes the descriptor of the connection on every path.
  server_talk_held :
      (fd : ℤ) (local_dest rem_dest : ConnectInfo) (l : Locals) (s : Sys W) {r : Bool × ConnectInfo}
      → (server_talk n fd local_dest rem_dest l s).0 ≡ some r
      → total opens (server_talk n fd local_dest rem_dest l s).1.calls + total closes s.calls + 1
        ≡ total closes (server_talk n fd local_dest rem_dest l s).1.calls + total opens s.calls
  unfolding server_talk
  server_talk_held fd local_dest rem_dest l s h = ground arith

  bind_loop-Held :
      (ts : List ℕ) (sockfd : ℤ) (s : Sys W)
      → is_neg sockfd ≡ true
      → Held (if is_neg (bind_loop n ts sockfd s).0 then 0 else 1) s (bind_loop n ts sockfd s).1
  unfolding bind_loop
  bind_loop-Held [] sockfd s h = ground arith
  bind_loop-Held (t ∷ ts) sockfd s h =
      let fd = (n.socket t s.world).0 in
      let s1 : Sys W = record {
        world = (n.socket t s.world).1;
        calls = Call.opened_socket t fd ∷ s.calls;
      } in
      let bound = n.bind fd t s1.world in
      let s2 : Sys W = record {
        world = n.close fd bound.1;
        calls = Call.closed fd ∷ Call.bound fd t bound.0 ∷ s1.calls;
      } in
      ground (arith, bind_loop-Held ts fd s1, bind_loop-Held ts minus_one s2)

  -- Where every attempt to connect is taken: a client that returns true leaves one descriptor open,
  -- and a client that returns false has closed all that it opened.
  pub client_exch_data-Held :
      ((fd : ℤ) (t : ℕ) (w : W) → is_zero (n.connect fd t w).0 ≡ true)
      → (sock_port : ℤ) (local_dest rem_dest : ConnectInfo) (l : Locals) (s : Sys W) {done : Bool}
        {info : ConnectInfo}
      → (client_exch_data n sock_port local_dest rem_dest l s).0 ≡ some (done, info)
      → Held (if done then 1 else 0) s (client_exch_data n sock_port local_dest rem_dest l s).1
  unfolding client_exch_data
  client_exch_data-Held all sock_port local_dest rem_dest l s {done} {info} h =
      let w1 = (n.format_service sock_port s.world).1 in
      let found = n.getaddrinfo w1 in
      let s2 : Sys W = record {
        world = found.1;
        calls = Call.got_addresses found.0.0 found.0.1 ∷ s.calls;
      } in
      let (fd, s3) = connect_loop n found.0.1 minus_one s2 in
      ground (
        arith,
        connect_loop-Held all found.0.1 minus_one s2 refl,
        client_talk_held fd local_dest rem_dest l s3 {done = done} {info = info},
      )

  -- Where every `accept` yields a descriptor, the server has closed all that it opened, whatever it
  -- returns.
  pub server_exch_data-Held :
      ((fd : ℤ) (w : W) → is_neg (n.accept fd w).0 ≡ false)
      → (sock_port : ℤ) (local_dest rem_dest : ConnectInfo) (l : Locals) (s : Sys W)
        {r : Bool × ConnectInfo}
      → (server_exch_data n sock_port local_dest rem_dest l s).0 ≡ some r
      → Held 0 s (server_exch_data n sock_port local_dest rem_dest l s).1
  unfolding server_exch_data
  server_exch_data-Held all sock_port local_dest rem_dest l s {r} h =
      let w1 = (n.format_service sock_port s.world).1 in
      let found = n.getaddrinfo w1 in
      let s2 : Sys W = record {
        world = found.1;
        calls = Call.got_addresses found.0.0 found.0.1 ∷ s.calls;
      } in
      let (fd, s3) = bind_loop n found.0.1 minus_one s2 in
      let a = n.accept fd (n.listen fd s3.world) in
      let s4 : Sys W = record {
        world = n.close fd a.1;
        calls = Call.closed fd ∷ Call.accepted fd a.0 ∷ Call.listened fd ∷ s3.calls;
      } in
      ground (
        arith,
        bind_loop-Held found.0.1 minus_one s2 refl,
        all fd (n.listen fd s3.world),
        server_talk_held a.0 local_dest rem_dest l s4 {r = r},
      )
