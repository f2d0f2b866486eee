-- ===== src/Exchange/Streams.antt =====
-- The exchange over a connection that may break a message up, cut it short, or fail.
use nvm_rdma_examples.Prelude.{
  Bool, true, false, [], ◌∷◌, ◌++◌, Option, none, some, ◌≡◌, refl, sym, ap, ◌∙◌, ◌⊎◌, inl, inr,
  arith, length, length-append, append-nil, Bool-cases, ◌||◌,
}
use nvm_rdma_examples.Prelude.Int.{ℤ, eq_int, minus_one, is_neg}
use nvm_rdma_examples.Text.Digits.{Bytes}
use nvm_rdma_examples.Sockets.{Sockets}
use nvm_rdma_examples.Effects.{Call, Sys}
use nvm_rdma_examples.QueuePair.{ConnectInfo}
use nvm_rdma_examples.Message.{msg_size, Fits}
use nvm_rdma_examples.Message.RoundTrip.{learn, format_msg_lem}
use nvm_rdma_examples.Exchange.{
  Locals, connect_loop, bind_loop, client_exch_data, server_exch_data, is_full, client_out,
  client_talk, server_talk,
}
use nvm_rdma_examples.Exchange.Agreement.{IsSized, text_of, buffer_after_full, parse_msg-text_of}

-- What is read is the start of a text, as much of it as has arrived; a read may also fail.
abbrev pub IsStartOf : Bytes → Option Bytes → Type 0
IsStartOf text none = Unit {0}
IsStartOf text (some bytes) = (rest : Bytes) × (text ≡ bytes ++ rest)

no_more : (rest : Bytes) → length rest ≡ 0 → rest ≡ []
no_more [] h = refl
no_more (c ∷ rest) h = absurd (omega arith)

-- A read that fills the buffer has the whole of a message.
full_start :
    (text : Bytes) (o : Option Bytes)
    → length text ≡ msg_size
    → IsStartOf text o
    → is_full o ≡ true
    → o ≡ some text
unfolding is_full
full_start text none h start e = cc
full_start text (some bytes) h (rest, same) e =
    let full : length bytes ≡ msg_size = ground arith in
    let left : length rest ≡ 0 =
      omega (arith, ap (λ t. length t) same, length-append bytes rest, h, full) in
    let all : text ≡ bytes = same ∙ ap (λ t. bytes ++ t) (no_more rest left) ∙ append-nil bytes in
    ap (λ t. some t) (sym all)

module _ {W : Type 0} (n : Sockets W) (fd : ℤ) (local_dest peer rem_dest : ConnectInfo) (l : Locals)
    (s : Sys W) (fits : Fits local_dest) (peer_fits : Fits peer) (sized : IsSized l) where
  -- The client returns true with the data of the peer, or false with what it had.
  client_talk_safe :
      IsStartOf (text_of peer) (n.read fd msg_size (n.write fd (text_of local_dest) s.world).1).0
      → ((client_talk n fd local_dest rem_dest l s).0 ≡ some (true, learn peer rem_dest))
        ⊎ ((client_talk n fd local_dest rem_dest l s).0 ≡ some (false, rem_dest))
  unfolding client_talk client_out
  client_talk_safe start =
      let f = format_msg_lem local_dest l.msg fits sized.msg_sized in
      let p = format_msg_lem peer l.msg peer_fits sized.msg_sized in
      let (num, w1) = n.write fd (text_of local_dest) s.world in
      let o = (n.read fd msg_size w1).0 in
      elim (Bool-cases (eq_int num msg_size)) [
        | inl e ↦ elim (Bool-cases (is_full o)) [
          | inl full ↦ inl (
              ground (
                arith,
                f.0,
                full_start (text_of peer) o p.1 start full,
                buffer_after_full (text_of peer) (text_of local_dest) p.1 f.1,
                parse_msg-text_of peer rem_dest l peer_fits sized,
              ))
          | inr short ↦ inr (ground (arith, f.0))
        ]
        | inr e ↦ inr (ground (arith, f.0))
      ]

  -- The server returns the data of the peer, with a pointer or without, or a pointer to what it had.
  server_talk_safe :
      IsStartOf (text_of peer) (n.read fd msg_size s.world).0
      → ((done : Bool) × ((server_talk n fd local_dest rem_dest l s).0
            ≡ some (done, learn peer rem_dest)))
        ⊎ ((server_talk n fd local_dest rem_dest l s).0 ≡ some (true, rem_dest))
  unfolding server_talk
  server_talk_safe start =
      let p = format_msg_lem peer l.msg peer_fits sized.msg_sized in
      let f = format_msg_lem local_dest (text_of peer) fits p.1 in
      let (o, w1) = n.read fd msg_size s.world in
      elim (Bool-cases (is_full o)) [
        | inl full ↦ inl (
          eq_int (n.write fd (text_of local_dest) w1).0 msg_size,
          ground (
            arith,
            f.0,
            full_start (text_of peer) o p.1 start full,
            buffer_after_full (text_of peer) l.msg p.1 sized.msg_sized,
            parse_msg-text_of peer rem_dest l peer_fits sized,
          ),
        )
        | inr short ↦ inr (ground arith)
      ]

module _ {C S : Type 0} (nc : Sockets C) (ns : Sockets S) (fd connfd : ℤ) where
  -- However the connection breaks the two messages up, cuts them short or fails, with connection data
  -- that fit their fields and buffers of their sizes, neither side learns anything but the whole data of
  -- the other: the client has them exactly where it returns true, and the server has them or returns a
  -- pointer to what it had.
  pub exchange_safe :
      (client server c_rem s_rem : ConnectInfo) (cl sl : Locals) (c : Sys C) (s : Sys S)
      → Fits client
      → Fits server
      → IsSized cl
      → IsSized sl
      → IsStartOf (text_of server) (nc.read fd msg_size (nc.write fd (text_of client) c.world).1).0
      → IsStartOf (text_of client) (ns.read connfd msg_size s.world).0
      → (((client_talk nc fd client c_rem cl c).0 ≡ some (true, learn server c_rem))
          ⊎ ((client_talk nc fd client c_rem cl c).0 ≡ some (false, c_rem)))
        × (((done : Bool) × ((server_talk ns connfd server s_rem sl s).0
                ≡ some (done, learn client s_rem)))
            ⊎ ((server_talk ns connfd server s_rem sl s).0 ≡ some (true, s_rem)))
  exchange_safe client server c_rem s_rem cl sl c s fc fs zc zs up down = (
    client_talk_safe nc fd client server c_rem cl c fc fs zc up,
    server_talk_safe ns connfd server client s_rem sl s fs fc zs down,
  )

module _ {W : Type 0} (n : Sockets W) (port : ℤ) (local_dest peer rem_dest : ConnectInfo)
    (l : Locals) (s : Sys W) (fits : Fits local_dest) (peer_fits : Fits peer)
    (sized : IsSized l) where
  -- Where whatever is read is the start of the message of a peer, the client returns true with the data
  -- of that peer, or false with what it had, on every path.
  pub client_exch_data_safe :
      ((fd : ℤ) (w : W) → IsStartOf (text_of peer) (n.read fd msg_size w).0)
      → ((client_exch_data n port local_dest rem_dest l s).0 ≡ some (true, learn peer rem_dest))
        ⊎ ((client_exch_data n port local_dest rem_dest l s).0 ≡ some (false, rem_dest))
  unfolding client_exch_data
  client_exch_data_safe starts =
      let (formatted, w1) = n.format_service port s.world in
      let (found, w2) = n.getaddrinfo w1 in
      let s2 : Sys W = record {
        world = w2;
        calls = Call.got_addresses found.0 found.1 ∷ s.calls;
      } in
      let (fd, s3) = connect_loop n found.1 minus_one s2 in
      let talk =
        client_talk_safe n fd local_dest peer rem_dest l s3 fits peer_fits sized (starts fd _) in
      elim (Bool-cases (is_neg formatted || is_neg found.0 || is_neg fd)) [
        | inl e ↦ inr (ground arith)
        | inr e ↦ elim talk [ inl t ↦ inl (ground (arith, t)) | inr t ↦ inr (ground (arith, t)) ]
      ]

  -- On every path the server returns the data of that peer, or what it had, whatever it reports.
  pub server_exch_data_safe :
      ((fd : ℤ) (w : W) → IsStartOf (text_of peer) (n.read fd msg_size w).0)
      → (done : Bool) × (((server_exch_data n port local_dest rem_dest l s).0
            ≡ some (done, learn peer rem_dest))
          ⊎ ((server_exch_data n port local_dest rem_dest l s).0 ≡ some (done, rem_dest)))
  unfolding server_exch_data
  server_exch_data_safe starts =
      let (formatted, w1) = n.format_service port s.world in
      let (found, w2) = n.getaddrinfo w1 in
      let s2 : Sys W = record {
        world = w2;
        calls = Call.got_addresses found.0 found.1 ∷ s.calls;
      } in
      let (fd, s3) = bind_loop n found.1 minus_one s2 in
      let (connfd, w5) = n.accept fd (n.listen fd s3.world) in
      let s6 : Sys W = record {
        world = n.close fd w5;
        calls = Call.closed fd ∷ Call.accepted fd connfd ∷ Call.listened fd ∷ s3.calls;
      } in
      let talk =
        server_talk_safe n connfd local_dest peer rem_dest l s6 fits peer_fits sized
          (starts connfd _) in
      elim (Bool-cases (is_neg formatted || is_neg found.0 || is_neg fd)) [
        | inl e ↦ (false, inr (ground arith))
        | inr e ↦ elim talk [
          | inl (done, t) ↦ (done, inl (ground (arith, t)))
          | inr t ↦ (true, inr (ground (arith, t)))
        ]
      ]
