-- ===== src/Exchange/Agreement.antt =====
-- The two sides of the exchange over one connection.
use nvm_rdma_examples.Prelude.{true, [], ◌∷◌, ◌++◌, some, ◌≡◌, sym, ◌∙◌, arith, length, append-nil}
use nvm_rdma_examples.Prelude.Int.{ℤ, pos}
use nvm_rdma_examples.Text.Digits.{Bytes}
use nvm_rdma_examples.Sockets.{Sockets}
use nvm_rdma_examples.Effects.{Sys}
use nvm_rdma_examples.QueuePair.{ConnectInfo}
use nvm_rdma_examples.Gid.{gid_to_wire_gid}
use nvm_rdma_examples.Message.{msg_size, gid_size, format_msg, parse_msg, print_info, Fits}
use nvm_rdma_examples.Message.RoundTrip.{learn, format_msg_lem, parse_msg-format_msg, drop_all}
use nvm_rdma_examples.Exchange.{Locals, is_full, buffer_after, client_talk, server_talk}

-- The buffers have their sizes.
pub record IsSized (l : Locals) : Type 0 where
  pub msg_sized : length l.msg ≡ msg_size
  pub gid_sized : length l.gid ≡ gid_size

pub is_full_lem : (bytes : Bytes) → length bytes ≡ msg_size → is_full (some bytes) ≡ true
unfolding is_full
is_full_lem bytes h = ground arith

-- A whole message replaces the buffer.
pub buffer_after_full :
    (bytes buf : Bytes)
    → length bytes ≡ msg_size
    → length buf ≡ msg_size
    → buffer_after (some bytes) buf ≡ bytes
unfolding buffer_after
buffer_after_full bytes buf h k = rw (drop_all (length bytes) buf (k ∙ sym h)) (append-nil bytes)

-- The message of connection data that fit.
abbrev pub text_of : ConnectInfo → Bytes
text_of info = print_info info (gid_to_wire_gid info.gid) ++ 0 ∷ []

pub parse_msg-text_of :
    (sent info : ConnectInfo) (l : Locals)
    → Fits sent
    → IsSized l
    → parse_msg l.junk l.gid info (text_of sent) ≡ some (learn sent info)
parse_msg-text_of sent info l h sized =
    parse_msg-format_msg sent info l.junk l.msg l.gid h sized.msg_sized sized.gid_sized
      (format_msg_lem sent l.msg h sized.msg_sized).0

module _ {W : Type 0} (n : Sockets W) (fd : ℤ) (local_dest peer rem_dest : ConnectInfo) (l : Locals)
    (s : Sys W) (fits : Fits local_dest) (peer_fits : Fits peer) (sized : IsSized l) where
  abbrev own_text : Bytes
  own_text = text_of local_dest

  -- The client sends its own data, and returns true with the data of the peer.
  pub client_talk_learns :
      (n.write fd (text_of local_dest) s.world).0 ≡ pos msg_size
      → (n.read fd msg_size (n.write fd (text_of local_dest) s.world).1).0 ≡ some (text_of peer)
      → (client_talk n fd local_dest rem_dest l s).0 ≡ some (true, learn peer rem_dest)
  unfolding client_talk
  client_talk_learns w r =
      let f = format_msg_lem local_dest l.msg fits sized.msg_sized in
      let p = format_msg_lem peer l.msg peer_fits sized.msg_sized in
      ground (
        arith,
        f.0,
        is_full_lem (text_of peer) p.1,
        buffer_after_full (text_of peer) own_text p.1 f.1,
        parse_msg-text_of peer rem_dest l peer_fits sized,
      )

  -- The server reads the data of the peer, answers with its own, and returns a pointer.
  pub server_talk_learns :
      (n.read fd msg_size s.world).0 ≡ some (text_of peer)
      → (n.write fd (text_of local_dest) (n.read fd msg_size s.world).1).0 ≡ pos msg_size
      → (server_talk n fd local_dest rem_dest l s).0 ≡ some (true, learn peer rem_dest)
  unfolding server_talk
  server_talk_learns r w =
      let p = format_msg_lem peer l.msg peer_fits sized.msg_sized in
      ground (
        arith,
        format_msg_lem local_dest (text_of peer) fits p.1,
        is_full_lem (text_of peer) p.1,
        buffer_after_full (text_of peer) l.msg p.1 sized.msg_sized,
        parse_msg-text_of peer rem_dest l peer_fits sized,
      )

-- The two sides of one connection: the server reads the bytes that the client wrote, and the client
-- reads the bytes that the server wrote.
pub record Connected {C S : Type 0} (nc : Sockets C) (ns : Sockets S) (fd connfd : ℤ) (c : C)
    (s : S) (asked answered : Bytes) : Type 0 where
  pub asked_whole : (nc.write fd asked c).0 ≡ pos msg_size
  pub asked_arrives : (ns.read connfd msg_size s).0 ≡ some asked
  pub answered_whole : (ns.write connfd answered (ns.read connfd msg_size s).1).0 ≡ pos msg_size
  pub answered_arrives : (nc.read fd msg_size (nc.write fd asked c).1).0 ≡ some answered

module _ {C S : Type 0} (nc : Sockets C) (ns : Sockets S) (fd connfd : ℤ) where
  -- Over a connection on which each side writes its message whole and reads what the other wrote,
  -- with connection data that fit their fields and buffers of their sizes, both functions succeed:
  -- the client learns the data of the server, and the server those of the client.
  pub exchange_agrees :
      (client server c_rem s_rem : ConnectInfo) (cl sl : Locals) (c : Sys C) (s : Sys S)
      {asked answered : Bytes}
      → Fits client
      → Fits server
      → IsSized cl
      → IsSized sl
      → format_msg client cl.msg ≡ some asked
      → format_msg server sl.msg ≡ some answered
      → Connected nc ns fd connfd c.world s.world asked answered
      → ((client_talk nc fd client c_rem cl c).0 ≡ some (true, learn server c_rem))
        × ((server_talk ns connfd server s_rem sl s).0 ≡ some (true, learn client s_rem))
  exchange_agrees client server c_rem s_rem cl sl c s {asked} {answered} fc fs zc zs ec es k =
      let a : text_of client ≡ asked = cc ((format_msg_lem client cl.msg fc zc.msg_sized).0) in
      let b : text_of server ≡ answered = cc ((format_msg_lem server sl.msg fs zs.msg_sized).0) in
      (
        client_talk_learns nc fd client server c_rem cl c fc fs zc (rw a k.asked_whole)
            (rw (a, b) k.answered_arrives),
        server_talk_learns ns connfd server client s_rem sl s fs fc zs (rw a k.asked_arrives)
            (rw b k.answered_whole),
      )
