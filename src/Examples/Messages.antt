-- ===== src/Examples/Messages.antt =====
-- The theorems on texts, messages and the exchange, on the network of Sim.
use nvm_rdma_examples.Prelude.{
  if◌then◌else◌, true, false, not, ◌||◌, [], ◌∷◌, ◌++◌, some, ◌≡◌, refl, length,
}
use nvm_rdma_examples.Prelude.Int.{pos, eq_int}
use nvm_rdma_examples.Text.Digits.{hex_field, emit, digit}
use nvm_rdma_examples.Sockets.{Sockets}
use nvm_rdma_examples.QueuePair.{ConnectInfo}
use nvm_rdma_examples.Gid.{wire_gid_to_gid, gid_to_wire_gid, print_words, htonl, load32}
use nvm_rdma_examples.Gid.Wire.{wire_gid_to_gid-gid_to_wire_gid}
use nvm_rdma_examples.Message.{msg_size, format_msg, parse_msg, print_info, write_text}
use nvm_rdma_examples.Message.RoundTrip.{learn, format_msg_lem, parse_msg-format_msg}
use nvm_rdma_examples.Exchange.{
  client_talk, server_talk, client_exch_data, server_exch_data, connect_loop, bind_loop, is_full,
}
use nvm_rdma_examples.Exchange.Agreement.{text_of, Connected, exchange_agrees}
use nvm_rdma_examples.Exchange.Descriptors.{Held, client_exch_data-Held, server_exch_data-Held}
use nvm_rdma_examples.Exchange.Outcomes.{server_talk_reports}
use nvm_rdma_examples.Examples.Sim.{
  Nic, net, idle_nic, at, client_info, server_info, blank_info, client_info-Fits, server_info-Fits,
  locals, locals-IsSized, roce_gid, roce_gid-IsGid,
}

wire_gid_to_gid-gid_to_wire_gid_example :
    wire_gid_to_gid 9 (gid_to_wire_gid roce_gid ++ 0 ∷ []) ≡ roce_gid
wire_gid_to_gid-gid_to_wire_gid_example =
    wire_gid_to_gid-gid_to_wire_gid 9 roce_gid (0 ∷ []) roce_gid-IsGid

-- The text of a gid, as the code prints it.
gid_to_wire_gid_test :
    gid_to_wire_gid roce_gid
    ≡ b'f' ∷ b'e' ∷ b'8' ∷ b'0' ∷ b'0' ∷ b'0' ∷ b'0' ∷ b'0' ∷ b'0' ∷ b'0' ∷ b'0' ∷ b'0' ∷ b'0'
      ∷ b'0' ∷ b'0' ∷ b'0' ∷ b'0' ∷ b'2' ∷ b'1' ∷ b'1' ∷ b'2' ∷ b'2' ∷ b'f' ∷ b'f' ∷ b'f' ∷ b'e'
      ∷ b'3' ∷ b'3' ∷ b'4' ∷ b'4' ∷ b'5' ∷ b'5' ∷ []
unfolding gid_to_wire_gid print_words hex_field emit htonl load32 digit
gid_to_wire_gid_test = refl

format_msg_lem_example :
    (format_msg client_info locals.msg
      ≡ some (print_info client_info (gid_to_wire_gid roce_gid) ++ 0 ∷ []))
    × (length (print_info client_info (gid_to_wire_gid roce_gid) ++ 0 ∷ []) ≡ 78)
format_msg_lem_example = format_msg_lem client_info locals.msg client_info-Fits refl

client_formats : format_msg client_info locals.msg ≡ some (text_of client_info)
client_formats = (format_msg_lem client_info locals.msg client_info-Fits refl).0

server_formats : format_msg server_info locals.msg ≡ some (text_of server_info)
server_formats = (format_msg_lem server_info locals.msg server_info-Fits refl).0

parse_msg-format_msg_example :
    parse_msg 5 locals.gid blank_info (text_of client_info) ≡ some (learn client_info blank_info)
parse_msg-format_msg_example =
    parse_msg-format_msg client_info blank_info 5 locals.msg locals.gid client_info-Fits refl refl
      client_formats

-- The client has the message of the server in its inbox, and the server that of the client.
abbrev client_nic : Nic
client_nic = record idle_nic { inbox = text_of server_info ∷ [] }

abbrev server_nic : Nic
server_nic = record idle_nic { inbox = text_of client_info ∷ [] }

written : (info : ConnectInfo) → length (text_of info) ≡ 78 → pos (length (text_of info)) ≡ pos 78
written info h = rw h

both-Connected :
    Connected net net
      (pos 3)
      (pos 4)
      client_nic
      server_nic
      (text_of client_info)
      (text_of server_info)
both-Connected = record {
  asked_whole = written client_info (format_msg_lem client_info locals.msg client_info-Fits refl).1;
  asked_arrives = refl;
  answered_whole =
      written server_info (format_msg_lem server_info locals.msg server_info-Fits refl).1;
  answered_arrives = refl;
}

exchange_agrees_example :
    ((client_talk net (pos 3) client_info blank_info locals (at client_nic)).0
      ≡ some (true, learn server_info blank_info))
    × ((server_talk net (pos 4) server_info blank_info locals (at server_nic)).0
        ≡ some (true, learn client_info blank_info))
exchange_agrees_example =
    exchange_agrees net net (pos 3) (pos 4) client_info server_info blank_info blank_info locals
      locals (at client_nic) (at server_nic) client_info-Fits server_info-Fits locals-IsSized
      locals-IsSized client_formats server_formats both-Connected

-- A peer that sends too little.
abbrev short_nic : Nic
short_nic = record idle_nic { inbox = (1 ∷ 2 ∷ []) ∷ [] }

short_read :
    (server_talk net (pos 4) server_info blank_info locals (at short_nic)).0
    ≡ some (true, blank_info)
unfolding server_talk is_full
short_read = refl

server_talk_reports_example :
    let (message, w) = net.read (pos 4) msg_size short_nic in
    (true
      ≡ (not (is_full message) || eq_int (net.write (pos 4) (text_of server_info) w).0 msg_size))
    × ((if is_full message then blank_info else blank_info) ≡ blank_info)
server_talk_reports_example =
    server_talk_reports net (pos 4) server_info blank_info locals (at short_nic) server_info-Fits
      refl short_read

short_answer :
    (client_talk net (pos 3) client_info blank_info locals (at short_nic)).0
    ≡ some (false, blank_info)
unfolding client_talk is_full format_msg write_text print_info hex_field emit gid_to_wire_gid
    print_words htonl load32
short_answer = refl

-- A network that takes every connection.
abbrev taking : Sockets Nic
taking = record net { connect = λ f a w. (pos 0, w); bind = λ f a w. (pos 0, w) }

short_client :
    (client_exch_data taking (pos 20000) client_info blank_info locals (at short_nic)).0
    ≡ some (false, blank_info)
unfolding client_exch_data connect_loop client_talk is_full format_msg write_text print_info
    hex_field emit gid_to_wire_gid print_words htonl load32
short_client = refl

client_exch_data-Held_example :
    Held 0
      (at short_nic)
      (client_exch_data taking (pos 20000) client_info blank_info locals (at short_nic)).1
client_exch_data-Held_example =
    client_exch_data-Held taking (λ f t w. refl) (pos 20000) client_info blank_info locals
      (at short_nic) short_client

short_server :
    (server_exch_data taking (pos 20000) server_info blank_info locals (at short_nic)).0
    ≡ some (true, blank_info)
unfolding server_exch_data bind_loop server_talk is_full
short_server = refl

server_exch_data-Held_example :
    Held 0
      (at short_nic)
      (server_exch_data taking (pos 20000) server_info blank_info locals (at short_nic)).1
server_exch_data-Held_example =
    server_exch_data-Held taking (λ f w. refl) (pos 20000) server_info blank_info locals
      (at short_nic) short_server
