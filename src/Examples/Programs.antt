-- ===== src/Examples/Programs.antt =====
-- The theorems on the examples of nvm_ibverbs/examples.
use nvm_rdma_examples.Prelude.{
  ℕ, ◌+◌, ◌%◌, ◌≤◌, ◌<◌, true, [], ◌∷◌, none, some, ◌≡◌, refl, arith, All, ◌⊎◌, get_elem?, sym,
  append-nil,
}
use nvm_rdma_examples.Prelude.Int.{pos}
use nvm_rdma_examples.Verbs.Types.{QpType, zero_gid}
use nvm_rdma_examples.Verbs.Types.{SendWr, RecvWr}
use nvm_rdma_examples.Post.Transfer.{execute}
use nvm_rdma_examples.Programs.{buf_at, buf_size}
use nvm_rdma_examples.Programs.ReadClient.{read_first}
use nvm_rdma_examples.Programs.ReadClient.Fetched.{last_post, read_first_fetches}
use nvm_rdma_examples.Verbs.Interface.{Verbs}
use nvm_rdma_examples.QueuePair.{
  attr_to_rtr, create_queue_pair_shared, create_queue_pair, create_memory_region, modify_qp_to_init,
  modify_qp_to_rtr, modify_qp_to_rts,
}
use nvm_rdma_examples.Post.{poll_with_cq, poll_loop, rdma_send, rdma_receive, rdma_read}
use nvm_rdma_examples.Exchange.{
  client_exch_data, server_exch_data, connect_loop, bind_loop, client_talk, server_talk, is_full,
}
use nvm_rdma_examples.OneSided.{write_client}
use nvm_rdma_examples.Context.{create_context}
use nvm_rdma_examples.Bench.Lifecycle.{gid_idx}
use nvm_rdma_examples.Effects.{Sys}
use nvm_rdma_examples.OneSided.Entries.{WritesOwn, write_client-WritesOwn}
use nvm_rdma_examples.Programs.{
  Process, make_qp, open_and_fill, connect_to, poll_one, client_link, server_link, set_at, own_info,
}
use nvm_rdma_examples.Programs.Named.{requests, to_send, to_receive}
use nvm_rdma_examples.Programs.Connected.{client_link_connected}
use nvm_rdma_examples.Programs.Connected.Server.{server_link_connected}
use nvm_rdma_examples.Sockets.{Sockets}
use nvm_rdma_examples.Message.RoundTrip.{learn}
use nvm_rdma_examples.Gid.{IsGid}
use nvm_rdma_examples.Programs.ReadServer.{upper_text, keep_writing, read_server}
use nvm_rdma_examples.Programs.ReadServer.Memory.{written, keep_writing_lem}
use nvm_rdma_examples.Programs.ReadServer.First.{read_server_first}
use nvm_rdma_examples.Programs.SendServer.{send_one}
use nvm_rdma_examples.Programs.SendServer.Peer.{send_one_peer}
use nvm_rdma_examples.Programs.Peers.{last_rtr}
use nvm_rdma_examples.Programs.ReceiveClient.{read_and_receive, connect_and_receive}
use nvm_rdma_examples.Programs.ReceiveClient.Posts.{
  ReadsFirst, ReceivesOwn, connect_and_receive_posts,
}
use nvm_rdma_examples.Examples.Sim.{
  Nic, sim, net, os, sim_qp, sim_mr, start, at, context, junk, blank_info, server_info, done,
  locals, blank_context, idle_nic, server_info-Fits, client_info, client_info-Fits, locals-IsSized,
}
use nvm_rdma_examples.Os.{open_nvm}
use nvm_rdma_examples.Exchange.Agreement.{text_of}
use nvm_rdma_examples.Exchange.{buffer_after, overlay}
use nvm_rdma_examples.Message.{
  format_msg, write_text, print_info, parse_msg, scan_info, scan_field, scan_gid,
}
use nvm_rdma_examples.Text.Digits.{hex_field, emit, digit, hex, pad, undigit}
use nvm_rdma_examples.Text.Scan.{
  scan_x, scan_lx, scan_signed, skip_space, with_sign, scan_unsigned, skip_prefix, starts_digit,
  scan_char, scan_digits, is_space, saturate, scan_s, word,
}
use nvm_rdma_examples.Gid.{gid_to_wire_gid, print_words, htonl, load32}

-- A device whose every poll finds a completion.
abbrev prompt : Verbs Nic
prompt = record sim { poll_cq = λ c w. ((pos 1, some done), w) }

abbrev process : Process Nic
process = record {
  all_qp = λ i. none;
  local_info = λ i. blank_info;
  remote_info = λ i. server_info;
  memory = λ a. 0;
  sys = start;
}

write_client-WritesOwn_example :
    let context' = (create_context sim blank_context 1 gid_idx 0 junk process.sys).0.0 in
    (s : Sys Nic) × All
      (WritesOwn 8192 (create_memory_region sim (buf_at 8192 0) buf_size context' s).0)
      (requests (write_client sim net 4 blank_context junk 8192 locals done process).1.sys.calls)
write_client-WritesOwn_example =
    write_client-WritesOwn sim net 4 blank_context junk 8192 locals done process refl

read_server_first_example :
    let (o, p') = read_server sim net os 2 blank_context junk locals process in
    (o ≡ none) × (p'.all_qp 3 ≡ none)
read_server_first_example =
    read_server_first sim net os 2 blank_context junk locals 3 process (omega arith)

keep_writing_lem_example :
    let (o, p') = keep_writing 3 4096 process in
    (o ≡ none)
    × ((d : ℕ) → d < written → get_elem? upper_text (d % 10) ≡ some (p'.memory (4096 + d)))
    × ((a : ℕ) → (a < 4096) ⊎ (4096 + written ≤ a) → p'.memory a ≡ 0)
keep_writing_lem_example = keep_writing_lem 2 4096 process

sent : (send_one prompt net os 1 context (some 66) locals done 2 process).0 ≡ some tt
unfolding send_one open_and_fill open_nvm server_link make_qp create_queue_pair_shared
    create_queue_pair create_memory_region modify_qp_to_init server_exch_data bind_loop server_talk
    is_full connect_to modify_qp_to_rtr modify_qp_to_rts rdma_send poll_one poll_with_cq poll_loop
    set_at
sent = refl

send_one_peer_example :
    let p' = (send_one prompt net os 1 context (some 66) locals done 2 process).1 in
    ((t : QpType) × (last_rtr p'.sys.calls ≡ some (attr_to_rtr t server_info)))
    × (p'.remote_info 0 ≡ server_info)
send_one_peer_example =
    send_one_peer prompt net os 1 context (some 66) locals done 2 process (omega arith) sent

-- The message of the server, and a device in the state of a client that awaits it.
abbrev answered : Process Nic
answered = record process { sys = at (record idle_nic { inbox = text_of server_info ∷ [] }) }

received :
    (connect_and_receive prompt net 1 context 8192 (some 66) (some sim_mr) locals done 2 answered).0
    ≡ some true
unfolding connect_and_receive client_link make_qp create_queue_pair_shared create_queue_pair
    own_info modify_qp_to_init client_exch_data connect_loop client_talk is_full format_msg
    write_text print_info hex_field emit gid_to_wire_gid print_words htonl load32 connect_to
    modify_qp_to_rtr modify_qp_to_rts read_and_receive rdma_read rdma_receive poll_one poll_with_cq
    poll_loop set_at parse_msg scan_info scan_field scan_gid buffer_after overlay scan_x scan_lx
    scan_signed skip_space with_sign scan_unsigned skip_prefix starts_digit undigit scan_char
    scan_digits digit hex pad is_space saturate scan_s word
received = refl

connect_and_receive_posts_example :
    let r =
      connect_and_receive prompt net 1 context 8192
        (some 66)
        (some sim_mr)
        locals
        done
        2
        answered in
    (wr1 : SendWr) × (wr2 : RecvWr) × (requests r.1.sys.calls ≡ to_receive wr2 ∷ to_send wr1 ∷ [])
    × ReadsFirst 8192 sim_mr wr1
    × ReceivesOwn 8192 2 sim_mr wr2
connect_and_receive_posts_example =
    connect_and_receive_posts prompt net 1 context 8192 (some 66) sim_mr locals done 2 answered
      received

zero_gid-IsGid : IsGid zero_gid
zero_gid-IsGid = record { sixteen = refl; bytes = ground arith }

-- A network that has the message of the server for every read.
abbrev kind_net : Sockets Nic
kind_net = record net { read = λ fd k w. (some (text_of server_info), w) }

linked :
    (client_link sim kind_net context 8192 (some 66) (some sim_mr) locals 2 process).0
    ≡ some (some sim_qp)
unfolding client_link make_qp create_queue_pair_shared create_queue_pair own_info modify_qp_to_init
    client_exch_data connect_loop client_talk is_full format_msg write_text print_info hex_field
    emit gid_to_wire_gid print_words htonl load32 connect_to modify_qp_to_rtr modify_qp_to_rts
    set_at parse_msg scan_info scan_field scan_gid buffer_after overlay scan_x scan_lx scan_signed
    skip_space with_sign scan_unsigned skip_prefix starts_digit undigit scan_char scan_digits digit
    hex pad is_space saturate scan_s word
linked = refl

client_link_connected_example :
    let p' = (client_link sim kind_net context 8192 (some 66) (some sim_mr) locals 2 process).1 in
    (p'.remote_info 2 ≡ learn server_info server_info)
    × ((t : QpType) × (last_rtr p'.sys.calls
          ≡ some (attr_to_rtr t (learn server_info server_info))))
client_link_connected_example =
    client_link_connected sim kind_net context 8192 (some 66) sim_mr locals 2 process server_info
      (record {
        lid_fits = omega arith;
        gid_fits = zero_gid-IsGid;
        vaddr_fits = omega arith;
        rkey_fits = omega arith;
      })
      server_info-Fits locals-IsSized (λ fd w. ([], sym (append-nil (text_of server_info)))) linked
      (omega arith)

-- A network that has the message of the client for every read.
abbrev client_net : Sockets Nic
client_net = record net { read = λ fd k w. (some (text_of client_info), w) }

served :
    (server_link sim client_net context 4096 (some 66) locals 2 2 process).0 ≡ some (sim_qp, sim_mr)
unfolding server_link make_qp create_queue_pair_shared create_queue_pair create_memory_region
    modify_qp_to_init server_exch_data bind_loop server_talk is_full own_info format_msg write_text
    print_info hex_field emit gid_to_wire_gid print_words htonl load32 connect_to modify_qp_to_rtr
    modify_qp_to_rts set_at parse_msg scan_info scan_field scan_gid buffer_after overlay scan_x
    scan_lx scan_signed skip_space with_sign scan_unsigned skip_prefix starts_digit undigit
    scan_char scan_digits digit hex pad is_space saturate scan_s word
served = refl

server_link_connected_example :
    let p' = (server_link sim client_net context 4096 (some 66) locals 2 2 process).1 in
    ((t : QpType) × (last_rtr p'.sys.calls ≡ some (attr_to_rtr t (p'.remote_info 2))))
    × ((p'.remote_info 2 ≡ learn client_info server_info) ⊎ (p'.remote_info 2 ≡ server_info))
server_link_connected_example =
    server_link_connected sim client_net context 4096 (some 66) locals 2 process client_info
      client_info-Fits locals-IsSized (λ fd w. ([], sym (append-nil (text_of client_info)))) served
      (record {
        lid_fits = omega arith;
        gid_fits = zero_gid-IsGid;
        vaddr_fits = omega arith;
        rkey_fits = omega arith;
      })
      (omega arith)

read_first_fetches_example :
    let far = (keep_writing 3 4096 process).1.memory in
    (wr : SendWr) × (last_post
        (read_first sim 4 8192 sim_qp 2 (some 66) sim_mr done process).1.sys.calls
      ≡ some wr)
    × ((d : ℕ)
        → d < 100
        → get_elem? upper_text (d % 10)
          ≡ some ((execute wr (process.memory, far)).0 (buf_at 8192 0 + d)))
read_first_fetches_example =
    read_first_fetches sim 4 8192 sim_qp 2 (some 66) sim_mr done process 2 4096 process refl
