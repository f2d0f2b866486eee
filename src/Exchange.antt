-- ===== src/Exchange.antt =====
-- The exchange of connection data over TCP, of nvm_ibverbs/src/rdma_common.cc: `client_exch_data` and
-- `server_exch_data`. A result `none` means that a buffer overflowed.
pub mod Agreement
pub mod Descriptors
pub mod Outcomes
pub mod Streams
use nvm_rdma_examples.Prelude.{
  ℕ, zero, suc, Bool, true, false, List, [], ◌∷◌, ◌++◌, Option, none, some, if◌then◌else◌, length,
  drop,
}
use nvm_rdma_examples.Prelude.Int.{ℤ, pos, minus_one, is_neg, is_zero, eq_int}
use nvm_rdma_examples.Text.Digits.{Bytes}
use nvm_rdma_examples.Sockets.{Sockets}
use nvm_rdma_examples.Effects.{Call, M, pure, ◌>>=◌, ◌>>◌, call, run, quiet}
use nvm_rdma_examples.QueuePair.{ConnectInfo}
use nvm_rdma_examples.Message.{msg_size, gid_size, format_msg, parse_msg}

-- What the uninitialised locals of a call hold: the buffers `msg` and `gid`, and the `v32` of
-- `wire_gid_to_gid`.
pub record Locals : Type 0 where
  pub msg : Bytes
  pub gid : Bytes
  pub junk : ℕ

-- The buffer after bytes were read to its start.
unfoldable pub overlay : Bytes → Bytes → Bytes
overlay bytes buf = bytes ++ drop (length bytes) buf

-- `read(...) == sizeof(msg)`
unfoldable pub is_full : Option Bytes → Bool
is_full none = false
is_full (some bytes) = eq_int (pos (length bytes)) msg_size

unfoldable pub buffer_after : Option Bytes → Bytes → Bytes
unfolding overlay
buffer_after none buf = buf
buffer_after (some bytes) buf = overlay bytes buf

-- The bytes of "done" with the terminator.
abbrev pub done_text : Bytes
done_text = b'd' ∷ b'o' ∷ b'n' ∷ b'e' ∷ 0 ∷ []

module _ {W : Type 0} (n : Sockets W) where
  -- The loop over the addresses. A descriptor that could not connect is closed, and kept in `sockfd`.
  unfoldable pub connect_loop : List ℕ → ℤ → M W ℤ
  connect_loop [] sockfd = pure sockfd
  connect_loop (t ∷ ts) sockfd = do
    fd ← call (n.socket t) (Call.opened_socket t)
    let next = connect_loop ts fd
    (if is_neg fd then next else (do
      rc ← call (n.connect fd t) (Call.connected fd t)
      (if is_zero rc then pure fd else (do run (n.close fd) (Call.closed fd); next))))

  -- The loop of the server: a descriptor that could not be bound is closed, and forgotten.
  unfoldable pub bind_loop : List ℕ → ℤ → M W ℤ
  bind_loop [] sockfd = pure sockfd
  bind_loop (t ∷ ts) sockfd = do
    fd ← call (n.socket t) (Call.opened_socket t)
    (if is_neg fd then bind_loop ts fd else (do
      rc ← call (n.bind fd t) (Call.bound fd t)
      (if is_zero rc
          then pure fd
          else (do run (n.close fd) (Call.closed fd); bind_loop ts minus_one))))

  -- `goto out`: the descriptor is closed, and the result is false.
  unfoldable pub client_out : ℤ → ConnectInfo → M W (Option (Bool × ConnectInfo))
  client_out sockfd rem_dest = do
    run (n.close sockfd) (Call.closed sockfd)
    pure (some (false, rem_dest))

  -- After the connection: send the message, read the answer, confirm, and take the answer apart.
  unfoldable pub client_talk :
      ℤ → ConnectInfo → ConnectInfo → Locals → M W (Option (Bool × ConnectInfo))
  unfolding client_out
  client_talk sockfd local_dest rem_dest l = elim (format_msg local_dest l.msg) [
    | none ↦ pure none
    | some msg ↦ (do
      write_num ← call (n.write sockfd msg) (Call.sent sockfd msg)
      (if eq_int write_num msg_size
          then (do
            bytes ← call (n.read sockfd msg_size) (Call.received sockfd)
            (if is_full bytes
                then (do
                  call (n.write sockfd done_text) (Call.sent sockfd done_text)
                  pure (elim (parse_msg l.junk l.gid rem_dest (buffer_after bytes msg)) [
                    | none ↦ none
                    | some info ↦ some (true, info)
                  ]))
                else client_out sockfd rem_dest))
          else client_out sockfd rem_dest))
  ]

  -- The result, and what `*rem_dest` holds afterwards.
  unfoldable pub client_exch_data :
      ℤ → ConnectInfo → ConnectInfo → Locals → M W (Option (Bool × ConnectInfo))
  client_exch_data sock_port local_dest rem_dest l = do
    formatted ← quiet (n.format_service sock_port)
    (if is_neg formatted then pure (some (false, rem_dest)) else (do
      found ← call n.getaddrinfo (λ r. Call.got_addresses r.0 r.1)
      (if is_neg found.0 then pure (some (false, rem_dest)) else (do
        sockfd ← connect_loop found.1 minus_one
        (if is_neg sockfd
            then pure (some (false, rem_dest))
            else client_talk sockfd local_dest rem_dest l)))))

  -- After `accept`: read the message, take it apart, and answer. `goto out` closes the descriptor.
  -- The result says whether the pointer returned is not null; where the answer could not be sent,
  -- the structure is freed.
  unfoldable pub server_talk :
      ℤ → ConnectInfo → ConnectInfo → Locals → M W (Option (Bool × ConnectInfo))
  server_talk connfd local_dest rem_dest l = do
    bytes ← call (n.read connfd msg_size) (Call.received connfd)
    let msg = buffer_after bytes l.msg
    (if is_full bytes
        then elim (parse_msg l.junk l.gid rem_dest msg) [
          | none ↦ pure none
          | some info ↦ elim (format_msg local_dest msg) [
            | none ↦ pure none
            | some answer ↦ (do
              write_num ← call (n.write connfd answer) (Call.sent connfd answer)
              (if eq_int write_num msg_size
                  then (do
                    call (n.read connfd msg_size) (Call.received connfd)
                    run (n.close connfd) (Call.closed connfd)
                    pure (some (true, info)))
                  else (do
                    run (λ w. w) Call.freed_info
                    run (n.close connfd) (Call.closed connfd)
                    pure (some (false, info)))))
          ]
        ]
        else (do run (n.close connfd) (Call.closed connfd); pure (some (true, rem_dest))))

  -- A failed `accept` is reported and no more: the code goes on with the descriptor -1.
  unfoldable pub server_exch_data :
      ℤ → ConnectInfo → ConnectInfo → Locals → M W (Option (Bool × ConnectInfo))
  server_exch_data sock_port local_dest rem_dest l = do
    formatted ← quiet (n.format_service sock_port)
    (if is_neg formatted then pure (some (false, rem_dest)) else (do
      found ← call n.getaddrinfo (λ r. Call.got_addresses r.0 r.1)
      (if is_neg found.0 then pure (some (false, rem_dest)) else (do
        sockfd ← bind_loop found.1 minus_one
        (if is_neg sockfd then pure (some (false, rem_dest)) else (do
          run (n.listen sockfd) (Call.listened sockfd)
          connfd ← call (n.accept sockfd) (Call.accepted sockfd)
          run (n.close sockfd) (Call.closed sockfd)
          server_talk connfd local_dest rem_dest l))))))
