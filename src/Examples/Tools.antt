-- ===== src/Examples/Tools.antt =====
-- The theorems on gids, on the tools over rlib and on the thread wrapper.
use nvm_rdma_examples.Prelude.{
  ℕ, suc, true, false, [], ◌∷◌, some, ◌≡◌, refl, arith, ◌⊎◌, drop, sym, append-nil, Bool,
}
use mathlib.Core.Equiv.{IsContr}
use nvm_rdma_examples.Prelude.Int.{pos}
use nvm_rdma_examples.Text.Digits.{Bytes, hex_field, emit, digit, hex, pad}
use nvm_rdma_examples.Message.{print_info}
use nvm_rdma_examples.Gid.{gid_to_wire_gid, print_words, htonl, load32}
use nvm_rdma_examples.Gid.Pairs.{hex_bytes, gid_to_wire_gid-hex_bytes}
use nvm_rdma_examples.Gid.Lowercase.{IsGidText, HasText, one_gid}
use nvm_rdma_examples.Message.RoundTrip.{learn}
use nvm_rdma_examples.Exchange.{client_talk, server_talk}
use nvm_rdma_examples.Exchange.Agreement.{text_of}
use nvm_rdma_examples.Exchange.Streams.{IsStartOf, exchange_safe}
use nvm_rdma_examples.Region.{Mapping}
use nvm_rdma_examples.Rlib.Interface.{Rlib, IoCode, Tool}
use nvm_rdma_examples.Rlib.ReadWrite.{client_qp}
use nvm_rdma_examples.Rlib.Nvm.{nvm_server, nvm_client_thread}
use nvm_rdma_examples.Rlib.Paired.{AllName, nvm_names}
use nvm_rdma_examples.Wrapper.{Wrapped, make, start, bootstrap, join}
use nvm_rdma_examples.Examples.Sim.{
  Nic, net, os, at, idle_nic, client_info, server_info, blank_info, client_info-Fits,
  server_info-Fits, locals, locals-IsSized, roce_gid, roce_gid-IsGid,
}

gid_to_wire_gid-hex_bytes_example : gid_to_wire_gid roce_gid ≡ hex_bytes roce_gid
gid_to_wire_gid-hex_bytes_example = gid_to_wire_gid-hex_bytes roce_gid roce_gid-IsGid

abbrev roce_text : Bytes
roce_text =
    b'f' ∷ b'e' ∷ b'8' ∷ b'0' ∷ b'0' ∷ b'0' ∷ b'0' ∷ b'0' ∷ b'0' ∷ b'0' ∷ b'0' ∷ b'0' ∷ b'0' ∷ b'0'
    ∷ b'0' ∷ b'0' ∷ b'0' ∷ b'2' ∷ b'1' ∷ b'1' ∷ b'2' ∷ b'2' ∷ b'f' ∷ b'f' ∷ b'f' ∷ b'e' ∷ b'3'
    ∷ b'3' ∷ b'4' ∷ b'4' ∷ b'5' ∷ b'5' ∷ []

roce_text-IsGidText : IsGidText roce_text
roce_text-IsGidText = record { size = refl; lower = ground arith }

one_gid_example : IsContr ((g : Bytes) × HasText roce_text g)
one_gid_example = one_gid roce_text roce_text-IsGidText

-- The answer of the server breaks off, and the message of the client arrives whole.
abbrev cut_nic : Nic
cut_nic = record idle_nic { inbox = (b'0' ∷ []) ∷ [] }

abbrev whole_nic : Nic
whole_nic = record idle_nic { inbox = text_of client_info ∷ [] }

cut-IsStartOf : IsStartOf (text_of server_info) (some (b'0' ∷ []))
unfolding print_info hex_field emit gid_to_wire_gid print_words htonl load32 digit hex pad
cut-IsStartOf = (drop 1 (text_of server_info), refl)

exchange_safe_example :
    (((client_talk net (pos 3) client_info blank_info locals (at cut_nic)).0
        ≡ some (true, learn server_info blank_info))
      ⊎ ((client_talk net (pos 3) client_info blank_info locals (at cut_nic)).0
          ≡ some (false, blank_info)))
    × (((done : Bool) × ((server_talk net (pos 4) server_info blank_info locals (at whole_nic)).0
            ≡ some (done, learn client_info blank_info)))
        ⊎ ((server_talk net (pos 4) server_info blank_info locals (at whole_nic)).0
            ≡ some (true, blank_info)))
exchange_safe_example =
    exchange_safe net net (pos 3) (pos 4) client_info server_info blank_info blank_info locals
      locals (at cut_nic) (at whole_nic) client_info-Fits server_info-Fits locals-IsSized
      locals-IsSized cut-IsStartOf ([], sym (append-nil (text_of client_info)))

abbrev device : Rlib Nic
device = record {
  query_dev_names = λ w. (7 ∷ 8 ∷ [], w);
  create_nic = λ name w. (some name, w);
  create_rc = λ nic w. (some 21, w);
  wait_ready = λ usec tries w. (IoCode.ok, w);
  cc_rc = λ name qp nic w. ((IoCode.ok, 99), w);
  fetch_remote_mr = λ name w. ((IoCode.ok, record { buf = 8192; size = 1024; key = 5 }), w);
  delete_remote_rc = λ name key w. (IoCode.ok, w);
  new_mem = λ size w. (some 4096, w);
  create_mr = λ mem size nic w. (some 31, w);
  get_reg_attr = λ mr w. (some (record { buf = 4096; size = 1024; key = 6 }), w);
  bind_remote_mr = λ qp a w. w;
  bind_local_mr = λ qp a w. w;
  send_normal = λ qp req w. (IoCode.ok, w);
  wait_one_comp = λ qp w. (IoCode.ok, w);
  reg_nic = λ name nic w. (true, w);
  query_nic = λ name w. (some 8, w);
  create_then_reg = λ name mem size nic w. (true, w);
  query_mr = λ name w. (some 31, w);
  start_daemon = λ w. w;
}

abbrev tool : Tool Nic
tool = record { world = idle_nic; memory = λ a. 0; events = [] }

abbrev mapping : Mapping Nic
mapping = record {
  open_device = λ w. (pos 3, w);
  mmap = λ fd size w. (65536, w);
  mmap_huge = λ size w. (65536, w);
  malloc = λ size w. (4096, w);
  file_size = λ w. 4096;
  close = λ fd w. w;
}

nvm_names_example :
    AllName 1 (nvm_client_thread device mapping os client_qp 3 tool).1
    × AllName 73 (nvm_server device mapping tool).1
nvm_names_example = nvm_names device mapping os client_qp 3 tool tool tt tt

-- A body that returns the number in its world, and leaves the next one.
abbrev body : ℕ → ℕ × ℕ
body w = (w, suc w)

-- The object after two calls of `start`, of which the second thread alone has run, in the world 6.
abbrev ended_object : Wrapped ℕ ℕ
ended_object = join (bootstrap body 1 (record (start (start (make 1000 5))) { world = 6 }))
