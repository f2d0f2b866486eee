-- ===== src/Message.antt =====
-- The message in which the two sides tell each other their connection data, of
-- nvm_ibverbs/src/rdma_common.cc: the `sprintf` and the `sscanf` of `client_exch_data` and
-- `server_exch_data`, into buffers of fixed size.
pub mod RoundTrip
use nvm_rdma_examples.Prelude.{
  ℕ, zero, suc, ◌+◌, ◌^◌, ◌<◌, ◌≡◌, Bool, true, false, List, [], ◌∷◌, ◌++◌, Option, none, some,
  if◌then◌else◌, ltb, length, drop,
}
use nvm_rdma_examples.Text.Digits.{Bytes, hex_field}
use nvm_rdma_examples.Text.Scan.{scan_x, scan_lx, scan_s, scan_char}
use nvm_rdma_examples.Gid.{IsGid, wire_gid_to_gid, gid_to_wire_gid}
use nvm_rdma_examples.QueuePair.{ConnectInfo}

-- `sizeof "0000:000000:000000:00000000:0000000000000000:00000000000000000000000000000000"`
abbrev pub msg_size : ℕ
msg_size = 78

-- `char gid[33]`
abbrev pub gid_size : ℕ
gid_size = 33

-- A text with its terminator, written to the start of a buffer; `none` where it does not fit.
unfoldable pub write_text : Bytes → Bytes → Option Bytes
write_text buf text =
    if ltb (length text) (length buf) then some (text ++ 0 ∷ drop (length text + 1) buf) else none

-- `"%04x:%06x:%06x:%08x:%16lx:%s"`
unfoldable pub print_info : ConnectInfo → Bytes → Bytes
print_info local_dest gid =
    hex_field 4 b'0' local_dest.lid
    ++ b':'
      ∷ (hex_field 6 b'0' local_dest.qpn
          ++ b':'
            ∷ (hex_field 6 b'0' local_dest.psn
                ++ b':'
                  ∷ (hex_field 8 b'0' local_dest.r_key
                      ++ b':' ∷ (hex_field 16 b' ' local_dest.data_vaddr ++ b':' ∷ gid))))

-- `gid_to_wire_gid` into `gid`, then `sprintf` into `msg`.
unfoldable pub format_msg : ConnectInfo → Bytes → Option Bytes
format_msg local_dest msg = write_text msg (print_info local_dest (gid_to_wire_gid local_dest.gid))

-- What `sscanf` has stored so far: the structure and the buffer `gid`; `none` where it overflows.
abbrev pub Scanned : Type 0
Scanned = Option (ConnectInfo × Bytes)

abbrev pub Next : Type 0
Next = Bytes → ConnectInfo → Bytes → Scanned

-- A number and the colon behind it. Nothing after the first mismatch is stored.
unfoldable pub scan_field :
    (Bytes → Option (ℕ × Bytes)) → (ℕ → ConnectInfo → ConnectInfo) → Next → Next
scan_field conversion store next gid info s = elim (conversion s) [
  | none ↦ some (info, gid)
  | some (n, t) ↦ elim (scan_char b':' t) [
    | none ↦ some (store n info, gid)
    | some u ↦ next gid (store n info) u
  ]
]

unfoldable pub scan_gid : Next
scan_gid gid info s = elim (scan_s s) [
  | none ↦ some (info, gid)
  | some text ↦ elim (write_text gid text) [ none ↦ none | some gid' ↦ some (info, gid') ]
]

abbrev pub set_lid : ℕ → ConnectInfo → ConnectInfo
set_lid n info = record info { lid = n }

abbrev pub set_qpn : ℕ → ConnectInfo → ConnectInfo
set_qpn n info = record info { qpn = n }

abbrev pub set_psn : ℕ → ConnectInfo → ConnectInfo
set_psn n info = record info { psn = n }

abbrev pub set_r_key : ℕ → ConnectInfo → ConnectInfo
set_r_key n info = record info { r_key = n }

abbrev pub set_data_vaddr : ℕ → ConnectInfo → ConnectInfo
set_data_vaddr n info = record info { data_vaddr = n }

-- `"%x:%x:%x:%x:%lx:%s"`
unfoldable pub scan_info : Next
scan_info = scan_field scan_x set_lid (
    scan_field scan_x set_qpn (
      scan_field scan_x set_psn
        (scan_field scan_x set_r_key (scan_field scan_lx set_data_vaddr scan_gid))))

-- `sscanf`, then `wire_gid_to_gid` of whatever `gid` holds; `junk` is the latter's uninitialised word.
unfoldable pub parse_msg : ℕ → Bytes → ConnectInfo → Bytes → Option ConnectInfo
parse_msg junk gid rem_dest msg = elim (scan_info gid rem_dest msg) [
  | none ↦ none
  | some (info, gid') ↦ some (record info { gid = wire_gid_to_gid junk gid' })
]

-- Connection data as the devices give them out: the LID is a `uint16_t`, and queue pair and packet
-- sequence numbers have 24 bits.
pub record Fits (info : ConnectInfo) : Type 0 where
  pub lid_fits : info.lid < 2 ^ 16
  pub qpn_fits : info.qpn < 2 ^ 24
  pub psn_fits : info.psn < 2 ^ 24
  pub r_key_fits : info.r_key < 2 ^ 32
  pub data_vaddr_fits : info.data_vaddr < 2 ^ 64
  pub gid_fits : IsGid info.gid
