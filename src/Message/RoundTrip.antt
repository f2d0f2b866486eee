-- ===== src/Message/RoundTrip.antt =====
-- The message of connection data, from one side to the other.
use nvm_rdma_examples.Prelude.{
  ℕ, zero, suc, ◌+◌, ◌^◌, ◌<◌, ◌≡◌, ◌≢◌, refl, sym, ap, ◌∙◌, [], ◌∷◌, ◌++◌, some, length, drop,
  arith, append_assoc, length-append,
}
use nvm_rdma_examples.Text.Digits.{Bytes, hex_field, length-hex_field, undigit}
use nvm_rdma_examples.Text.Scan.{scan_x, scan_lx, scan_char}
use nvm_rdma_examples.Text.RoundTrip.{Stops, scan_x-hex_field, scan_lx-hex_field, scan_s-IsHex}
use nvm_rdma_examples.Gid.{gid_to_wire_gid}
use nvm_rdma_examples.Gid.Wire.{
  length-gid_to_wire_gid, gid_to_wire_gid-IsHex, wire_gid_to_gid-gid_to_wire_gid,
}
use nvm_rdma_examples.QueuePair.{ConnectInfo}
use nvm_rdma_examples.Message.{
  msg_size, gid_size, write_text, print_info, format_msg, Next, scan_field, scan_gid, set_lid,
  set_qpn, set_psn, set_r_key, set_data_vaddr, scan_info, parse_msg, Fits,
}

colon-Stops : (s : Bytes) → Stops (b':' ∷ s)
unfolding undigit
colon-Stops s = (refl, omega arith, omega arith)

module _ (store : ℕ → ConnectInfo → ConnectInfo) (next : Next) (gid : Bytes) (info : ConnectInfo)
    (rest : Bytes) where
  scan_field-x :
      (width n : ℕ)
      → n < 2 ^ 32
      → scan_field scan_x store next gid info (hex_field width b'0' n ++ b':' ∷ rest)
        ≡ next gid (store n info) rest
  unfolding scan_field scan_char
  scan_field-x width n h =
      ground (arith, scan_x-hex_field width n (b':' ∷ rest) h (colon-Stops rest))

  scan_field-lx :
      (width n : ℕ)
      → n < 2 ^ 64
      → scan_field scan_lx store next gid info (hex_field width b' ' n ++ b':' ∷ rest)
        ≡ next gid (store n info) rest
  unfolding scan_field scan_char
  scan_field-lx width n h =
      ground (arith, scan_lx-hex_field width n (b':' ∷ rest) h (colon-Stops rest))

-- What the peer makes of the data: all fields but its own memory region and gid index.
abbrev pub learn : ConnectInfo → ConnectInfo → ConnectInfo
learn sent info = record info {
  lid = sent.lid;
  qpn = sent.qpn;
  psn = sent.psn;
  r_key = sent.r_key;
  data_vaddr = sent.data_vaddr;
  gid = sent.gid;
}

print_info-append :
    (local_dest : ConnectInfo) (gid rest : Bytes)
    → print_info local_dest gid ++ rest ≡ print_info local_dest (gid ++ rest)
unfolding print_info
print_info-append local_dest gid rest = simp append_assoc

scan_info-print_info :
    (sent info : ConnectInfo) (gid text : Bytes)
    → Fits sent
    → scan_info gid info (print_info sent text)
      ≡ scan_gid gid
          (set_data_vaddr sent.data_vaddr
            (set_r_key sent.r_key (set_psn sent.psn (set_qpn sent.qpn (set_lid sent.lid info)))))
          text
unfolding scan_info print_info
scan_info-print_info sent info gid text h =
    scan_field-x _ _ gid _ _ 4 sent.lid (omega arith)
    ∙ scan_field-x _ _ gid _ _ 6 sent.qpn (omega arith)
    ∙ scan_field-x _ _ gid _ _ 6 sent.psn (omega arith)
    ∙ scan_field-x _ _ gid _ _ 8 sent.r_key h.r_key_fits
    ∙ scan_field-lx _ _ gid _ _ 16 sent.data_vaddr h.data_vaddr_fits

-- The text of a message is one byte shorter than its buffer.
pub length-print_info :
    (info : ConnectInfo) → Fits info → length (print_info info (gid_to_wire_gid info.gid)) ≡ 77
unfolding print_info
length-print_info info h = simp length-append (
    omega (
      arith,
      length-hex_field 4 b'0' info.lid (omega arith) h.lid_fits,
      length-hex_field 6 b'0' info.qpn (omega arith) h.qpn_fits,
      length-hex_field 6 b'0' info.psn (omega arith) h.psn_fits,
      length-hex_field 8 b'0' info.r_key (omega arith) h.r_key_fits,
      length-hex_field 16 b' ' info.data_vaddr (omega arith) h.data_vaddr_fits,
      length-gid_to_wire_gid info.gid,
    ))

wire-ne-nil : (gid : Bytes) → gid_to_wire_gid gid ≢ []
wire-ne-nil gid e = absurd (omega (arith, length-gid_to_wire_gid gid, ap length e))

pub drop_all : (n : ℕ) (s : Bytes) → length s ≡ n → drop n s ≡ []
drop_all zero [] h = refl
drop_all zero (c ∷ s) h = absurd (omega arith)
drop_all (suc n) [] h = refl
drop_all (suc n) (c ∷ s) h = drop_all n s (omega arith)

-- A text one byte shorter than the buffer fills it.
write_text_fills :
    (buf text : Bytes) → length text + 1 ≡ length buf → write_text buf text ≡ some (text ++ 0 ∷ [])
unfolding write_text
write_text_fills buf text h = ground (arith, drop_all (length text + 1) buf (sym h))

-- Connection data that fit their fields are formatted into a buffer of 78 bytes without overflow,
-- and the text with its terminator fills the whole buffer.
pub format_msg_lem :
    (info : ConnectInfo) (msg : Bytes)
    → Fits info
    → length msg ≡ msg_size
    → (format_msg info msg ≡ some (print_info info (gid_to_wire_gid info.gid) ++ 0 ∷ []))
      × (length (print_info info (gid_to_wire_gid info.gid) ++ 0 ∷ []) ≡ msg_size)
unfolding format_msg
format_msg_lem info msg h size =
    let text = print_info info (gid_to_wire_gid info.gid) in
    let n = length-print_info info h in
    (
      write_text_fills msg text (omega (arith, n, size)),
      omega (arith, n, length-append text (0 ∷ [])),
    )

-- `%s` stores the text of a gid in a buffer of 33 bytes, which it fills.
scan_gid-wire :
    (g gid : Bytes) (info : ConnectInfo) (rest : Bytes)
    → length gid ≡ gid_size
    → scan_gid gid info (gid_to_wire_gid g ++ 0 ∷ rest) ≡ some (info, gid_to_wire_gid g ++ 0 ∷ [])
unfolding scan_gid
scan_gid-wire g gid info rest size = ground (
  arith,
  scan_s-IsHex (gid_to_wire_gid g) rest (gid_to_wire_gid-IsHex g) (wire-ne-nil g),
  write_text_fills gid (gid_to_wire_gid g) (omega (arith, length-gid_to_wire_gid g)),
)

-- A message of connection data that fit, formatted on one side, is parsed on the other to every
-- field that it carries, whatever the buffers and the structure held before.
pub parse_msg-format_msg :
    (sent info : ConnectInfo) (junk : ℕ) (msg gid : Bytes) {text : Bytes}
    → Fits sent
    → length msg ≡ msg_size
    → length gid ≡ gid_size
    → format_msg sent msg ≡ some text
    → parse_msg junk gid info text ≡ some (learn sent info)
unfolding parse_msg
parse_msg-format_msg sent info junk msg gid {text} h size gsize e =
    let wire = gid_to_wire_gid sent.gid in
    let whole : some text ≡ some (print_info sent (wire ++ 0 ∷ [])) =
      sym e ∙ (format_msg_lem sent msg h size).0 ∙ ap some (print_info-append sent wire (0 ∷ [])) in
    let scanned = scan_info-print_info sent info gid (wire ++ 0 ∷ []) h in
    ground (
      arith,
      whole,
      scanned,
      scan_gid-wire sent.gid gid
          (set_data_vaddr sent.data_vaddr
            (set_r_key sent.r_key (set_psn sent.psn (set_qpn sent.qpn (set_lid sent.lid info)))))
          [] gsize,
      wire_gid_to_gid-gid_to_wire_gid junk sent.gid (0 ∷ []) h.gid_fits,
    )
