-- ===== src/Gid/Wire.antt =====
-- The text form of a gid, and its reading.
use nvm_rdma_examples.Prelude.{
  ℕ, zero, suc, ◌*◌, ◌^◌, ◌<◌, ◌≡◌, refl, ap, [], ◌∷◌, ◌++◌, append_assoc, append-nil, ◌∙◌, sym,
  length, take, drop, All, take-append, drop-append, length-append, arith, All-append,
}
use nvm_rdma_examples.Text.Digits.{Bytes, hex_field, length-hex_field, IsHex}
use nvm_rdma_examples.Text.RoundTrip.{scan_x-hex_field, hex_field-IsHex}
use nvm_rdma_examples.Gid.{
  IsByte, IsGid, load32, bytes32, htonl, print_words, gid_to_wire_gid, scan_word, scan_words,
  wire_gid_to_gid,
}

htonl-lt : (x : ℕ) → htonl x < 2 ^ 32
unfolding htonl
htonl-lt x = omega arith

bytes32-load32 :
    (a b c d : ℕ) (s : Bytes)
    → IsByte a
    → IsByte b
    → IsByte c
    → IsByte d
    → bytes32 (htonl (htonl (load32 (a ∷ b ∷ c ∷ d ∷ s)))) ≡ a ∷ b ∷ c ∷ d ∷ []
unfolding bytes32 htonl load32
bytes32-load32 a b c d s ha hb hc hd = ground arith

scan_word-hex_field : (v32 n : ℕ) → n < 2 ^ 32 → scan_word v32 (hex_field 8 b'0' n) ≡ n
unfolding scan_word
scan_word-hex_field v32 n h =
    ground (arith, scan_x-hex_field 8 n [] h tt, append-nil (hex_field 8 b'0' n))

take_8 : (n : ℕ) (s : Bytes) → n < 2 ^ 32 → take 8 (hex_field 8 b'0' n ++ s) ≡ hex_field 8 b'0' n
take_8 n s h =
    ap (λ k. take k (hex_field 8 b'0' n ++ s))
      (sym (length-hex_field 8 b'0' n (omega arith) (omega arith)))
    ∙ take-append (hex_field 8 b'0' n) s

drop_8 : (n : ℕ) (s : Bytes) → n < 2 ^ 32 → drop 8 (hex_field 8 b'0' n ++ s) ≡ s
drop_8 n s h =
    ap (λ k. drop k (hex_field 8 b'0' n ++ s))
      (sym (length-hex_field 8 b'0' n (omega arith) (omega arith)))
    ∙ drop-append (hex_field 8 b'0' n) s

-- One round of reading undoes one round of printing.
scan_words-step :
    (rounds v32 n : ℕ) (s : Bytes)
    → n < 2 ^ 32
    → scan_words (suc rounds) v32 (hex_field 8 b'0' n ++ s)
      ≡ bytes32 (htonl n) ++ scan_words rounds n s
unfolding scan_words
scan_words-step rounds v32 n s h = rw (take_8 n s h, drop_8 n s h, scan_word-hex_field v32 n h)

scan_words-print_words :
    (rounds v32 : ℕ) (raw rest : Bytes)
    → length raw ≡ 4 * rounds
    → All IsByte raw
    → scan_words rounds v32 (print_words rounds raw ++ rest) ≡ raw
unfolding print_words
scan_words-print_words zero v32 [] rest e h = unfold scan_words in refl
scan_words-print_words zero v32 (a ∷ s) rest e h = absurd (omega arith)
scan_words-print_words (suc rounds) v32 [] rest e h = absurd (omega arith)
scan_words-print_words (suc rounds) v32 (a ∷ []) rest e h = absurd (omega arith)
scan_words-print_words (suc rounds) v32 (a ∷ b ∷ []) rest e h = absurd (omega arith)
scan_words-print_words (suc rounds) v32 (a ∷ b ∷ c ∷ []) rest e h = absurd (omega arith)
scan_words-print_words (suc rounds) v32 (a ∷ b ∷ c ∷ d ∷ s) rest e h =
    let w = htonl (load32 (a ∷ b ∷ c ∷ d ∷ s)) in
    rw
      (
        append_assoc (hex_field 8 b'0' w) (print_words rounds s) rest,
        scan_words-step rounds v32 w (print_words rounds s ++ rest) (htonl-lt _),
        bytes32-load32 a b c d s h.0 h.1.0 h.1.1.0 h.1.1.1.0,
      )
      (ap (λ t. a ∷ b ∷ c ∷ d ∷ t) (scan_words-print_words rounds w s rest (omega arith) h.1.1.1.1))

-- A gid of 16 bytes survives its text form, whatever follows the text in the buffer.
pub wire_gid_to_gid-gid_to_wire_gid :
    (junk : ℕ) (gid rest : Bytes)
    → IsGid gid
    → wire_gid_to_gid junk (gid_to_wire_gid gid ++ rest) ≡ gid
unfolding wire_gid_to_gid gid_to_wire_gid
wire_gid_to_gid-gid_to_wire_gid junk gid rest h =
    scan_words-print_words 4 junk gid rest h.sixteen h.bytes

length-print_words : (rounds : ℕ) (raw : Bytes) → length (print_words rounds raw) ≡ 8 * rounds
unfolding print_words
length-print_words zero raw = omega arith
length-print_words (suc rounds) raw =
    let w = htonl (load32 raw) in
    omega (
      arith,
      length-append (hex_field 8 b'0' w) (print_words rounds (drop 4 raw)),
      length-hex_field 8 b'0' w (omega arith) (omega (arith, htonl-lt (load32 raw))),
      length-print_words rounds (drop 4 raw),
    )

-- The text form of any gid has 32 bytes.
pub length-gid_to_wire_gid : (gid : Bytes) → length (gid_to_wire_gid gid) ≡ 32
unfolding gid_to_wire_gid
length-gid_to_wire_gid gid = length-print_words 4 gid

print_words-IsHex : (rounds : ℕ) (raw : Bytes) → All IsHex (print_words rounds raw)
unfolding print_words
print_words-IsHex zero raw = tt
print_words-IsHex (suc rounds) raw =
    All-append _ (hex_field 8 b'0' (htonl (load32 raw))) (print_words rounds (drop 4 raw))
      (hex_field-IsHex 8 (htonl (load32 raw))) (print_words-IsHex rounds (drop 4 raw))

-- The text form is all digits.
pub gid_to_wire_gid-IsHex : (gid : Bytes) → All IsHex (gid_to_wire_gid gid)
unfolding gid_to_wire_gid
gid_to_wire_gid-IsHex gid = print_words-IsHex 4 gid
