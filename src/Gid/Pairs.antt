-- ===== src/Gid/Pairs.antt =====
-- The text form of a gid, byte by byte.
use nvm_rdma_examples.Prelude.{
  ℕ, zero, suc, ◌+◌, ◌-◌, ◌*◌, ◌/◌, ◌%◌, ◌^◌, ◌≤◌, ◌<◌, ◌≡◌, refl, ap, ◌∙◌, sym, [], ◌∷◌, ◌++◌,
  true, arith, ◌==◌, length, replicate, All, Bool-cases, inl, inr,
}
use nvm_rdma_examples.Text.Digits.{Bytes, digit, emit, hex, pad, hex_field, length-hex}
use nvm_rdma_examples.Gid.{IsByte, IsGid, load32, htonl, print_words, gid_to_wire_gid}

-- Two digits for each byte, the high half first, in the order of the bytes.
unfoldable pub hex_bytes : Bytes → Bytes
hex_bytes [] = []
hex_bytes (b ∷ s) = digit (b / 16) ∷ digit (b % 16) ∷ hex_bytes s

-- The low digits of a number, as many as the width.
unfoldable low_digits : ℕ → ℕ → Bytes → Bytes
low_digits zero n out = out
low_digits (suc k) n out = low_digits k (n / 16) (digit (n % 16) ∷ out)

replicate-cons : (k x : ℕ) (s : Bytes) → replicate k x ++ x ∷ s ≡ x ∷ replicate k x ++ s
replicate-cons zero x s = refl
replicate-cons (suc k) x s = ap (λ t. x ∷ t) (replicate-cons k x s)

low_digits_zero : (k : ℕ) (out : Bytes) → low_digits k 0 out ≡ replicate k b'0' ++ out
unfolding low_digits digit
low_digits_zero zero out = refl
low_digits_zero (suc k) out = low_digits_zero k (b'0' ∷ out) ∙ replicate-cons k b'0' out

emit-low_digits :
    (fuel k n w : ℕ) (out : Bytes)
    → n < 16 ^ k
    → k ≤ fuel
    → w + length (emit fuel n out) ≡ k + length out
    → replicate w b'0' ++ emit fuel n out ≡ low_digits k n out
unfolding emit low_digits
emit-low_digits zero zero n w out h le c = let none_left : w ≡ 0 = omega arith in rw none_left refl
emit-low_digits zero (suc k) n w out h le c = absurd (omega arith)
emit-low_digits (suc fuel) zero n w out h le c =
    let done : (n == 0) ≡ true = ground arith in
    let none_left : w ≡ 0 = ground arith in rw (done, none_left) refl
emit-low_digits (suc fuel) (suc k) n w out h le c = elim (Bool-cases (n == 0)) [
  | inl e ↦
      let n0 : 0 ≡ n = ground arith in
      let all_left : w ≡ suc k = ground arith in
      rw (e, all_left) (sym (low_digits_zero (suc k) out) ∙ ap (λ m. low_digits (suc k) m out) n0)
  | inr e ↦
      let more = digit (n % 16) ∷ out in
      rw e (emit-low_digits fuel k (n / 16) w more (omega arith) (omega arith) (ground arith))
]

hex-low_digits :
    (k n w : ℕ)
    → n < 16 ^ suc k
    → suc k ≤ 16
    → w + length (hex n) ≡ suc k
    → replicate w b'0' ++ hex n ≡ low_digits (suc k) n []
unfolding hex
hex-low_digits k n w h le c = elim (Bool-cases (n == 0)) [
  | inl e ↦
      let n0 : 0 ≡ n = ground arith in
      let all_left : w ≡ k = ground arith in
      rw (e, all_left)
        (replicate-cons k b'0' []
          ∙ sym (low_digits_zero (suc k) [])
          ∙ ap (λ m. low_digits (suc k) m []) n0)
  | inr e ↦ rw e (emit-low_digits 16 (suc k) n w [] h le (ground arith))
]

-- A field filled with zeros has the low digits of a number that fits.
hex_field-low_digits :
    (k n : ℕ) → n < 16 ^ suc k → suc k ≤ 16 → hex_field (suc k) b'0' n ≡ low_digits (suc k) n []
unfolding hex_field pad
hex_field-low_digits k n h le =
    hex-low_digits k n (suc k - length (hex n)) h le
      (omega (arith, length-hex (suc k) n (omega arith) h))

-- The low digits of a number that ends in a byte end in the two of the byte.
low_digits-byte :
    (k x y : ℕ) (out : Bytes)
    → IsByte y
    → low_digits (suc (suc k)) (x * 256 + y) out
      ≡ low_digits k x (digit (y / 16) ∷ digit (y % 16) ∷ out)
unfolding low_digits
low_digits-byte k x y out h =
    let whole : (x * 256 + y) / 16 / 16 ≡ x = omega arith in
    let high : (x * 256 + y) / 16 % 16 ≡ y / 16 = omega arith in
    let low : (x * 256 + y) % 16 ≡ y % 16 = omega arith in rw (whole, high, low) refl

htonl-load32 :
    (a b c d : ℕ) (s : Bytes)
    → IsByte a
    → IsByte b
    → IsByte c
    → IsByte d
    → htonl (load32 (a ∷ b ∷ c ∷ d ∷ s)) ≡ (((0 * 256 + a) * 256 + b) * 256 + c) * 256 + d
unfolding htonl load32
htonl-load32 a b c d s ha hb hc hd = omega arith

-- The field of a word in network order has the digits of its bytes.
hex_field-hex_bytes :
    (a b c d : ℕ) (s : Bytes)
    → IsByte a
    → IsByte b
    → IsByte c
    → IsByte d
    → hex_field 8 b'0' (htonl (load32 (a ∷ b ∷ c ∷ d ∷ s))) ≡ hex_bytes (a ∷ b ∷ c ∷ d ∷ [])
unfolding low_digits hex_bytes
hex_field-hex_bytes a b c d s ha hb hc hd =
    let word = (((0 * 256 + a) * 256 + b) * 256 + c) * 256 + d in
    let fits : word < 16 ^ 8 = omega arith in
    rw (htonl-load32 a b c d s ha hb hc hd) (
      hex_field-low_digits 7 word fits (omega arith)
      ∙ low_digits-byte 6 _ d [] hd
      ∙ low_digits-byte 4 _ c _ hc
      ∙ low_digits-byte 2 _ b _ hb
      ∙ low_digits-byte 0 0 a _ ha)

hex_bytes-append : (s t : Bytes) → hex_bytes (s ++ t) ≡ hex_bytes s ++ hex_bytes t
unfolding hex_bytes
hex_bytes-append [] t = refl
hex_bytes-append (b ∷ s) t = ap (λ u. digit (b / 16) ∷ digit (b % 16) ∷ u) (hex_bytes-append s t)

print_words-hex_bytes :
    (rounds : ℕ) (raw : Bytes)
    → length raw ≡ 4 * rounds
    → All IsByte raw
    → print_words rounds raw ≡ hex_bytes raw
unfolding print_words
print_words-hex_bytes zero [] e h = unfold hex_bytes in refl
print_words-hex_bytes zero (a ∷ s) e h = absurd (omega arith)
print_words-hex_bytes (suc rounds) [] e h = absurd (omega arith)
print_words-hex_bytes (suc rounds) (a ∷ []) e h = absurd (omega arith)
print_words-hex_bytes (suc rounds) (a ∷ b ∷ []) e h = absurd (omega arith)
print_words-hex_bytes (suc rounds) (a ∷ b ∷ c ∷ []) e h = absurd (omega arith)
print_words-hex_bytes (suc rounds) (a ∷ b ∷ c ∷ d ∷ s) e h =
    rw
      (
        hex_field-hex_bytes a b c d s h.0 h.1.0 h.1.1.0 h.1.1.1.0,
        print_words-hex_bytes rounds s (omega arith) h.1.1.1.1,
      )
      (sym (hex_bytes-append (a ∷ b ∷ c ∷ d ∷ []) s))

-- The text form of a gid has the two lower case digits of each of its bytes, in their order.
pub gid_to_wire_gid-hex_bytes : (gid : Bytes) → IsGid gid → gid_to_wire_gid gid ≡ hex_bytes gid
unfolding gid_to_wire_gid
gid_to_wire_gid-hex_bytes gid h = print_words-hex_bytes 4 gid h.sixteen h.bytes
