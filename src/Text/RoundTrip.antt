-- ===== src/Text/RoundTrip.antt =====
-- Hexadecimal output and hexadecimal input together.
use nvm_rdma_examples.Prelude.{
  ℕ, zero, suc, ◌+◌, ◌-◌, ◌*◌, ◌/◌, ◌%◌, ◌^◌, ◌<◌, ◌≡◌, ◌≢◌, refl, ap, ◌∙◌, [], ◌∷◌, ◌++◌,
  append_assoc, true, false, arith, ◌==◌, none, some, length, replicate, All, Bool-cases, inl, inr,
  All-append, All-replicate, append_assoc,
}
use nvm_rdma_examples.Text.Digits.{
  Bytes, digit, undigit, emit, hex, pad, hex_field, IsHex, undigit-digit, digit-IsHex,
}
use nvm_rdma_examples.Text.Scan.{
  scan_digits, starts_digit, skip_prefix, scan_unsigned, saturate, with_sign, scan_signed, scan_lx,
  scan_x, skip_space, word, scan_s,
}

-- A text at which a number ends: no digit and no "x" stands at its head.
abbrev pub Stops : Bytes → Type 0
Stops [] = Unit {0}
Stops (c ∷ s) = (undigit c ≡ none) × (c ≢ b'x') × (c ≢ b'X')

emit-IsHex : (fuel n : ℕ) (out : Bytes) → All IsHex out → All IsHex (emit fuel n out)
unfolding emit
emit-IsHex zero n out h = h
emit-IsHex (suc fuel) n out h = elim (Bool-cases (n == 0)) [
  | inl e ↦ rw e h
  | inr e ↦
      rw e (emit-IsHex fuel (n / 16) (digit (n % 16) ∷ out) (digit-IsHex (n % 16) (omega arith), h))
]

-- Reading a digit carries the value on.
scan_digits-digit :
    (m d : ℕ) (s : Bytes) → d < 16 → scan_digits m (digit d ∷ s) ≡ scan_digits (m * 16 + d) s
unfolding scan_digits
scan_digits-digit m d s h = ground (arith, undigit-digit d h)

-- Reading the digits of `n` behind 0 is reading on behind `n`.
scan_digits-emit :
    (fuel n : ℕ) (out rest : Bytes)
    → n < 16 ^ fuel
    → scan_digits 0 (emit fuel n out ++ rest) ≡ scan_digits n (out ++ rest)
unfolding emit
scan_digits-emit zero n out rest h = ap (λ m. scan_digits m (out ++ rest)) (zero_lem n h)
  where
    zero_lem : (m : ℕ) → m < 1 → 0 ≡ m
    zero_lem m h = omega arith
scan_digits-emit (suc fuel) n out rest h = elim (Bool-cases (n == 0)) [
  | inl e ↦ let n0 : 0 ≡ n = ground arith in rw e (ap (λ m. scan_digits m (out ++ rest)) n0)
  | inr e ↦ rw e (
      scan_digits-emit fuel (n / 16) (digit (n % 16) ∷ out) rest (omega arith)
      ∙ scan_digits-digit (n / 16) (n % 16) (out ++ rest) (omega arith)
      ∙ ap (λ m. scan_digits m (out ++ rest)) whole)
]
  where
    whole : n / 16 * 16 + n % 16 ≡ n
    whole = omega arith

hex-IsHex : (n : ℕ) → All IsHex (hex n)
unfolding hex digit
hex-IsHex n = elim (Bool-cases (n == 0)) [
  | inl e ↦ rw e (digit-IsHex 0 (omega arith), tt)
  | inr e ↦ rw e (emit-IsHex 16 n [] tt)
]

scan_digits-hex :
    (n : ℕ) (rest : Bytes) → n < 2 ^ 64 → scan_digits 0 (hex n ++ rest) ≡ scan_digits n rest
unfolding hex digit
scan_digits-hex n rest h = elim (Bool-cases (n == 0)) [
  | inl e ↦
      let n0 : 0 ≡ n = ground arith in
      rw e (scan_digits-digit 0 0 rest (omega arith) ∙ ap (λ m. scan_digits m rest) n0)
  | inr e ↦ rw e (scan_digits-emit 16 n [] rest (omega arith))
]

starts_digit-append : (s rest : Bytes) → All IsHex s → s ≢ [] → starts_digit (s ++ rest) ≡ true
unfolding starts_digit
starts_digit-append [] rest h ne = absurd (ne refl)
starts_digit-append (c ∷ s) rest h ne = ground (arith, h.0)

-- Digits that end where a number ends do not start with "0x".
skip_prefix-append :
    (s rest : Bytes) → All IsHex s → Stops rest → s ≢ [] → skip_prefix (s ++ rest) ≡ none
unfolding skip_prefix undigit
skip_prefix-append [] rest h st ne = absurd (ne refl)
skip_prefix-append (c ∷ []) [] h st ne = refl
skip_prefix-append (c ∷ []) (d ∷ rest) h st ne = ground arith
skip_prefix-append (c ∷ d ∷ s) rest h st ne = ground (arith, h.1.0)

emit-ne-nil : (fuel n : ℕ) (out : Bytes) → out ≢ [] → emit fuel n out ≢ []
unfolding emit
emit-ne-nil zero n out h = h
emit-ne-nil (suc fuel) n out h = elim (Bool-cases (n == 0)) [
  | inl e ↦ rw e h
  | inr e ↦ rw e (emit-ne-nil fuel (n / 16) (digit (n % 16) ∷ out) (λ p. cc))
]

emit-suc-ne-nil : (fuel n : ℕ) → (n == 0) ≡ false → emit (suc fuel) n [] ≢ []
unfolding emit
emit-suc-ne-nil fuel n e = rw e (emit-ne-nil fuel (n / 16) (digit (n % 16) ∷ []) (λ p. cc))

hex-ne-nil : (n : ℕ) → hex n ≢ []
unfolding hex
hex-ne-nil n = elim (Bool-cases (n == 0)) [
  | inl e ↦ rw e (λ p. cc)
  | inr e ↦ rw e (emit-suc-ne-nil 15 n e)
]

scan_digits_stop : (n : ℕ) (rest : Bytes) → Stops rest → scan_digits n rest ≡ (n, rest)
unfolding scan_digits
scan_digits_stop n [] st = refl
scan_digits_stop n (c ∷ rest) st = ground (arith, st.0)

scan_unsigned-digits :
    (s rest : Bytes) {n : ℕ}
    → All IsHex s
    → s ≢ []
    → Stops rest
    → scan_digits 0 (s ++ rest) ≡ (n, rest)
    → scan_unsigned (s ++ rest) ≡ some (n, rest)
unfolding scan_unsigned
scan_unsigned-digits s rest all ne st e =
    ground (arith, skip_prefix-append s rest all st ne, starts_digit-append s rest all ne)

-- A text that starts with a digit has no sign and no space in front.
scan_signed-IsHex :
    (c : ℕ) (s : Bytes) → IsHex c → scan_signed (c ∷ s) ≡ with_sign false (scan_unsigned (c ∷ s))
unfolding scan_signed undigit
scan_signed-IsHex c s h = ground (arith, h)

skip_space-IsHex : (c : ℕ) (s : Bytes) → IsHex c → skip_space (c ∷ s) ≡ c ∷ s
unfolding skip_space undigit
skip_space-IsHex c s h = ground (arith, h)

scan_lx-head :
    (s rest : Bytes)
    → All IsHex s
    → s ≢ []
    → scan_lx (s ++ rest) ≡ with_sign false (scan_unsigned (s ++ rest))
unfolding scan_lx
scan_lx-head [] rest h ne = absurd (ne refl)
scan_lx-head (c ∷ s) rest h ne =
    rw (skip_space-IsHex c (s ++ rest) h.0) (scan_signed-IsHex c (s ++ rest) h.0)

-- A run of digits that `scan_digits` reads as `n` is what `%lx` reads.
scan_lx-digits :
    (s rest : Bytes) {n : ℕ}
    → n < 2 ^ 64
    → All IsHex s
    → s ≢ []
    → Stops rest
    → scan_digits 0 (s ++ rest) ≡ (n, rest)
    → scan_lx (s ++ rest) ≡ some (n, rest)
unfolding with_sign saturate
scan_lx-digits s rest h all ne st e =
    ground (arith, scan_lx-head s rest all ne, scan_unsigned-digits s rest all ne st e)

-- Padding by zeros adds digits in front, padding by spaces adds spaces.
skip_space-replicate : (k : ℕ) (s : Bytes) → skip_space (replicate k b' ' ++ s) ≡ skip_space s
unfolding skip_space
skip_space-replicate zero s = refl
skip_space-replicate (suc k) s = skip_space-replicate k s

scan_digits-replicate :
    (k : ℕ) (s : Bytes) → scan_digits 0 (replicate k b'0' ++ s) ≡ scan_digits 0 s
unfolding scan_digits undigit
scan_digits-replicate zero s = refl
scan_digits-replicate (suc k) s = scan_digits-replicate k s

append-ne-nil : (k : ℕ) (a : ℕ) (s : Bytes) → s ≢ [] → replicate k a ++ s ≢ []
append-ne-nil zero a s h = h
append-ne-nil (suc k) a s h = λ p. cc

zero-IsHex : IsHex b'0'
unfolding undigit
zero-IsHex p = cc

scan_lx-skip : (k : ℕ) (s : Bytes) → scan_lx (replicate k b' ' ++ s) ≡ scan_lx s
unfolding scan_lx
scan_lx-skip k s = ap scan_signed (skip_space-replicate k s)

-- `%lx` reads back a number that `%Nlx` wrote, and leaves what follows.
pub scan_lx-hex_field :
    (width n : ℕ) (rest : Bytes)
    → n < 2 ^ 64
    → Stops rest
    → scan_lx (hex_field width b' ' n ++ rest) ≡ some (n, rest)
unfolding hex_field pad
scan_lx-hex_field width n rest h st =
    let k = width - length (hex n) in
    rw (append_assoc (replicate k b' ') (hex n) rest, scan_lx-skip k (hex n ++ rest))
      (scan_lx-digits (hex n) rest h (hex-IsHex n) (hex-ne-nil n) st
        (scan_digits-hex n rest h ∙ scan_digits_stop n rest st))

-- `%x` reads back a 32-bit number that `%0Nx` wrote, and leaves what follows.
pub scan_x-hex_field :
    (width n : ℕ) (rest : Bytes)
    → n < 2 ^ 32
    → Stops rest
    → scan_x (hex_field width b'0' n ++ rest) ≡ some (n, rest)
unfolding scan_x hex_field pad
scan_x-hex_field width n rest h st =
    let k = width - length (hex n) in
    let big : n < 2 ^ 64 = omega arith in
    let read : scan_digits 0 ((replicate k b'0' ++ hex n) ++ rest) ≡ (n, rest) =
      rw (append_assoc (replicate k b'0') (hex n) rest) (
        scan_digits-replicate k (hex n ++ rest)
        ∙ scan_digits-hex n rest big
        ∙ scan_digits_stop n rest st) in
    ground (
      arith,
      scan_lx-digits (replicate k b'0' ++ hex n) rest big
          (All-append _ (replicate k b'0') (hex n) (All-replicate _ k b'0' zero-IsHex)
            (hex-IsHex n))
          (append-ne-nil k b'0' (hex n) (hex-ne-nil n)) st read,
    )

-- A field filled with zeros is all digits.
pub hex_field-IsHex : (width n : ℕ) → All IsHex (hex_field width b'0' n)
unfolding hex_field pad
hex_field-IsHex width n =
    All-append _ (replicate (width - length (hex n)) b'0') (hex n)
      (All-replicate _ (width - length (hex n)) b'0' zero-IsHex) (hex-IsHex n)

word-IsHex : (s rest : Bytes) → All IsHex s → word (s ++ 0 ∷ rest) ≡ s
unfolding word undigit
word-IsHex [] rest h = refl
word-IsHex (c ∷ s) rest h = ground (arith, word-IsHex s rest h.1, h.0)

-- `%s` reads a text of digits up to its terminator.
pub scan_s-IsHex : (s rest : Bytes) → All IsHex s → s ≢ [] → scan_s (s ++ 0 ∷ rest) ≡ some s
unfolding scan_s
scan_s-IsHex [] rest h ne = absurd (ne refl)
scan_s-IsHex (c ∷ s) rest h ne =
    ground (arith, skip_space-IsHex c (s ++ 0 ∷ rest) h.0, word-IsHex (c ∷ s) rest h)
