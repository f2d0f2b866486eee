-- ===== src/Text/Digits.antt =====
-- Hexadecimal output: `%x` with its width and its padding character.
use nvm_rdma_examples.Prelude.{
  ℕ, zero, suc, ◌+◌, ◌-◌, ◌/◌, ◌%◌, ◌^◌, ◌≤◌, ◌<◌, ◌≡◌, ◌≢◌, List, [], ◌∷◌, ◌++◌, arith, Bool-cases,
  inl, inr, ltb, ◌==◌, if◌then◌else◌, Option, none, some, length, length-append, length-replicate,
  replicate, ◌&&◌, leb,
}

abbrev pub Bytes : Type 0
Bytes = List ℕ

-- A lower case hexadecimal digit, and the value of a digit in either case.
unfoldable pub digit : ℕ → ℕ
digit d = if ltb d 10 then b'0' + d else b'a' + (d - 10)

unfoldable pub undigit : ℕ → Option ℕ
undigit c =
    if leb b'0' c && leb c b'9'
    then some (c - b'0')
    else if leb b'a' c && leb c b'f'
    then some (c - b'a' + 10)
    else if leb b'A' c && leb c b'F'
    then some (c - b'A' + 10)
    else none

-- The digits of `n` in front of `out`, none for 0. A number of at most `fuel` digits is exhausted.
unfoldable pub emit : ℕ → ℕ → Bytes → Bytes
emit zero n out = out
emit (suc fuel) n out =
    let rest = emit fuel (n / 16) (digit (n % 16) ∷ out) in if n == 0 then out else rest

-- 16 digits hold every unsigned long.
unfoldable pub hex : ℕ → Bytes
hex n = if n == 0 then b'0' ∷ [] else emit 16 n []

-- `%0Nx` with the fill '0', `%Nlx` with the fill ' '.
unfoldable pub pad : ℕ → ℕ → Bytes → Bytes
pad width fill s = replicate (width - length s) fill ++ s

unfoldable pub hex_field : ℕ → ℕ → ℕ → Bytes
unfolding pad hex
hex_field width fill n = pad width fill (hex n)

-- A byte is a hexadecimal digit: what `undigit` accepts.
abbrev pub IsHex : ℕ → Type 0
IsHex c = undigit c ≢ none

pub undigit-digit : (d : ℕ) → d < 16 → undigit (digit d) ≡ some d
unfolding undigit digit
undigit-digit d h = ground arith

pub digit-IsHex : (d : ℕ) → d < 16 → IsHex (digit d)
digit-IsHex d h e = ground (arith, undigit-digit d h)

-- A number below 16 ^ k has at most k digits.
pub length-emit :
    (fuel k n : ℕ) (out : Bytes) → n < 16 ^ k → length (emit fuel n out) ≤ k + length out
unfolding emit
length-emit zero k n out h = omega arith
length-emit (suc fuel) zero n out h = ground arith
length-emit (suc fuel) (suc k) n out h = elim (Bool-cases (n == 0)) [
  | inl e ↦ rw e (omega arith)
  | inr e ↦ rw e (omega (arith, length-emit fuel k (n / 16) (digit (n % 16) ∷ out) smaller))
]
  where
    smaller : n / 16 < 16 ^ k
    smaller = omega arith

pub length-hex : (k n : ℕ) → 0 < k → n < 16 ^ k → length (hex n) ≤ k
unfolding hex
length-hex k n pos h = ground (arith, length-emit 16 k n [] h)

pub length-pad : (width fill : ℕ) (s : Bytes) → length s ≤ width → length (pad width fill s) ≡ width
unfolding pad
length-pad width fill s h = omega (
  arith,
  length-append (replicate (width - length s) fill) s,
  length-replicate (width - length s) fill,
)

-- A number below 16 ^ width fills its field exactly.
pub length-hex_field :
    (width fill n : ℕ) → 0 < width → n < 16 ^ width → length (hex_field width fill n) ≡ width
unfolding hex_field
length-hex_field width fill n pos h = length-pad width fill (hex n) (length-hex width n pos h)
