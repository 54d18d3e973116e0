-- ===== src/Networkable/Hex.antt =====
-- `print_hex`, padded and decoded, gives the bytes of the number, the highest first.
use ensicoin_cpp.Prelude.{
  ℕ, zero, suc, ◌+◌, ◌-◌, ◌*◌, ◌/◌, ◌%◌, ◌^◌, ◌≤◌, ◌<◌, ◌≡◌, refl, sym, ap, ap₂, ◌∙◌, ltb, leb,
  if◌then◌else◌, ltb→lt, lt→ltb, leb→le, Bool-cases, inl, inr, List, [], ◌∷◌, ◌++◌, length,
  replicate, All, length-append, append_assoc, be_bytes, be_bytes-IsByte, IsByte, arith,
}
use ensicoin_cpp.Networkable.{
  HexDecoder, hex_digit, print_hex, pad_left, encode, uint16_byte_repr, uint32_byte_repr,
  uint64_byte_repr, var_uint_byte_repr,
}
use native.Mathlib.Nat.{pow-suc}

-- The last w digits of v.
abbrev pub hex_fixed : ℕ → ℕ → List ℕ
hex_fixed zero v = []
hex_fixed (suc w) v = hex_fixed w (v / 16) ++ hex_digit (v % 16) ∷ []

replicate-snoc : (w : ℕ) → ◌++◌ {A = ℕ} (replicate w 48) (48 ∷ []) ≡ 48 ∷ replicate w 48
replicate-snoc zero = refl
replicate-snoc (suc w) = ap (◌∷◌ 48) (replicate-snoc w)

hex_fixed-zero : (w : ℕ) → hex_fixed w 0 ≡ replicate w 48
hex_fixed-zero zero = refl
hex_fixed-zero (suc w) = ap (λ (s : List ℕ). s ++ 48 ∷ []) (hex_fixed-zero w) ∙ replicate-snoc w

pub length-print_hex : (n w v : ℕ) → v < 16 ^ suc w → length (print_hex n v) ≤ suc w
unfolding print_hex
length-print_hex zero w v h = omega arith
length-print_hex (suc n) zero v h = ground arith
length-print_hex (suc n) (suc w) v h = ground (
  arith,
  length-print_hex n w (v / 16) (omega (arith, pow-suc 16 (suc w))),
  length-append (print_hex n (v / 16)) (hex_digit (v % 16) ∷ []),
)

-- A one-digit number.
pad-digit : (w v : ℕ) → v < 16 → pad_left (suc w) (hex_digit v ∷ []) ≡ hex_fixed (suc w) v
pad-digit w v h =
    ap (λ (k : ℕ). replicate k 48 ++ hex_digit v ∷ []) (let e : suc w - 1 ≡ w = omega arith in e)
    ∙ ap (λ (s : List ℕ). s ++ hex_digit v ∷ []) (sym (hex_fixed-zero w))
    ∙ ap₂ (λ (q r : ℕ). hex_fixed w q ++ hex_digit r ∷ []) (omega arith) (omega arith)

-- Padding does not look at the last digit.
pad_left-snoc :
    (w : ℕ) (s : List ℕ) (d : ℕ) → pad_left (suc w) (s ++ d ∷ []) ≡ pad_left w s ++ d ∷ []
pad_left-snoc w s d =
    ap (λ (k : ℕ). replicate k 48 ++ (s ++ d ∷ [])) (omega (arith, length-append s (d ∷ [])))
    ∙ sym (append_assoc (replicate (w - length s) 48) s (d ∷ []))

pub pad-print_hex :
    (n w v : ℕ) → w < n → v < 16 ^ suc w → pad_left (suc w) (print_hex n v) ≡ hex_fixed (suc w) v
unfolding print_hex
pad-print_hex zero w v hw h = absurd (omega arith)
pad-print_hex (suc n) zero v hw h = rw (lt→ltb v 16 (omega arith)) (pad-digit 0 v (omega arith))
pad-print_hex (suc n) (suc w) v hw h = elim (Bool-cases (ltb v 16)) [
  | inl small ↦ rw small (pad-digit (suc w) v (ltb→lt v 16 small))
  | inr big ↦ rw big (
      pad_left-snoc (suc w) (print_hex n (v / 16)) (hex_digit (v % 16))
      ∙ ap (λ (s : List ℕ). s ++ hex_digit (v % 16) ∷ [])
          (pad-print_hex n w (v / 16) (omega arith) (omega (arith, pow-suc 16 (suc w)))))
]

-- The digits of bytes.
abbrev pub digits_of : List ℕ → List ℕ
digits_of [] = []
digits_of (b ∷ bs) = hex_digit (b / 16) ∷ hex_digit (b % 16) ∷ digits_of bs

pub digits_of-append : (xs ys : List ℕ) → digits_of (xs ++ ys) ≡ digits_of xs ++ digits_of ys
digits_of-append [] ys = refl
digits_of-append (x ∷ xs) ys = rw (digits_of-append xs ys)

abbrev twice : ℕ → ℕ
twice zero = 0
twice (suc k) = suc (suc (twice k))

-- Two digits at a time, `hex_fixed` writes the bytes of the number.
pub hex_fixed-digits : (k v : ℕ) → hex_fixed (twice k) v ≡ digits_of (be_bytes k v)
hex_fixed-digits zero v = refl
hex_fixed-digits (suc k) v =
    ap₂ (λ (s : List ℕ) (d : ℕ). (s ++ hex_digit d ∷ []) ++ hex_digit (v % 16) ∷ [])
      (ap (hex_fixed (twice k)) (let q : v / 16 / 16 ≡ v / 256 = omega arith in q)
        ∙ hex_fixed-digits k (v / 256))
      (let r : v / 16 % 16 ≡ v % 256 / 16 = omega arith in r)
    ∙ append_assoc (digits_of (be_bytes k (v / 256))) _ _
    ∙ ap
        (λ (d : ℕ). digits_of (be_bytes k (v / 256)) ++ hex_digit (v % 256 / 16) ∷ hex_digit d ∷ [])
        (let r : v % 16 ≡ v % 256 % 16 = omega arith in r)
    ∙ sym (digits_of-append (be_bytes k (v / 256)) ((v % 256) ∷ []))

-- The format of Var_uint in plain arithmetic: the number itself, or a prefix and its bytes.
abbrev pub var_uint_wire : ℕ → List ℕ
var_uint_wire v =
    if leb v 252
    then v ∷ []
    else if leb v 0xffff
    then 0xfd ∷ be_bytes 2 v
    else if leb v 0xffffffff
    then 0xfe ∷ be_bytes 4 v
    else 0xff ∷ be_bytes 8 v

module _ (hex : HexDecoder) where
  pub decode-digits_of : (bs : List ℕ) → All IsByte bs → hex.decode (digits_of bs) ≡ bs
  decode-digits_of [] h = hex.decode-nil
  decode-digits_of (b ∷ bs) h =
      hex.decode-digits (b / 16) (b % 16) (digits_of bs) (omega arith) (omega arith)
      ∙ ap₂ (λ (x : ℕ) (xs : List ℕ). x ∷ xs) (omega arith) (decode-digits_of bs h.1)

  -- A number below 256 ^ (k + 1), printed, padded to 2 k + 2 digits and decoded.
  pub decode-print_hex :
      (k v : ℕ)
      → twice (suc k) ≤ 16
      → v < 16 ^ twice (suc k)
      → hex.decode (pad_left (twice (suc k)) (print_hex 16 v)) ≡ be_bytes (suc k) v
  decode-print_hex k v hk h =
      ap hex.decode
        (pad-print_hex 16 (suc (twice k)) v (omega arith) h ∙ hex_fixed-digits (suc k) v)
      ∙ decode-digits_of (be_bytes (suc k) v) (be_bytes-IsByte (suc k) v)

  pub uint16_byte_repr-bytes : (v : ℕ) → v < 2 ^ 16 → uint16_byte_repr hex v ≡ be_bytes 2 v
  unfolding uint16_byte_repr encode
  uint16_byte_repr-bytes v h = decode-print_hex 1 v (omega arith) (omega arith)

  pub uint32_byte_repr-bytes : (v : ℕ) → v < 2 ^ 32 → uint32_byte_repr hex v ≡ be_bytes 4 v
  unfolding uint32_byte_repr encode
  uint32_byte_repr-bytes v h = decode-print_hex 3 v (omega arith) (omega arith)

  pub uint64_byte_repr-bytes : (v : ℕ) → v < 2 ^ 64 → uint64_byte_repr hex v ≡ be_bytes 8 v
  unfolding uint64_byte_repr encode
  uint64_byte_repr-bytes v h = decode-print_hex 7 v (omega arith) (omega arith)

  -- The prefix byte of Var_uint stands before the digits.
  decode-prefixed :
      (d k v : ℕ)
      → d < 16
      → twice (suc k) ≤ 16
      → v < 16 ^ twice (suc k)
      → hex.decode (hex_digit 15 ∷ hex_digit d ∷ pad_left (twice (suc k)) (print_hex 16 v))
        ≡ (15 * 16 + d) ∷ be_bytes (suc k) v
  decode-prefixed d k v hd hk h =
      hex.decode-digits 15 d _ (omega arith) hd
      ∙ ap (λ (s : List ℕ). (15 * 16 + d) ∷ s) (decode-print_hex k v hk h)

  -- Var_uint writes the number on 1, 3, 5 or 9 bytes.
  pub var_uint_byte_repr-wire : (v : ℕ) → v < 2 ^ 64 → var_uint_byte_repr hex v ≡ var_uint_wire v
  unfolding var_uint_byte_repr encode
  var_uint_byte_repr-wire v h = elim (Bool-cases (leb v 252)) [
    | inl one ↦
        let le : v ≤ 252 = leb→le v 252 one in
        rw one
          (decode-print_hex 0 v (omega arith) (omega arith) ∙ ap (λ (b : ℕ). b ∷ []) (omega arith))
    | inr more ↦ elim (Bool-cases (leb v 0xffff)) [
      | inl two ↦
          let le : v ≤ 0xffff = leb→le v 0xffff two in
          rw (more, two) (decode-prefixed 13 1 v (omega arith) (omega arith) (omega arith))
      | inr more₂ ↦ elim (Bool-cases (leb v 0xffffffff)) [
        | inl four ↦
            let le : v ≤ 0xffffffff = leb→le v 0xffffffff four in
            rw (more, more₂, four)
              (decode-prefixed 14 3 v (omega arith) (omega arith) (omega arith))
        | inr more₃ ↦
            rw (more, more₂, more₃)
              (decode-prefixed 15 7 v (omega arith) (omega arith) (omega arith))
      ]
    ]
  ]
