-- ===== src/Block/Target.antt =====
-- The numbers that the targets of src/target.cpp stand for.
use ensicoin_cpp.Block.{shift_count, decompress}
use ensicoin_cpp.Prelude.{
  ℕ, ◌+◌, ◌-◌, ◌*◌, ◌%◌, ◌^◌, ◌<◌, ◌≤◌, ◌≡◌, ap₂, ltb, if◌then◌else◌, Bool-cases, inl, inr, arith,
}

-- The shift of a target with the given exponent.
abbrev pub shift_of : ℕ → ℕ
shift_of exponent = if ltb exponent 3 then 2 ^ 32 - 8 * (3 - exponent) else 8 * (exponent - 3)

shift_count-exponent :
    (exponent mantissa : ℕ)
    → exponent < 256
    → mantissa < 2 ^ 24
    → shift_count (exponent * 2 ^ 24 + mantissa) ≡ shift_of exponent
unfolding shift_count
shift_count-exponent exponent mantissa he hm = elim (Bool-cases (ltb exponent 3)) [
  | inl few ↦ let small : exponent < 3 = ground arith in rw few (omega arith)
  | inr enough ↦ let large : 3 ≤ exponent = ground arith in rw enough (omega arith)
]

-- A target of an exponent of 8 bits and a mantissa of 24 stands for the mantissa, shifted by as many
-- bytes as the exponent is above 3; below 3 the shift wraps around, to 8 bits for each byte that it
-- lacks less than 2 ^ 32.
pub decompress-exponent :
    (exponent mantissa : ℕ)
    → exponent < 256
    → mantissa < 2 ^ 24
    → decompress (exponent * 2 ^ 24 + mantissa) ≡ mantissa * 2 ^ shift_of exponent
unfolding decompress
decompress-exponent exponent mantissa he hm =
    ap₂ (λ (m s : ℕ). m * 2 ^ s) digits (shift_count-exponent exponent mantissa he hm)
  where
    digits : (exponent * 2 ^ 24 + mantissa) % 2 ^ 24 ≡ mantissa
    digits = omega arith
