-- ===== src/Networkable/Integers.antt =====
-- Round trips of Uint16, Uint32, Uint64 and Var_uint: what `byteRepr` writes, the constructor from a
-- NetworkBuffer reads.
use ensicoin_cpp.Prelude.{
  ℕ, ◌^◌, ◌≤◌, ◌<◌, ◌≡◌, refl, ap, ◌∙◌, leb, Bool-cases, lt→ltb, leb→le, le→leb, inl, inr, true,
  false, List, ◌++◌, length-be_bytes, be_bytes, be_bytes-IsByte, be_value-be_bytes, arith,
}
use ensicoin_cpp.NetworkBuffer.{
  buffer_of, read_uint16, read_uint32, read_uint64, read_var_uint, is_space,
}
use ensicoin_cpp.NetworkBuffer.Reads.{
  read_uint16-append, read_uint32-append, read_uint64-append, read_char-cons, read_char-space,
}
use ensicoin_cpp.Networkable.{
  HexDecoder, uint16_byte_repr, uint32_byte_repr, uint64_byte_repr, var_uint_byte_repr,
}
use ensicoin_cpp.Networkable.Hex.{
  uint16_byte_repr-bytes, uint32_byte_repr-bytes, uint64_byte_repr-bytes, var_uint_wire,
  var_uint_byte_repr-wire,
}

module _ (hex : HexDecoder) (fresh : ℕ → List ℕ) (rest : List ℕ) where
  pub read_be16 :
      (v : ℕ)
      → v < 2 ^ 16
      → read_uint16 (buffer_of fresh (be_bytes 2 v ++ rest)) ≡ (v, buffer_of fresh rest)
  read_be16 v h =
      read_uint16-append fresh rest (be_bytes 2 v) (length-be_bytes 2 v) (be_bytes-IsByte 2 v)
      ∙ ap (λ (n : ℕ). (n, buffer_of fresh rest)) (be_value-be_bytes 2 v (omega arith))

  pub read_be32 :
      (v : ℕ)
      → v < 2 ^ 32
      → read_uint32 (buffer_of fresh (be_bytes 4 v ++ rest)) ≡ (v, buffer_of fresh rest)
  read_be32 v h =
      read_uint32-append fresh rest (be_bytes 4 v) (length-be_bytes 4 v) (be_bytes-IsByte 4 v)
      ∙ ap (λ (n : ℕ). (n, buffer_of fresh rest)) (be_value-be_bytes 4 v (omega arith))

  pub read_be64 :
      (v : ℕ)
      → v < 2 ^ 64
      → read_uint64 (buffer_of fresh (be_bytes 8 v ++ rest)) ≡ (v, buffer_of fresh rest)
  read_be64 v h =
      read_uint64-append fresh rest (be_bytes 8 v) (length-be_bytes 8 v) (be_bytes-IsByte 8 v)
      ∙ ap (λ (n : ℕ). (n, buffer_of fresh rest)) (be_value-be_bytes 8 v (omega arith))

  -- A 16-bit number is read back, and what follows it is left.
  pub read_uint16-byte_repr :
      (v : ℕ)
      → v < 2 ^ 16
      → read_uint16 (buffer_of fresh (uint16_byte_repr hex v ++ rest)) ≡ (v, buffer_of fresh rest)
  read_uint16-byte_repr v h = rw (uint16_byte_repr-bytes hex v h) (read_be16 v h)

  -- A 32-bit number is read back, and what follows it is left.
  pub read_uint32-byte_repr :
      (v : ℕ)
      → v < 2 ^ 32
      → read_uint32 (buffer_of fresh (uint32_byte_repr hex v ++ rest)) ≡ (v, buffer_of fresh rest)
  read_uint32-byte_repr v h = rw (uint32_byte_repr-bytes hex v h) (read_be32 v h)

  -- A 64-bit number is read back, and what follows it is left.
  pub read_uint64-byte_repr :
      (v : ℕ)
      → v < 2 ^ 64
      → read_uint64 (buffer_of fresh (uint64_byte_repr hex v ++ rest)) ≡ (v, buffer_of fresh rest)
  read_uint64-byte_repr v h = rw (uint64_byte_repr-bytes hex v h) (read_be64 v h)

  read_wire :
      (v : ℕ)
      → v < 2 ^ 64
      → is_space v ≡ false
      → read_var_uint (buffer_of fresh (var_uint_wire v ++ rest)) ≡ (v, buffer_of fresh rest)
  unfolding read_var_uint
  read_wire v h s = elim (Bool-cases (leb v 252)) [
    | inl one ↦
        rw (one, read_char-cons fresh rest v s, lt→ltb v 0xfd (omega (arith, leb→le v 252 one)))
    | inr more ↦ elim (Bool-cases (leb v 0xffff)) [
      | inl two ↦
          let le : v ≤ 0xffff = leb→le v 0xffff two in
          rw (more, two, read_char-cons fresh (be_bytes 2 v ++ rest) 0xfd refl)
            (read_be16 v (omega arith))
      | inr more₂ ↦ elim (Bool-cases (leb v 0xffffffff)) [
        | inl four ↦
            let le : v ≤ 0xffffffff = leb→le v 0xffffffff four in
            rw (more, more₂, four, read_char-cons fresh (be_bytes 4 v ++ rest) 0xfe refl)
              (read_be32 v (omega arith))
        | inr more₃ ↦
            rw (more, more₂, more₃, read_char-cons fresh (be_bytes 8 v ++ rest) 0xff refl)
              (read_be64 v h)
      ]
    ]
  ]

  -- A variable-length number below 2 ^ 64 is read back, and what follows it is left, if it is none
  -- of 9 to 13 and 32, the codes of white space.
  pub read_var_uint-byte_repr :
      (v : ℕ)
      → v < 2 ^ 64
      → is_space v ≡ false
      → read_var_uint (buffer_of fresh (var_uint_byte_repr hex v ++ rest))
        ≡ (v, buffer_of fresh rest)
  read_var_uint-byte_repr v h s = rw (var_uint_byte_repr-wire hex v h) (read_wire v h s)

  -- The numbers 9 to 13 and 32 are not read back: their byte is skipped as white space, and the
  -- number is taken from the bytes behind it.
  pub read_var_uint-space :
      (v : ℕ)
      → is_space v ≡ true
      → read_var_uint (buffer_of fresh (var_uint_byte_repr hex v ++ rest))
        ≡ read_var_uint (buffer_of fresh rest)
  unfolding read_var_uint
  read_var_uint-space v s = rw (
    var_uint_byte_repr-wire hex v (ground arith),
    le→leb v 252 (ground arith),
    read_char-space fresh rest v s,
  )
