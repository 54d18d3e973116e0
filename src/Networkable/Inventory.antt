-- ===== src/Networkable/Inventory.antt =====
-- Inv_vect of src/networkable.cpp, and MessageHeader.
use ensicoin_cpp.Prelude.{
  ℕ, ◌<◌, ◌^◌, false, [], ◌∷◌, map, All, ◌≡◌, ◌≢◌, refl, List, ◌++◌, length, append_assoc, arith,
}
use ensicoin_cpp.NetworkBuffer.{buffer_of, read_str, is_space}
use ensicoin_cpp.NetworkBuffer.Strings.{IsText}
use ensicoin_cpp.Networkable.{
  HexDecoder, InvVect, RessourceType, block_res, tx_res, invalid_res, inv_vect_byte_repr,
  inv_vect_from_buffer, uint32_byte_repr, var_array_from_buffer, var_array_byte_repr,
}
use ensicoin_cpp.Networkable.Integers.{read_uint32-byte_repr}
use ensicoin_cpp.Networkable.Strings.{zeroed, read_str-zeroed, ReadsAs, var_array-ReadsAs}

-- The kind that is read for a kind that was written.
abbrev pub swapped : RessourceType → RessourceType
swapped block_res = tx_res
swapped tx_res = block_res
swapped invalid_res = invalid_res

pub read_hash :
    (hash rest : List ℕ)
    → IsText hash
    → length hash ≡ 32
    → read_str 32 (buffer_of zeroed (hash ++ rest)) ≡ (hash, buffer_of zeroed rest)
read_hash hash rest t e = rw e at (read_str-zeroed hash rest t (omega arith))

module _ (hex : HexDecoder) where
  read_swapped :
      (ty : RessourceType) (hash rest : List ℕ)
      → ty ≢ invalid_res
      → IsText hash
      → length hash ≡ 32
      → inv_vect_from_buffer
          (buffer_of zeroed (inv_vect_byte_repr hex (record { type = ty; hash = hash }) ++ rest))
        ≡ (record { type = swapped ty; hash = hash }, buffer_of zeroed rest)
  unfolding inv_vect_from_buffer inv_vect_byte_repr
  read_swapped block_res hash rest valid t e = rw (
    append_assoc (uint32_byte_repr hex 0) hash rest,
    read_uint32-byte_repr hex zeroed (hash ++ rest) 0 (omega arith),
    read_hash hash rest t e,
  )
  read_swapped tx_res hash rest valid t e = rw (
    append_assoc (uint32_byte_repr hex 1) hash rest,
    read_uint32-byte_repr hex zeroed (hash ++ rest) 1 (omega arith),
    read_hash hash rest t e,
  )
  read_swapped invalid_res hash rest valid t e = absurd (valid refl)

  -- A reference to a block or a transaction, with a hash of 32 bytes that are not 0, is read as one to
  -- the other kind with the same hash; the storage is zeroed.
  pub inv_vect-swapped :
      (v : InvVect) (rest : List ℕ)
      → v.type ≢ invalid_res
      → IsText v.hash
      → length v.hash ≡ 32
      → inv_vect_from_buffer (buffer_of zeroed (inv_vect_byte_repr hex v ++ rest))
        ≡ (record { type = swapped v.type; hash = v.hash }, buffer_of zeroed rest)
  inv_vect-swapped v rest = read_swapped v.type v.hash rest

-- A reference that the format can carry.
pub record IsReference (v : InvVect) : Type 0 where
  pub valid : v.type ≢ invalid_res
  pub text : IsText v.hash
  pub full : length v.hash ≡ 32

abbrev pub swap : InvVect → InvVect
swap v = record { type = swapped v.type; hash = v.hash }

pub references-ReadsAs :
    (hex : HexDecoder) (vs : List InvVect)
    → All IsReference vs
    → length vs < 2 ^ 64
    → is_space (length vs) ≡ false
    → ReadsAs
        (var_array_from_buffer inv_vect_from_buffer)
        (var_array_byte_repr hex (inv_vect_byte_repr hex))
        (map swap)
        vs
references-ReadsAs hex vs h n sp =
    var_array-ReadsAs hex inv_vect_from_buffer (inv_vect_byte_repr hex) swap vs (each vs h) n sp
  where
    each :
        (ws : List InvVect)
        → All IsReference ws
        → All (ReadsAs inv_vect_from_buffer (inv_vect_byte_repr hex) swap) ws
    each [] a = tt
    each (w ∷ ws) a = (λ rest. inv_vect-swapped hex w rest a.0.valid a.0.text a.0.full, each ws a.1)
