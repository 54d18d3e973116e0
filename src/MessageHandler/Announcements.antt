-- ===== src/MessageHandler/Announcements.antt =====
-- References to blocks and transactions that a peer announces, and what it is asked for.
use ensicoin_cpp.Connection.{Connection, send_message}
use ensicoin_cpp.Message.{inv_array_from_buffer, inv_message, get_data_message}
use ensicoin_cpp.MessageHandler.{is_unknown, unknown_of, on_inv}
use ensicoin_cpp.NetworkBuffer.{NetworkBuffer, buffer_of}
use ensicoin_cpp.Networkable.{
  HexDecoder, InvVect, block_res, tx_res, inv_vect_byte_repr, var_array_byte_repr,
}
use ensicoin_cpp.Networkable.Inventory.{IsReference, swap, references-ReadsAs}
use ensicoin_cpp.Networkable.Strings.{zeroed}
use ensicoin_cpp.Prelude.{
  ℕ, ◌≡◌, refl, ap, if◌then◌else◌, Bool, Bool-cases, inl, inr, List, [], ◌∷◌, map, length,
  length-map, append-nil, All, arith,
}
use ensicoin_cpp.Transaction.RoundTrip.{IsSendableCount, IsSendableHash}

read_inventory :
    (hex : HexDecoder) (vs : List InvVect)
    → All IsReference vs
    → IsSendableCount (length vs)
    → (inv_array_from_buffer (buffer_of zeroed (inv_message hex vs).payload)).0 ≡ map swap vs
unfolding inv_array_from_buffer inv_message
read_inventory hex vs h n =
    ap (λ (p : List InvVect × NetworkBuffer). p.0)
      (rw (append-nil (var_array_byte_repr hex (inv_vect_byte_repr hex) vs)) at
        (references-ReadsAs hex vs h n.fits n.unskipped []))

-- The references to transactions, and to blocks, with the given hashes.
abbrev pub to_tx : List ℕ → InvVect
to_tx hash = record { type = tx_res; hash = hash }

abbrev pub to_block : List ℕ → InvVect
to_block hash = record { type = block_res; hash = hash }

-- The hashes that are not known.
unfoldable pub missing : (List ℕ → Bool) → List (List ℕ) → List (List ℕ)
missing known [] = []
missing known (h ∷ hs) = let rest = missing known hs in if known h then rest else h ∷ rest

module _ (tx_exists block_exists : List ℕ → Bool) where
  unknown_of-transactions :
      (hashes : List (List ℕ))
      → unknown_of tx_exists block_exists (map swap (map to_tx hashes))
        ≡ map to_block (missing block_exists hashes)
  unfolding unknown_of is_unknown missing
  unknown_of-transactions [] = refl
  unknown_of-transactions (h ∷ hs) = elim (Bool-cases (block_exists h)) [
    | inl known ↦ rw known (unknown_of-transactions hs)
    | inr new ↦ rw new (ap (◌∷◌ (to_block h)) (unknown_of-transactions hs))
  ]

  unknown_of-blocks :
      (hashes : List (List ℕ))
      → unknown_of tx_exists block_exists (map swap (map to_block hashes))
        ≡ map to_tx (missing tx_exists hashes)
  unfolding unknown_of is_unknown missing
  unknown_of-blocks [] = refl
  unknown_of-blocks (h ∷ hs) = elim (Bool-cases (tx_exists h)) [
    | inl known ↦ rw known (unknown_of-blocks hs)
    | inr new ↦ rw new (ap (◌∷◌ (to_tx h)) (unknown_of-blocks hs))
  ]

  references :
      (f : List ℕ → InvVect) (hashes : List (List ℕ))
      → ((hash : List ℕ) → IsSendableHash hash → IsReference (f hash))
      → All IsSendableHash hashes
      → All IsReference (map f hashes)
  references f [] g h = tt
  references f (hash ∷ hashes) g h = (g hash h.0, references f hashes g h.1)

  -- An announcement of transactions is answered with a GetData for blocks, those with the same hashes
  -- that the node has no block for, and one of blocks with a GetData for transactions, those that the
  -- node has no transaction for; the hashes have 32 bytes, none of them 0, the format can carry their
  -- number, and the storage is zeroed.
  pub on_inv-inv_message :
      (hex : HexDecoder) (hashes : List (List ℕ)) (c : Connection)
      → All IsSendableHash hashes
      → IsSendableCount (length hashes)
      → (on_inv tx_exists block_exists hex
            (buffer_of zeroed (inv_message hex (map to_tx hashes)).payload)
            c
          ≡ send_message (get_data_message hex (map to_block (missing block_exists hashes))) c)
        × (on_inv tx_exists block_exists hex
              (buffer_of zeroed (inv_message hex (map to_block hashes)).payload)
              c
            ≡ send_message (get_data_message hex (map to_tx (missing tx_exists hashes))) c)
  unfolding on_inv
  on_inv-inv_message hex hashes c h n = (
    rw (
      read_inventory hex (map to_tx hashes)
          (references to_tx hashes
            (λ hash g. record { valid = λ e. ground (arith, e); text = g.text; full = g.full }) h)
          (rw (length-map to_tx hashes) n),
      unknown_of-transactions hashes,
    ),
    rw (
      read_inventory hex (map to_block hashes)
          (references to_block hashes
            (λ hash g. record { valid = λ e. ground (arith, e); text = g.text; full = g.full }) h)
          (rw (length-map to_block hashes) n),
      unknown_of-blocks hashes,
    ),
  )
