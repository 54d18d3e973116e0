-- ===== src/Message/Content/Sent.antt =====
-- Every message sent, as the peer reads it.
use ensicoin_cpp.Block.RoundTrip.{read_block}
use ensicoin_cpp.Message.{
  who_am_i_message, addr_message, addr_from_buffer, get_data_message, inv_message,
  not_found_message, inv_array_from_buffer, block_message, block_message_from_buffer,
  transaction_message, transaction_message_from_buffer, get_blocks_message, get_blocks_from_buffer,
}
use ensicoin_cpp.Message.Content.{
  Content, hello, hello_ack, addresses, addresses_wanted, data_wanted, announced, not_held,
  one_block, one_transaction, blocks_wanted, mempool_wanted, message_of, content_from_buffer, seen,
  AreReferences, IsSendableContent,
}
use ensicoin_cpp.Message.Payloads.{
  IsAddress, cut_address, read_address, who_am_i_from_buffer-payload,
}
use ensicoin_cpp.NetworkBuffer.{buffer_of, overwrite}
use ensicoin_cpp.Networkable.{
  HexDecoder, Address, InvVect, address_from_buffer, address_byte_repr, fixed_str,
  fixed_str_from_buffer, var_array_byte_repr,
}
use ensicoin_cpp.Networkable.Inventory.{swap, references-ReadsAs}
use ensicoin_cpp.Networkable.Strings.{
  zeroed, RoundTrips, ReadsAs, var_array-ReadsAs, var_array-RoundTrips,
}
use ensicoin_cpp.Prelude.{ℕ, ◌≡◌, refl, some, List, ◌++◌, length, map, All, append_assoc}
use ensicoin_cpp.Transaction.RoundTrip.{
  IsSendableCount, IsSendableHash, All-map, written_hash, read_hash_field, transaction-RoundTrips,
}

module _ (hex : HexDecoder) (stack : List ℕ) where
  addresses-ReadsAs :
      (known : List Address)
      → All IsAddress known
      → IsSendableCount (length known)
      → ReadsAs addr_from_buffer
          (var_array_byte_repr hex (address_byte_repr hex))
          (map cut_address)
          known
  unfolding addr_from_buffer
  addresses-ReadsAs known h n =
      var_array-ReadsAs hex address_from_buffer (address_byte_repr hex) cut_address known
        (All-map IsAddress _ known (λ a g rest. read_address hex a rest g) h) n.fits n.unskipped

  references-sent :
      (vs : List InvVect) (rest : List ℕ)
      → AreReferences vs
      → inv_array_from_buffer (buffer_of zeroed ((inv_message hex vs).payload ++ rest))
        ≡ (map swap vs, buffer_of zeroed rest)
  unfolding inv_array_from_buffer inv_message
  references-sent vs rest h = references-ReadsAs hex vs h.0 h.1.fits h.1.unskipped rest

  hashes-RoundTrip :
      (hashes : List (List ℕ)) (stop rest : List ℕ)
      → All IsSendableHash hashes
      → IsSendableCount (length hashes)
      → IsSendableHash stop
      → get_blocks_from_buffer
          (buffer_of zeroed ((get_blocks_message hex stack hashes stop).payload ++ rest))
        ≡ ((hashes, stop), buffer_of zeroed rest)
  unfolding get_blocks_from_buffer get_blocks_message
  hashes-RoundTrip hashes stop rest h n hs = rw (
    append_assoc (var_array_byte_repr hex written hashes) stop rest,
    var_array-RoundTrips hex (fixed_str_from_buffer 32) written hashes
        (All-map IsSendableHash _ hashes back h) n.fits n.unskipped (stop ++ rest),
    read_hash_field stop rest hs,
  )
    where
      written : List ℕ → List ℕ
      written hash = fixed_str 32 (overwrite hash stack)

      back :
          (hash : List ℕ) → IsSendableHash hash → RoundTrips (fixed_str_from_buffer 32) written hash
      back hash g more = rw (written_hash hash stack g) (read_hash_field hash more g)

  -- Every message whose content the format can carry is read by the constructor that its type stands
  -- for as the peer sees it, and what follows it is left: the bytes of addresses from the first 0 on
  -- are 0, references to blocks and to transactions are swapped, a block has the target 0, and
  -- everything else is as it was sent; the storage is zeroed.
  pub content_from_buffer-message_of :
      (c : Content) (rest : List ℕ)
      → IsSendableContent c
      → content_from_buffer hex stack
          (message_of hex stack c).type
          (buffer_of zeroed ((message_of hex stack c).payload ++ rest))
        ≡ (some (seen c), buffer_of zeroed rest)
  unfolding content_from_buffer message_of seen who_am_i_message addr_message get_data_message
      inv_message not_found_message block_message transaction_message get_blocks_message
      block_message_from_buffer transaction_message_from_buffer
  content_from_buffer-message_of (hello w) rest h =
      rw (who_am_i_from_buffer-payload hex w rest h.0 h.1 h.2 h.3)
  content_from_buffer-message_of hello_ack rest h = refl
  content_from_buffer-message_of (addresses known) rest h =
      rw (addresses-ReadsAs known h.0 h.1 rest)
  content_from_buffer-message_of addresses_wanted rest h = refl
  content_from_buffer-message_of (data_wanted vs) rest h = rw (references-sent vs rest h)
  content_from_buffer-message_of (announced vs) rest h = rw (references-sent vs rest h)
  content_from_buffer-message_of (not_held vs) rest h = rw (references-sent vs rest h)
  content_from_buffer-message_of (one_block b) rest h = rw (read_block hex stack b rest h)
  content_from_buffer-message_of (one_transaction t) rest h =
      rw (transaction-RoundTrips hex stack t h rest)
  content_from_buffer-message_of (blocks_wanted hashes stop) rest h =
      rw (hashes-RoundTrip hashes stop rest h.0 h.1 h.2)
  content_from_buffer-message_of mempool_wanted rest h = refl
