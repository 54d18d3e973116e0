-- ===== src/Message/Content.antt =====
-- The classes of include/messages.hpp: what each message holds, the message it sends, and what a peer
-- makes of it.
pub mod Sent
use ensicoin_cpp.Block.{Block, block_from_buffer}
use ensicoin_cpp.Block.RoundTrip.{IsSendableBlock, without_target, read_block}
use ensicoin_cpp.Message.{
  Message, MessageType, whoami, whoamiack, getaddr, addr, inv, getdata, notfound, block, tx,
  getblocks, getmempool, unknown, WhoAmI, who_am_i_message, who_am_i_from_buffer, who_am_i_ack,
  get_addr, addr_message, addr_from_buffer, get_data_message, inv_message, not_found_message,
  inv_array_from_buffer, block_message, block_message_from_buffer, transaction_message,
  transaction_message_from_buffer, get_blocks_message, get_blocks_from_buffer, get_mempool,
}
use ensicoin_cpp.Message.Payloads.{
  IsAddress, cut_address, read_address, who_am_i_from_buffer-payload,
}
use ensicoin_cpp.NetworkBuffer.{NetworkBuffer, Reader, ◌>>=◌, pure, buffer_of, overwrite}
use ensicoin_cpp.Networkable.{
  HexDecoder, Address, InvVect, address_from_buffer, address_byte_repr, fixed_str,
  fixed_str_from_buffer, var_array_byte_repr,
}
use ensicoin_cpp.Networkable.Inventory.{IsReference, swap, references-ReadsAs}
use ensicoin_cpp.Networkable.Strings.{
  zeroed, RoundTrips, ReadsAs, var_array-ReadsAs, var_array-RoundTrips,
}
use ensicoin_cpp.Prelude.{
  ℕ, ◌^◌, ◌<◌, ◌≡◌, refl, sym, ap, ◌∙◌, Option, none, some, List, [], ◌∷◌, ◌++◌, length, map, All,
  append_assoc, arith,
}
use ensicoin_cpp.Transaction.{Transaction}
use ensicoin_cpp.Transaction.RoundTrip.{
  IsSendable, IsSendableCount, IsSendableHash, IsSendableTransaction, All-map, written_hash,
  read_hash_field, transaction-RoundTrips,
}

-- The classes, in the order of the source, with their members.
pub data Content : Type 0 where
  hello : WhoAmI → Content
  hello_ack : Content
  addresses : List Address → Content
  addresses_wanted : Content
  data_wanted : List InvVect → Content
  announced : List InvVect → Content
  not_held : List InvVect → Content
  one_block : Block → Content
  one_transaction : Transaction → Content
  blocks_wanted : List (List ℕ) → List ℕ → Content
  mempool_wanted : Content

module _ (hex : HexDecoder) (stack : List ℕ) where
  unfoldable pub message_of : Content → Message
  message_of (hello w) = who_am_i_message hex w
  message_of hello_ack = who_am_i_ack
  message_of (addresses known) = addr_message hex known
  message_of addresses_wanted = get_addr
  message_of (data_wanted vs) = get_data_message hex vs
  message_of (announced vs) = inv_message hex vs
  message_of (not_held vs) = not_found_message hex vs
  message_of (one_block b) = block_message hex stack b
  message_of (one_transaction t) = transaction_message hex stack t
  message_of (blocks_wanted hashes stop) = get_blocks_message hex stack hashes stop
  message_of mempool_wanted = get_mempool

  -- The constructor from a NetworkBuffer of the class that a type of message stands for.
  unfoldable pub content_from_buffer : MessageType → Reader (Option Content)
  content_from_buffer whoami = do w ← who_am_i_from_buffer; pure (some (hello w))
  content_from_buffer whoamiack = pure (some hello_ack)
  content_from_buffer getaddr = pure (some addresses_wanted)
  content_from_buffer addr = do known ← addr_from_buffer; pure (some (addresses known))
  content_from_buffer inv = do vs ← inv_array_from_buffer; pure (some (announced vs))
  content_from_buffer getdata = do vs ← inv_array_from_buffer; pure (some (data_wanted vs))
  content_from_buffer notfound = do vs ← inv_array_from_buffer; pure (some (not_held vs))
  content_from_buffer block = do
    p ← block_message_from_buffer hex stack
    pure (some (one_block p.1))
  content_from_buffer tx = do
    p ← transaction_message_from_buffer hex stack
    pure (some (one_transaction p.1))
  content_from_buffer getblocks = do p ← get_blocks_from_buffer; pure (some (blocks_wanted p.0 p.1))
  content_from_buffer getmempool = pure (some mempool_wanted)
  content_from_buffer unknown = pure none

-- What a peer makes of a message: addresses are cut at their first 0, the two kinds of references are
-- swapped, and a block has lost its target.
unfoldable pub seen : Content → Content
seen (hello w) = hello (record w { address = cut_address w.address })
seen hello_ack = hello_ack
seen (addresses known) = addresses (map cut_address known)
seen addresses_wanted = addresses_wanted
seen (data_wanted vs) = data_wanted (map swap vs)
seen (announced vs) = announced (map swap vs)
seen (not_held vs) = not_held (map swap vs)
seen (one_block b) = one_block (record b { header = without_target b.header })
seen (one_transaction t) = one_transaction t
seen (blocks_wanted hashes stop) = blocks_wanted hashes stop
seen mempool_wanted = mempool_wanted

-- What the format can carry.
abbrev pub AreReferences : List InvVect → Type 0
AreReferences vs = All IsReference vs × IsSendableCount (length vs)

abbrev pub IsSendableContent : Content → Type 0
IsSendableContent (hello w) =
    (w.version < 2 ^ 32)
    × IsAddress w.address
    × All IsSendable w.services
    × IsSendableCount (length w.services)
IsSendableContent hello_ack = Unit
IsSendableContent (addresses known) = All IsAddress known × IsSendableCount (length known)
IsSendableContent addresses_wanted = Unit
IsSendableContent (data_wanted vs) = AreReferences vs
IsSendableContent (announced vs) = AreReferences vs
IsSendableContent (not_held vs) = AreReferences vs
IsSendableContent (one_block b) = IsSendableBlock b
IsSendableContent (one_transaction t) = IsSendableTransaction t
IsSendableContent (blocks_wanted hashes stop) =
    All IsSendableHash hashes × IsSendableCount (length hashes) × IsSendableHash stop
IsSendableContent mempool_wanted = Unit
