-- ===== src/Message.antt =====
-- include/messages.hpp and src/message/: the messages that nodes exchange.
pub mod Wire
pub mod Payloads
pub mod Content
use ensicoin_cpp.Block.{Block, block_byte_repr, block_from_buffer}
use ensicoin_cpp.Constants.{magic_number, protocol_version}
use ensicoin_cpp.NetworkBuffer.{Reader, ◌>>=◌, pure, read_uint32}
use ensicoin_cpp.Networkable.{
  HexDecoder, Address, InvVect, RessourceType, invalid_res, uint32_byte_repr, var_str_byte_repr,
  var_str_from_buffer, var_array_byte_repr, var_array_from_buffer, inv_vect_byte_repr,
  inv_vect_from_buffer, address_byte_repr, address_from_buffer, message_header_byte_repr, fixed_str,
  fixed_str_from_buffer,
}
use ensicoin_cpp.NetworkBuffer.{overwrite}
use ensicoin_cpp.Prelude.{
  ℕ, zero, suc, ◌-◌, ◌==◌, if◌then◌else◌, Bool, true, false, ◌&&◌, ◌||◌, List, [], ◌∷◌, ◌++◌, map,
  length, replicate, codes,
}
use ensicoin_cpp.Transaction.{Transaction, transaction_byte_repr, transaction_from_buffer}

pub data MessageType : Type 0 where
  whoami whoamiack getaddr addr inv getdata notfound block tx getblocks getmempool unknown :
      MessageType

unfoldable pub get_type_as_string : MessageType → List ℕ
get_type_as_string whoami = codes "whoami"
get_type_as_string whoamiack = codes "whoamiack"
get_type_as_string getaddr = codes "getaddr"
get_type_as_string addr = codes "addr"
get_type_as_string inv = codes "inv"
get_type_as_string getdata = codes "getdata"
get_type_as_string notfound = codes "notfound"
get_type_as_string block = codes "block"
get_type_as_string tx = codes "tx"
get_type_as_string getblocks = codes "getblocks"
get_type_as_string getmempool = codes "getmempool"
get_type_as_string unknown = codes "unknown"

is_prefix : List ℕ → List ℕ → Bool
is_prefix [] ys = true
is_prefix (x ∷ xs) [] = false
is_prefix (x ∷ xs) (y ∷ ys) = (x == y) && is_prefix xs ys

-- `text.find(word) != npos`.
unfoldable pub finds : List ℕ → List ℕ → Bool
unfolding is_prefix
finds word [] = is_prefix word []
finds word (c ∷ cs) = is_prefix word (c ∷ cs) || finds word cs

unfoldable pub get_type_from_string : List ℕ → MessageType
unfolding finds
get_type_from_string s =
    if finds (codes "whoamiack") s
    then whoamiack
    else if finds (codes "whoami") s
    then whoami
    else if finds (codes "getaddr") s
    then getaddr
    else if finds (codes "addr") s
    then addr
    else if finds (codes "inv") s
    then inv
    else if finds (codes "getblocks") s
    then getblocks
    else if finds (codes "getmempool") s
    then getmempool
    else if finds (codes "getdata") s
    then getdata
    else if finds (codes "notfound") s
    then notfound
    else if finds (codes "block") s
    then block
    else if finds (codes "tx") s
    then tx
    else unknown

-- A Message: its type, and what its `payload()` returns.
pub record Message : Type 0 where
  pub type : MessageType
  pub payload : List ℕ

-- `strType += std::string(12 - strType.size(), 0)`.
unfoldable pub padded_type : MessageType → List ℕ
unfolding get_type_as_string
padded_type t = get_type_as_string t ++ replicate (12 - length (get_type_as_string t)) 0

unfoldable pub message_byte_repr : HexDecoder → List ℕ → Message → List ℕ
message_byte_repr hex stack m =
    message_header_byte_repr hex stack (record {
      magic = magic_number;
      type = padded_type m.type;
      payload_length = length m.payload;
    })
    ++ m.payload

-- The content of a WhoAmI.
pub record WhoAmI : Type 0 where
  pub version : ℕ
  pub address : Address
  pub services : List (List ℕ)

-- The constructor for a node's own address.
unfoldable pub who_am_i : Address → WhoAmI
who_am_i node_address = record {
  version = protocol_version;
  address = node_address;
  services = codes "node" ∷ [];
}

unfoldable pub who_am_i_from_buffer : Reader WhoAmI
who_am_i_from_buffer = do
  version ← read_uint32
  address ← address_from_buffer
  services ← var_array_from_buffer var_str_from_buffer
  pure (record { version = version; address = address; services = services })

unfoldable pub addr_from_buffer : Reader (List Address)
addr_from_buffer = var_array_from_buffer address_from_buffer

-- The hashes of a GetBlocks and the one to stop at.
unfoldable pub get_blocks_from_buffer : Reader (List (List ℕ) × List ℕ)
get_blocks_from_buffer = do
  block_hashes ← var_array_from_buffer (fixed_str_from_buffer 32)
  stop_hash ← fixed_str_from_buffer 32
  pure (block_hashes, stop_hash)

-- Inv, GetData and NotFound.
unfoldable pub inv_array_from_buffer : Reader (List InvVect)
inv_array_from_buffer = var_array_from_buffer inv_vect_from_buffer

module _ (hex : HexDecoder) where
  unfoldable pub who_am_i_message : WhoAmI → Message
  who_am_i_message w = record {
    type = whoami;
    payload =
        uint32_byte_repr hex w.version
        ++ (address_byte_repr hex w.address
            ++ var_array_byte_repr hex (var_str_byte_repr hex) w.services);
  }

  inv_payload : List InvVect → List ℕ
  inv_payload data_ = var_array_byte_repr hex (inv_vect_byte_repr hex) data_

  unfoldable pub inv_message : List InvVect → Message
  unfolding inv_payload
  inv_message data_ = record { type = inv; payload = inv_payload data_ }

  unfoldable pub get_data_message : List InvVect → Message
  unfolding inv_payload
  get_data_message data_ = record { type = getdata; payload = inv_payload data_ }

  unfoldable pub not_found_message : List InvVect → Message
  unfolding inv_payload
  not_found_message data_ = record { type = notfound; payload = inv_payload data_ }

  unfoldable pub addr_message : List Address → Message
  addr_message addresses = record {
    type = addr;
    payload = var_array_byte_repr hex (address_byte_repr hex) addresses;
  }

  -- `stack` stands in the array of each Hash.
  unfoldable pub get_blocks_message : List ℕ → List (List ℕ) → List ℕ → Message
  get_blocks_message stack block_hashes stop_hash = record {
    type = getblocks;
    payload =
        var_array_byte_repr hex (λ hash. fixed_str 32 (overwrite hash stack)) block_hashes
        ++ stop_hash;
  }

  unfoldable pub transaction_message : List ℕ → Transaction → Message
  transaction_message stack transaction = record {
    type = tx;
    payload = transaction_byte_repr hex stack transaction;
  }

  -- The message made from a buffer has the type of a block.
  unfoldable pub transaction_message_from_buffer : List ℕ → Reader (Message × Transaction)
  transaction_message_from_buffer stack = do
    transaction ← transaction_from_buffer
    pure (
      record { type = block; payload = transaction_byte_repr hex stack transaction },
      transaction,
    )

  unfoldable pub block_message : List ℕ → Block → Message
  block_message stack b = record { type = block; payload = block_byte_repr hex stack b }

  unfoldable pub block_message_from_buffer : List ℕ → Reader (Message × Block)
  unfolding block_message
  block_message_from_buffer stack = do b ← block_from_buffer; pure (block_message stack b, b)

abbrev pub who_am_i_ack : Message
who_am_i_ack = record { type = whoamiack; payload = [] }

abbrev pub get_addr : Message
get_addr = record { type = getaddr; payload = [] }

abbrev pub get_mempool : Message
get_mempool = record { type = getmempool; payload = [] }

-- GetData::dataType and dataAsked.
unfoldable pub data_type : List InvVect → RessourceType
data_type [] = invalid_res
data_type (v ∷ vs) = v.type

unfoldable pub data_asked : List InvVect → List (List ℕ)
data_asked data_ = map (λ v. v.hash) data_
