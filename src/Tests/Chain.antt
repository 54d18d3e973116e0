-- ===== src/Tests/Chain.antt =====
-- A block on the wire, and the checks of a transaction.
use ensicoin_cpp.Block.Target.{shift_of, decompress-exponent}
use ensicoin_cpp.Block.{
  decompress, BlockHeader, Block, block_byte_repr, block_from_buffer, block_hash,
}
use ensicoin_cpp.Block.RoundTrip.{
  IsSendableHeader, IsSendableBlock, without_target, block_from_buffer-block_byte_repr,
}
use ensicoin_cpp.Constants.{max_block_size}
use ensicoin_cpp.Crypto.{hex_public_key}
use ensicoin_cpp.Crypto.PublicKey.{with_h, IsDigits, filled, hex_public_key-digits}
use ensicoin_cpp.Json.{Json}
use ensicoin_cpp.Message.Content.{one_block, message_of, content_from_buffer, seen}
use ensicoin_cpp.Message.Content.Sent.{content_from_buffer-message_of}
use ensicoin_cpp.NetworkBuffer.{buffer_of}
use ensicoin_cpp.Networkable.Strings.{zeroed}
use ensicoin_cpp.Prelude.{
  ◌+◌, ◌*◌, ◌^◌, ℕ, zero, suc, leb, ◌&&◌, if◌then◌else◌, ◌≡◌, ◌≢◌, refl, true, some, List, [], ◌∷◌,
  ◌++◌, replicate, length, All, ◌≤◌, ◌↔◌, arith,
}
use ensicoin_cpp.Prelude.Outcome.{returns, undefined}
use ensicoin_cpp.Tests.Ledger.{seven_hash-IsSendable, payment-IsSendable}
use ensicoin_cpp.Tests.Samples.{hex_pairs, ones, seven_hash, payment}
use ensicoin_cpp.Transaction.{check, transaction_json}
use ensicoin_cpp.Transaction.Checks.{check_iff}

abbrev header : BlockHeader
header = record {
  version = 1;
  block_flags = (97 ∷ []) ∷ [];
  hash_prev_block = seven_hash;
  merkle_root = seven_hash;
  timestamp = 1566862920;
  height = 12;
  target = record { value = 1000 };
  nonce = 42;
}

abbrev mined : Block
mined = record { header = header; transactions = payment ∷ payment ∷ [] }

header-IsSendable : IsSendableHeader header
header-IsSendable = record {
  version = omega arith;
  flag_count = record { fits = omega arith; unskipped = refl };
  flags = (record { text = (omega arith, tt); short = omega arith; unskipped = refl }, tt);
  hash_prev_block = seven_hash-IsSendable;
  merkle_root = seven_hash-IsSendable;
  timestamp = omega arith;
  height = omega arith;
  nonce = omega arith;
}

mined-IsSendable : IsSendableBlock mined
mined-IsSendable = record {
  header = header-IsSendable;
  transaction_count = record { fits = omega arith; unskipped = refl };
  transactions = (payment-IsSendable, (payment-IsSendable, tt));
}

block_from_buffer-block_byte_repr_example :
    (block_from_buffer (buffer_of zeroed (block_byte_repr hex_pairs [] mined ++ 6 ∷ []))
      ≡ (record mined { header = without_target header }, buffer_of zeroed (6 ∷ [])))
    × (block_hash hex_pairs [] ones (record mined { header = without_target header })
        ≡ block_hash hex_pairs [] ones mined)
block_from_buffer-block_byte_repr_example =
    block_from_buffer-block_byte_repr hex_pairs [] ones mined (6 ∷ []) mined-IsSendable

-- Every document is printed as one brace.
abbrev brace : Json → List ℕ
brace j = 123 ∷ []

check_iff_example : (check brace payment ≡ true) ↔ (
    (payment.inputs ≢ [])
    × (payment.outputs ≢ [])
    × (length (brace (transaction_json payment)) ≤ max_block_size)
    × All (λ output. output.value ≢ 0) payment.outputs)
check_iff_example = check_iff brace payment

abbrev sixty_four : List ℕ
sixty_four = replicate 64 97

abbrev sixty_three : List ℕ
sixty_three = replicate 63 98

-- Coordinates of 64 and 63 digits.
abbrev printed : ℕ → List ℕ
printed zero = with_h sixty_four
printed (suc q) = with_h sixty_three

digits : (n c : ℕ) → c ≢ 104 → IsDigits (replicate n c)
digits zero c h = tt
digits (suc n) c h = (h, digits n c h)

hex_public_key-digits_example : hex_public_key printed 0 1 ≡ (
    if leb 62 (length sixty_four) && leb 62 (length sixty_three)
    then returns (filled sixty_four ++ filled sixty_three)
    else undefined)
hex_public_key-digits_example =
    hex_public_key-digits printed 0 1 sixty_four sixty_three refl refl
      (digits 64 97 (λ e. omega (arith, e))) (digits 63 98 (λ e. omega (arith, e))) (omega arith)
      (omega arith)

content_from_buffer-message_of_example :
    content_from_buffer hex_pairs []
      (message_of hex_pairs [] (one_block mined)).type
      (buffer_of zeroed ((message_of hex_pairs [] (one_block mined)).payload ++ 6 ∷ []))
    ≡ (some (seen (one_block mined)), buffer_of zeroed (6 ∷ []))
content_from_buffer-message_of_example =
    content_from_buffer-message_of hex_pairs [] (one_block mined) (6 ∷ []) mined-IsSendable

decompress-exponent_example : decompress (29 * 2 ^ 24 + 65535) ≡ 65535 * 2 ^ shift_of 29
decompress-exponent_example = decompress-exponent 29 65535 (omega arith) (omega arith)
