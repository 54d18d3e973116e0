-- ===== src/Script/Parse.antt =====
-- Scripts as bytes: `parseInstruction` against `byteRepr` of src/script.cpp.
use ensicoin_cpp.NetworkBuffer.{is_space}
use ensicoin_cpp.NetworkBuffer.Strings.{IsText}
use ensicoin_cpp.Networkable.{HexDecoder}
use ensicoin_cpp.Networkable.Strings.{RoundTrips, var_str-RoundTrips}
use ensicoin_cpp.Prelude.{ℕ, ◌≤◌, ◌≡◌, refl, false, List, [], ◌∷◌, length, map, arith}
use ensicoin_cpp.Script.{
  parse_instruction, instruction_byte, script_byte_repr, script_from_buffer, script_of,
}

instruction_byte-parse : (b : ℕ) → instruction_byte (parse_instruction b) ≡ b
unfolding instruction_byte parse_instruction
instruction_byte-parse b = ground arith

-- The instructions parsed from any bytes are written as these bytes.
pub bytes-parse : (bs : List ℕ) → map instruction_byte (map parse_instruction bs) ≡ bs
bytes-parse [] = refl
bytes-parse (b ∷ bs) = rw (instruction_byte-parse b, bytes-parse bs)

-- A script whose instructions were parsed from at most 4096 bytes, none of them 0, whose number is no
-- code of white space, is read back ready to run, with an empty signing hash; the storage is zeroed.
pub script-RoundTrips :
    (hex : HexDecoder) (bs : List ℕ)
    → IsText bs
    → length bs ≤ 4096
    → is_space (length bs) ≡ false
    → RoundTrips script_from_buffer (script_byte_repr hex) (script_of (map parse_instruction bs) [])
unfolding script_from_buffer script_byte_repr
script-RoundTrips hex bs t h n more = rw (bytes-parse bs, var_str-RoundTrips hex bs t h n more)
