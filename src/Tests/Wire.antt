-- ===== src/Tests/Wire.antt =====
-- Bytes written and read.
use ensicoin_cpp.NetworkBuffer.{buffer_of, read_var_uint}
use ensicoin_cpp.NetworkBuffer.Strings.{IsText}
use ensicoin_cpp.Networkable.{encode, print_hex, var_uint_byte_repr}
use ensicoin_cpp.Networkable.Integers.{read_var_uint-space}
use ensicoin_cpp.Networkable.Strings.{zeroed}
use ensicoin_cpp.Prelude.{ℕ, zero, suc, ◌<◌, ◌≡◌, refl, [], ◌∷◌, ◌++◌, replicate}
use ensicoin_cpp.Tests.Samples.{hex_pairs}

-- The number 65279 is sent as fd fe ff.
var_uint_sent : var_uint_byte_repr hex_pairs 65279 ≡ 253 ∷ 254 ∷ 255 ∷ []
unfolding var_uint_byte_repr encode print_hex
var_uint_sent = refl

pub All-replicate : (n c : ℕ) → 0 < c → IsText (replicate n c)
All-replicate zero c h = tt
All-replicate (suc n) c h = (h, All-replicate n c h)

read_var_uint-space_example :
    read_var_uint (buffer_of zeroed (var_uint_byte_repr hex_pairs 32 ++ 7 ∷ []))
    ≡ read_var_uint (buffer_of zeroed (7 ∷ []))
read_var_uint-space_example = read_var_uint-space hex_pairs zeroed (7 ∷ []) 32 refl
