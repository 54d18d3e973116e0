-- ===== src/Tests/Keys.antt =====
-- Signatures, public keys and scripts that could check them.
use ensicoin_cpp.Crypto.{
  HexEncoder, Signer, ecdsa_sign, ecdsa_signature, hex_public_key, public_point, signature_hex,
  verify,
}
use ensicoin_cpp.Crypto.PublicKey.{with_h, IsDigits, hex_public_key-digits}
use ensicoin_cpp.Crypto.Signature.{verify-ecdsa_sign}
use ensicoin_cpp.Networkable.{hex_digit, print_hex}
use ensicoin_cpp.Prelude.{
  ℕ, zero, suc, ◌*◌, ◌/◌, ◌%◌, ◌^◌, ◌≤◌, ◌≡◌, ◌≢◌, refl, true, List, [], ◌∷◌, ◌++◌, length, map,
  replicate, some, All, arith,
}
use ensicoin_cpp.Prelude.Outcome.{returns}
use ensicoin_cpp.Script.{
  Script, parse_instruction, script_of, step, execute, pushed_data, pushed_byte,
}
use ensicoin_cpp.Script.Short.{steps}
use ensicoin_cpp.Script.Short.Keys.{steps-ne-hex_public_key}
use ensicoin_cpp.Tests.Samples.{ones}

abbrev print_pairs : List ℕ → List ℕ
print_pairs [] = []
print_pairs (b ∷ bs) = hex_digit (b / 16) ∷ hex_digit (b % 16) ∷ print_pairs bs

abbrev pairs : HexEncoder
pairs = record { encode = print_pairs; encode-nil = refl; encode-cons = λ b bs h. refl }

-- Each key is the coordinates of its point, and each signature one byte.
abbrev one_byte : Signer ones
one_byte = record {
  PrivateKey = ℕ × ℕ;
  point = λ key. key;
  sign = λ key prng message. 7 ∷ [];
  sign-IsByte = λ key prng message. (omega arith, tt);
  verify_message-sign = λ key prng message. refl;
}

-- A coordinate of 63 digits and one of 64.
abbrev key : ℕ × ℕ
key = (3 * 16 ^ 62, 5 * 16 ^ 63)

abbrev printed : ℕ → List ℕ
printed q = with_h (print_hex 64 q)

verify-ecdsa_sign_example :
    (text : List ℕ) × (hex_public_key printed key.0 key.1 ≡ returns text)
    × (public_point ones text ≡ key)
    × (verify ones
          (ecdsa_signature ones (signature_hex pairs (ecdsa_sign one_byte 1 (9 ∷ []) key)))
          (9 ∷ [])
          text
        ≡ true)
verify-ecdsa_sign_example =
    verify-ecdsa_sign ones one_byte pairs printed key 1 (9 ∷ []) (λ q. refl)
      (omega arith, omega arith) (omega arith, omega arith)

abbrev digits : List ℕ
digits = replicate 64 49

abbrev digits_printed : ℕ → List ℕ
digits_printed q = with_h digits

replicate-IsDigits : (n : ℕ) → IsDigits (replicate n 49)
replicate-IsDigits zero = tt
replicate-IsDigits (suc n) = (λ e. absurd (omega (arith, e)), replicate-IsDigits n)

digits-IsDigits : IsDigits digits
digits-IsDigits = replicate-IsDigits 64

key_text : hex_public_key digits_printed 1 2 ≡ returns (digits ++ digits)
key_text =
    hex_public_key-digits digits_printed 1 2 digits digits refl refl digits-IsDigits digits-IsDigits
      (omega arith) (omega arith)

-- A push of two bytes, and what it leaves.
abbrev pushing : List ℕ
pushing = 2 ∷ 5 ∷ 80 ∷ []

abbrev pushed : Script
unfolding script_of
pushed = record (script_of (map parse_instruction pushing) []) {
  stack = (1 ∷ 1 ∷ []) ∷ [];
  code_pointer = 3;
}

one_step : steps ones 1 (script_of (map parse_instruction pushing) []) ≡ some pushed
unfolding steps step execute pushed_data pushed_byte parse_instruction script_of pushed
one_step = refl

steps-ne-hex_public_key_example :
    All (λ e. length e ≤ 75) pushed.stack × All (λ e. e ≢ digits ++ digits) pushed.stack
steps-ne-hex_public_key_example =
    steps-ne-hex_public_key ones digits_printed 1 2 digits digits (digits ++ digits) refl refl
      digits-IsDigits digits-IsDigits (omega arith) (omega arith) key_text pushing [] 1 pushed
      one_step
