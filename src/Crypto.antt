-- ===== src/Crypto.antt =====
-- include/crypto.hpp and src/crypto.cpp, over the functions of Crypto++ that they call, which are a
-- parameter with what Crypto++ documents of them.
pub mod PublicKey
pub mod Signature
use ensicoin_cpp.Networkable.{HexDecoder, hex_digit}
use ensicoin_cpp.Prelude.{
  ℕ, ◌+◌, ◌-◌, ◌/◌, ◌%◌, ◌^◌, ◌<◌, ◌≡◌, ltb, leb, ◌==◌, if◌then◌else◌, Bool, true, not, List, [],
  ◌∷◌, ◌++◌, length, take, drop, be_value, All, IsByte, codes,
}
use ensicoin_cpp.Prelude.Outcome.{Outcome, returns, throws, undefined, ◌>>=◌}

-- `verify_message x y message signature` is VerifyMessage of the verifier for the public key on
-- secp256k1 whose point has these coordinates.
pub record Crypto : Type 0 where
  pub ripemd160 : List ℕ → List ℕ
  pub sha256 : List ℕ → List ℕ
  pub hex_decoder : HexDecoder
  pub verify_message : ℕ → ℕ → List ℕ → List ℕ → Bool
  pub length-ripemd160 : (s : List ℕ) → length (ripemd160 s) ≡ 20
  pub length-sha256 : (s : List ℕ) → length (sha256 s) ≡ 32

pub record EcdsaSignature : Type 0 where
  pub signature : List ℕ

module _ (crypto : Crypto) where
  -- The constructor from a text.
  unfoldable pub ecdsa_signature : List ℕ → EcdsaSignature
  ecdsa_signature encoded_signature = record {
    signature = crypto.hex_decoder.decode encoded_signature;
  }

  -- Each of the two calls of Decode takes half of the bytes that the decoder holds.
  unfoldable pub public_point : List ℕ → ℕ × ℕ
  public_point public_key_string =
      let bytes = crypto.hex_decoder.decode public_key_string in
      let len = length bytes in
      (be_value 0 (take (len / 2) bytes), be_value 0 (take (len / 2) (drop (len / 2) bytes)))

  unfoldable pub verify : EcdsaSignature → List ℕ → List ℕ → Bool
  unfolding public_point
  verify s message public_key_string =
      let (x, y) = public_point public_key_string in crypto.verify_message x y message s.signature

-- CryptoPP::HexEncoder with lower-case digits.
pub record HexEncoder : Type 0 where
  pub encode : List ℕ → List ℕ
  pub encode-nil : encode [] ≡ []
  pub encode-cons :
      (b : ℕ) (bs : List ℕ)
      → b < 256
      → encode (b ∷ bs) ≡ hex_digit (b / 16) ∷ hex_digit (b % 16) ∷ encode bs

-- `hex()`.
unfoldable pub signature_hex : HexEncoder → EcdsaSignature → List ℕ
signature_hex encoder s = encoder.encode s.signature

-- The keys and the signer of Crypto++; `prng` is what the random pool gives.
pub record Signer (crypto : Crypto) : Type 1 where
  pub PrivateKey : Type 0
  pub point : PrivateKey → ℕ × ℕ
  pub sign : PrivateKey → ℕ → List ℕ → List ℕ
  pub sign-IsByte : (key : PrivateKey) (prng : ℕ) (m : List ℕ) → All IsByte (sign key prng m)
  pub verify_message-sign :
      (key : PrivateKey) (prng : ℕ) (m : List ℕ)
      → crypto.verify_message (point key).0 (point key).1 m (sign key prng m) ≡ true

-- The constructor that signs.
unfoldable pub ecdsa_sign :
    {crypto : Crypto} (signer : Signer crypto) → ℕ → List ℕ → signer.PrivateKey → EcdsaSignature
ecdsa_sign signer prng message private_key = record {
  signature = signer.sign private_key prng message;
}

-- `std::string("0", n)`: the first n bytes of an array of two, the digit and the 0 that ends it. A
-- number that no string can have throws, and another above 2 reads past the array.
unfoldable pub from_literal : ℕ → Outcome (List ℕ)
from_literal n =
    if ltb (2 ^ 63) n then throws else if leb n 2 then returns (take n (48 ∷ 0 ∷ [])) else undefined

-- `x = std::string("0",65-x.length()) + x`, with the difference of a size_t.
unfoldable pub padded_coordinate : List ℕ → Outcome (List ℕ)
unfolding from_literal
padded_coordinate x = do
  prefix ← from_literal ((65 + (2 ^ 64 - length x)) % 2 ^ 64)
  returns (prefix ++ x)

-- The erasing of each 'h'.
unfoldable pub without_h : List ℕ → List ℕ
without_h [] = []
without_h (c ∷ cs) = let rest = without_h cs in if c == 104 then rest else c ∷ rest

-- hexPublicKey; `printed` is what a stream in std::hex prints for a CryptoPP::Integer.
unfoldable pub hex_public_key : (ℕ → List ℕ) → ℕ → ℕ → Outcome (List ℕ)
hex_public_key printed q_x q_y = do
  x ← padded_coordinate (printed q_x)
  y ← padded_coordinate (printed q_y)
  returns (without_h (x ++ y))
