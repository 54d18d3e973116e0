-- ===== src/Crypto/Signature.antt =====
-- ECDSASignature of src/crypto.cpp, and the keys that hexPublicKey prints for it.
use ensicoin_cpp.Crypto.{
  Crypto, EcdsaSignature, HexEncoder, Signer, ecdsa_signature, public_point, verify, signature_hex,
  ecdsa_sign, hex_public_key,
}
use ensicoin_cpp.Crypto.PublicKey.{with_h, filled, IsDigits, hex_public_key-digits}
use ensicoin_cpp.Networkable.{hex_digit, print_hex}
use ensicoin_cpp.Networkable.Hex.{
  digits_of, digits_of-append, hex_fixed-digits, length-print_hex, pad-print_hex, decode-digits_of,
}
use ensicoin_cpp.Prelude.{
  ℕ, zero, suc, ◌-◌, ◌/◌, ◌%◌, ◌^◌, ◌≤◌, ◌<◌, ◌≡◌, ◌≢◌, refl, sym, ap, ap₂, ◌∙◌, ltb, leb,
  Bool-cases, ltb→lt, le→leb, inl, inr, true, false, List, [], ◌∷◌, ◌++◌, length, length-append,
  take, drop, take-append, drop-append, replicate, All, All-append, IsByte, be_bytes,
  be_bytes-IsByte, be_value, be_value-be_bytes, length-be_bytes, arith,
}
use ensicoin_cpp.Prelude.Outcome.{returns}
use native.Mathlib.Nat.{pow-suc}

encode-digits_of :
    (encoder : HexEncoder) (bs : List ℕ) → All IsByte bs → encoder.encode bs ≡ digits_of bs
encode-digits_of encoder [] h = encoder.encode-nil
encode-digits_of encoder (b ∷ bs) h =
    encoder.encode-cons b bs h.0
    ∙ ap (λ (s : List ℕ). hex_digit (b / 16) ∷ hex_digit (b % 16) ∷ s)
        (encode-digits_of encoder bs h.1)

-- A signature of bytes is read back from the text that `hex()` gives.
pub ecdsa_signature-signature_hex :
    (crypto : Crypto) (encoder : HexEncoder) (s : EcdsaSignature)
    → All IsByte s.signature
    → ecdsa_signature crypto (signature_hex encoder s) ≡ s
unfolding ecdsa_signature signature_hex
ecdsa_signature-signature_hex crypto encoder s h =
    ap (λ (bs : List ℕ). (let t : EcdsaSignature = record { signature = bs } in t))
      (ap crypto.hex_decoder.decode (encode-digits_of encoder s.signature h)
        ∙ decode-digits_of crypto.hex_decoder s.signature h)

pow-positive : (w : ℕ) → 1 ≤ 16 ^ w
pow-positive zero = omega arith
pow-positive (suc w) = omega (arith, pow-suc 16 w, pow-positive w)

-- A number of at least w + 1 digits.
print_hex-long : (n w v : ℕ) → w ≤ n → 16 ^ w ≤ v → w < length (print_hex (suc n) v)
unfolding print_hex
print_hex-long n zero v hw h = elim (Bool-cases (ltb v 16)) [
  | inl small ↦ rw small (omega arith)
  | inr big ↦ rw big (omega (arith, length-append (print_hex n (v / 16)) (hex_digit (v % 16) ∷ [])))
]
print_hex-long zero (suc w) v hw h = absurd (omega arith)
print_hex-long (suc n) (suc w) v hw h =
    let big : ltb v 16 ≡ false = ground (arith, pow-suc 16 w, pow-positive w) in
    rw big (
      omega (
        arith,
        length-append (print_hex (suc n) (v / 16)) (hex_digit (v % 16) ∷ []),
        print_hex-long n w (v / 16) (omega arith) (omega (arith, pow-suc 16 w)),
      ))

hex_digit-ne : (d : ℕ) → d < 16 → hex_digit d ≢ 104
hex_digit-ne d h = ground arith

print_hex-IsDigits : (n v : ℕ) → IsDigits (print_hex n v)
unfolding print_hex
print_hex-IsDigits zero v = tt
print_hex-IsDigits (suc n) v = elim (Bool-cases (ltb v 16)) [
  | inl small ↦ rw small (hex_digit-ne v (ltb→lt v 16 small), tt)
  | inr big ↦
      rw big
        (All-append _ _ _ (print_hex-IsDigits n (v / 16)) (hex_digit-ne (v % 16) (omega arith), tt))
]

-- A coordinate of 63 or 64 digits.
abbrev pub IsCoordinate : ℕ → Type 0
IsCoordinate q = (16 ^ 62 ≤ q) × (q < 16 ^ 64)

take-zeros : (n : ℕ) → n ≤ 1 → take {A = ℕ} n (48 ∷ 0 ∷ []) ≡ replicate n 48
take-zeros zero h = refl
take-zeros (suc zero) h = refl
take-zeros (suc (suc n)) h = absurd (omega arith)

filled-print_hex : (q : ℕ) → IsCoordinate q → filled (print_hex 64 q) ≡ digits_of (be_bytes 32 q)
filled-print_hex q h =
    ap (λ (s : List ℕ). s ++ print_hex 64 q)
      (take-zeros (64 - length (print_hex 64 q))
        (omega (arith, print_hex-long 63 62 q (omega arith) h.0)))
    ∙ pad-print_hex 64 63 q (omega arith) h.1
    ∙ hex_fixed-digits 32 q

long : (q : ℕ) → IsCoordinate q → leb 62 (length (print_hex 64 q)) ≡ true
long q h =
    le→leb 62 (length (print_hex 64 q)) (omega (arith, print_hex-long 63 62 q (omega arith) h.0))

filled-coordinates :
    (x y : ℕ)
    → IsCoordinate x
    → IsCoordinate y
    → filled (print_hex 64 x) ++ filled (print_hex 64 y)
      ≡ digits_of (be_bytes 32 x ++ be_bytes 32 y)
filled-coordinates x y hx hy =
    ap₂ ◌++◌ (filled-print_hex x hx) (filled-print_hex y hy)
    ∙ sym (digits_of-append (be_bytes 32 x) (be_bytes 32 y))

-- What the two calls of Decode read.
abbrev halves : List ℕ → ℕ × ℕ
halves bytes = (
  be_value 0 (take (length bytes / 2) bytes),
  be_value 0 (take (length bytes / 2) (drop (length bytes / 2) bytes)),
)

take-all : (n : ℕ) (xs : List ℕ) → length xs ≡ n → take n xs ≡ xs
take-all zero [] h = refl
take-all zero (x ∷ xs) h = absurd (omega arith)
take-all (suc n) [] h = refl
take-all (suc n) (x ∷ xs) h = ap (◌∷◌ x) (take-all n xs (omega arith))

halves-append :
    (xs ys : List ℕ) → length ys ≡ length xs → halves (xs ++ ys) ≡ (be_value 0 xs, be_value 0 ys)
halves-append xs ys h =
    let half : length (xs ++ ys) / 2 ≡ length xs = omega (arith, length-append xs ys) in
    rw (half, take-append xs ys, drop-append xs ys, take-all (length xs) ys h) refl

public_point-coordinates :
    (crypto : Crypto) (x y : ℕ)
    → IsCoordinate x
    → IsCoordinate y
    → public_point crypto (filled (print_hex 64 x) ++ filled (print_hex 64 y)) ≡ (x, y)
unfolding public_point
public_point-coordinates crypto x y hx hy =
    ap halves (
      ap crypto.hex_decoder.decode (filled-coordinates x y hx hy)
      ∙ decode-digits_of crypto.hex_decoder (be_bytes 32 x ++ be_bytes 32 y) (
          All-append IsByte (be_bytes 32 x) (be_bytes 32 y) (be_bytes-IsByte 32 x)
            (be_bytes-IsByte 32 y)))
    ∙ halves-append (be_bytes 32 x) (be_bytes 32 y)
        (length-be_bytes 32 y ∙ sym (length-be_bytes 32 x))
    ∙ ap₂ (λ (p q : ℕ). (p, q)) (be_value-be_bytes 32 x (omega (arith, hx.1)))
        (be_value-be_bytes 32 y (omega (arith, hy.1)))

-- `hexPublicKey` prints the point of a key whose coordinates have 63 or 64 digits, as Crypto++ prints
-- numbers: in lower-case digits without leading zeros, and an 'h'. The text is one that `verify`
-- reads as that point, so that it accepts each signature made with the key, of any message, also
-- when the signature has gone through the text of `hex()`.
pub verify-ecdsa_sign :
    (crypto : Crypto) (signer : Signer crypto) (encoder : HexEncoder) (printed : ℕ → List ℕ)
    (key : signer.PrivateKey) (prng : ℕ) (message : List ℕ)
    → ((q : ℕ) → printed q ≡ with_h (print_hex 64 q))
    → IsCoordinate (signer.point key).0
    → IsCoordinate (signer.point key).1
    → (text : List ℕ) × (hex_public_key printed (signer.point key).0 (signer.point key).1
        ≡ returns text)
      × (public_point crypto text ≡ signer.point key)
      × (verify crypto
            (ecdsa_signature crypto (signature_hex encoder (ecdsa_sign signer prng message key)))
            message
            text
          ≡ true)
unfolding verify ecdsa_sign
verify-ecdsa_sign crypto signer encoder printed key prng message hp hx hy =
    let x = (signer.point key).0 in
    let y = (signer.point key).1 in
    let read : public_point crypto (filled (print_hex 64 x) ++ filled (print_hex 64 y)) ≡ (x, y) =
      public_point-coordinates crypto x y hx hy in
    (
      filled (print_hex 64 x) ++ filled (print_hex 64 y),
      hex_public_key-digits printed x y (print_hex 64 x) (print_hex 64 y) (hp x) (hp y)
            (print_hex-IsDigits 64 x) (print_hex-IsDigits 64 y) (length-print_hex 64 63 x hx.1)
            (length-print_hex 64 63 y hy.1)
          ∙ rw (long x hx, long y hy) refl,
      read,
      ap₂ (λ (p : ℕ × ℕ) (s : EcdsaSignature). crypto.verify_message p.0 p.1 message s.signature)
            read
            (ecdsa_signature-signature_hex crypto encoder (ecdsa_sign signer prng message key)
              (signer.sign-IsByte key prng message))
          ∙ signer.verify_message-sign key prng message,
    )
