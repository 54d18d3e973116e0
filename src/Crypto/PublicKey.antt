-- ===== src/Crypto/PublicKey.antt =====
-- hexPublicKey of src/crypto.cpp.
use ensicoin_cpp.Crypto.{from_literal, padded_coordinate, without_h, hex_public_key}
use ensicoin_cpp.Prelude.{
  ℕ, zero, suc, ap₂, ◌+◌, ◌-◌, ◌%◌, ◌^◌, ◌≤◌, ◌≡◌, ◌≢◌, refl, ap, ◌∙◌, ltb, leb, ◌==◌,
  if◌then◌else◌, ◌&&◌, Bool-cases, inl, inr, true, false, List, [], ◌∷◌, ◌++◌, length,
  length-append, take, All, append-nil, arith,
}
use ensicoin_cpp.Prelude.Outcome.{returns, undefined}

-- Digits, and the 'h' behind them.
abbrev pub with_h : List ℕ → List ℕ
with_h digits = digits ++ 104 ∷ []

abbrev pub IsDigits : List ℕ → Type 0
IsDigits digits = All (λ c. c ≢ 104) digits

-- What stands before the digits that are there, for 64.
abbrev pub filled : List ℕ → List ℕ
filled digits = take (64 - length digits) (48 ∷ 0 ∷ []) ++ digits

without_h-append : (xs ys : List ℕ) → without_h (xs ++ ys) ≡ without_h xs ++ without_h ys
unfolding without_h
without_h-append [] ys = refl
without_h-append (x ∷ xs) ys = elim (Bool-cases (x == 104)) [
  | inl h ↦ rw h (without_h-append xs ys)
  | inr other ↦ rw other (ap (◌∷◌ x) (without_h-append xs ys))
]

without_h-digits : (xs : List ℕ) → IsDigits xs → without_h xs ≡ xs
unfolding without_h
without_h-digits [] h = refl
without_h-digits (x ∷ xs) h =
    let digit : (x == 104) ≡ false = ground (arith, h.0) in
    rw digit (ap (◌∷◌ x) (without_h-digits xs h.1))

without_h-prefix : (n : ℕ) → without_h (take n (48 ∷ 0 ∷ [])) ≡ take n (48 ∷ 0 ∷ [])
unfolding without_h
without_h-prefix zero = refl
without_h-prefix (suc zero) = refl
without_h-prefix (suc (suc zero)) = refl
without_h-prefix (suc (suc (suc n))) = refl

without_h-coordinate :
    (digits : List ℕ)
    → IsDigits digits
    → without_h (take (64 - length digits) (48 ∷ 0 ∷ []) ++ with_h digits) ≡ filled digits
unfolding without_h
without_h-coordinate digits h =
    without_h-append (take (64 - length digits) (48 ∷ 0 ∷ [])) (with_h digits)
    ∙ ap₂ ◌++◌ (without_h-prefix (64 - length digits)) (
        without_h-append digits (104 ∷ [])
        ∙ append-nil (without_h digits)
        ∙ without_h-digits digits h)

padded :
    (digits : List ℕ)
    → length digits ≤ 64
    → padded_coordinate (with_h digits) ≡ (
        if leb 62 (length digits)
        then returns (take (64 - length digits) (48 ∷ 0 ∷ []) ++ with_h digits)
        else undefined)
unfolding padded_coordinate from_literal
padded digits h =
    let missing : (65 + (2 ^ 64 - length (with_h digits))) % 2 ^ 64 ≡ 64 - length digits =
      omega (arith, length-append digits (104 ∷ [])) in
    let short : ltb (2 ^ 63) (64 - length digits) ≡ false = ground arith in
    elim (Bool-cases (leb 62 (length digits))) [
      | inl enough ↦
          let two : leb (64 - length digits) 2 ≡ true = ground arith in
          rw (missing, short, two, enough)
      | inr few ↦
          let more : leb (64 - length digits) 2 ≡ false = ground arith in
          rw (missing, short, more, few)
    ]

-- The text of a public key whose coordinates are printed with at most 64 digits and an 'h' is
-- undefined if one of them has less than 62 digits; otherwise it is the digits, before which a
-- coordinate of 63 has the digit 0, and one of 62 has the digit 0 and a byte 0.
pub hex_public_key-digits :
    (printed : ℕ → List ℕ) (q_x q_y : ℕ) (x y : List ℕ)
    → printed q_x ≡ with_h x
    → printed q_y ≡ with_h y
    → IsDigits x
    → IsDigits y
    → length x ≤ 64
    → length y ≤ 64
    → hex_public_key printed q_x q_y ≡ (
        if leb 62 (length x) && leb 62 (length y)
        then returns (filled x ++ filled y)
        else undefined)
unfolding hex_public_key
hex_public_key-digits printed q_x q_y x y px py hx hy nx ny =
    rw (px, py, padded x nx)
      (elim (Bool-cases (leb 62 (length x))) [
        | inl enough_x ↦ elim (Bool-cases (leb 62 (length y))) [
          | inl enough_y ↦ rw (
            enough_x,
            padded y ny,
            enough_y,
            without_h-append (take (64 - length x) (48 ∷ 0 ∷ []) ++ with_h x)
                (take (64 - length y) (48 ∷ 0 ∷ []) ++ with_h y),
            without_h-coordinate x hx,
            without_h-coordinate y hy,
          )
          | inr few_y ↦ rw (enough_x, padded y ny, few_y)
        ]
        | inr few_x ↦ rw few_x
      ])
