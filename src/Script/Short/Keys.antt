-- ===== src/Script/Short/Keys.antt =====
-- What the shortness of the elements of the stack means for OP_CHECKSIG of src/script.cpp.
use ensicoin_cpp.Crypto.{Crypto, hex_public_key}
use ensicoin_cpp.Crypto.PublicKey.{with_h, filled, IsDigits, hex_public_key-digits}
use ensicoin_cpp.Prelude.{
  ℕ, zero, suc, ◌-◌, ◌≤◌, ◌≡◌, ◌≢◌, refl, sym, ap, ◌∙◌, subst, Bool-cases, inl, inr, true, ◌&&◌,
  if◌then◌else◌, leb, leb→le, some, List, [], ◌∷◌, ◌++◌, length, map, take, length-append, All,
  arith,
}
use ensicoin_cpp.Prelude.Outcome.{returns, undefined}
use ensicoin_cpp.Script.{Script, parse_instruction, script_of}
use ensicoin_cpp.Script.Short.{Short, IsShort, IfSome, steps, steps-Short, map-HasShortPush}

length-zeros : (n : ℕ) → n ≤ 2 → length (take {A = ℕ} n (48 ∷ 0 ∷ [])) ≡ n
length-zeros zero h = refl
length-zeros (suc zero) h = refl
length-zeros (suc (suc zero)) h = refl
length-zeros (suc (suc (suc n))) h = absurd (omega arith)

length-filled :
    (digits : List ℕ)
    → leb 62 (length digits) ≡ true
    → length digits ≤ 64
    → length (filled digits) ≡ 64
length-filled digits l h = omega (
  arith,
  leb→le 62 (length digits) l,
  length-append (take (64 - length digits) (48 ∷ 0 ∷ [])) digits,
  length-zeros (64 - length digits) (omega (arith, leb→le 62 (length digits) l)),
)

-- A text that `hexPublicKey` returns has 128 bytes.
length-hex_public_key :
    (printed : ℕ → List ℕ) (q_x q_y : ℕ) (x y text : List ℕ)
    → printed q_x ≡ with_h x
    → printed q_y ≡ with_h y
    → IsDigits x
    → IsDigits y
    → length x ≤ 64
    → length y ≤ 64
    → hex_public_key printed q_x q_y ≡ returns text
    → length text ≡ 128
length-hex_public_key printed q_x q_y x y text px py hx hy nx ny e =
    go (sym (hex_public_key-digits printed q_x q_y x y px py hx hy nx ny) ∙ e)
  where
    go :
        (if leb 62 (length x) && leb 62 (length y)
            then returns (filled x ++ filled y)
            else undefined)
          ≡ returns text
        → length text ≡ 128
    go e = elim (Bool-cases (leb 62 (length x))) [
      | inl a ↦ elim (Bool-cases (leb 62 (length y))) [
        | inl b ↦
            let q : filled x ++ filled y ≡ text = ground arith in
            omega (
              arith,
              ap length q,
              length-append (filled x) (filled y),
              length-filled x a nx,
              length-filled y b ny,
            )
        | inr n ↦ absurd (ground arith)
      ]
      | inr n ↦ absurd (ground arith)
    ]

All-longer :
    (text : List ℕ) (es : List (List ℕ))
    → length text ≡ 128
    → All IsShort es
    → All (λ e. e ≢ text) es
All-longer text [] l h = tt
All-longer text (e ∷ es) l h =
    (λ q. absurd (omega (arith, ap length q, h.0)), All-longer text es l h.1)

-- OP_CHECKSIG reads the public key on the top of the stack as a text, but no text that
-- `hexPublicKey` returns, of a key whose coordinates are printed with at most 64 digits and an 'h', ever is on the stack: whatever bytes a
-- script was parsed from and however many steps it has made, each element has at most 75 bytes.
pub steps-ne-hex_public_key :
    (crypto : Crypto) (printed : ℕ → List ℕ) (q_x q_y : ℕ) (x y text : List ℕ)
    → printed q_x ≡ with_h x
    → printed q_y ≡ with_h y
    → IsDigits x
    → IsDigits y
    → length x ≤ 64
    → length y ≤ 64
    → hex_public_key printed q_x q_y ≡ returns text
    → (code shash : List ℕ) (n : ℕ) (s : Script)
    → steps crypto n (script_of (map parse_instruction code) shash) ≡ some s
    → All (λ e. length e ≤ 75) s.stack × All (λ e. e ≢ text) s.stack
unfolding script_of
steps-ne-hex_public_key crypto printed q_x q_y x y text px py hx hy nx ny e code shash n s r =
    let short : Short s = subst (IfSome Short) r (
      steps-Short crypto n (script_of (map parse_instruction code) shash)
        (record { short_stack = tt; short_pushes = map-HasShortPush code })) in
    (
      short.short_stack,
      All-longer text s.stack (length-hex_public_key printed q_x q_y x y text px py hx hy nx ny e)
          short.short_stack,
    )
