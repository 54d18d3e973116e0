-- ===== src/Prelude/BigEndian.antt =====
-- Numbers as bytes, the highest first: what the reads and the byte representations of the program
-- are measured against.
use Prim.Native.Nat.{ℕ, zero, suc, ◌+◌, ◌*◌, ◌/◌, ◌%◌, ◌^◌, ◌<◌}
use mathlib.Core.Path.{◌≡◌, refl, ◌∙◌}
use mathlib.Core.List.{List, [], ◌∷◌, ◌++◌}
use native.Mathlib.Nat.{pow-suc}
use native.Mathlib.Omega.{arith}
use ensicoin_cpp.Prelude.Lists.{length, length-append, All}

abbrev pub IsByte : ℕ → Type 0
IsByte b = b < 256

-- The k low bytes of v.
abbrev pub be_bytes : ℕ → ℕ → List ℕ
be_bytes zero v = []
be_bytes (suc k) v = be_bytes k (v / 256) ++ (v % 256) ∷ []

abbrev pub be_value : ℕ → List ℕ → ℕ
be_value acc [] = acc
be_value acc (b ∷ bs) = be_value (acc * 256 + b) bs

pub All-append {ℓ κ} :
    {A : Type ℓ} (P : A → Type κ) (xs ys : List A) → All P xs → All P ys → All P (xs ++ ys)
All-append P [] ys h k = k
All-append P (x ∷ xs) ys h k = (h.0, All-append P xs ys h.1 k)

pub be_bytes-IsByte : (k v : ℕ) → All IsByte (be_bytes k v)
be_bytes-IsByte zero v = tt
be_bytes-IsByte (suc k) v =
    All-append IsByte (be_bytes k (v / 256)) ((v % 256) ∷ []) (be_bytes-IsByte k (v / 256))
      (omega arith)

pub length-be_bytes : (k v : ℕ) → length (be_bytes k v) ≡ k
length-be_bytes zero v = refl
length-be_bytes (suc k) v =
    omega
      (arith, length-append (be_bytes k (v / 256)) ((v % 256) ∷ []), length-be_bytes k (v / 256))

be_value-append :
    (acc : ℕ) (xs : List ℕ) (b : ℕ) → be_value acc (xs ++ b ∷ []) ≡ be_value acc xs * 256 + b
be_value-append acc [] b = refl
be_value-append acc (x ∷ xs) b = be_value-append (acc * 256 + x) xs b

pub be_value-be_bytes : (k v : ℕ) → v < 256 ^ k → be_value 0 (be_bytes k v) ≡ v
be_value-be_bytes zero v h = omega arith
be_value-be_bytes (suc k) v h =
    be_value-append 0 (be_bytes k (v / 256)) (v % 256)
    ∙ omega (arith, be_value-be_bytes k (v / 256) (omega (arith, pow-suc 256 k)))
