-- ===== src/Jwt/Coordinates.antt =====
-- The fixed-width coordinates and the dotted segments of jwt/jwt.go.
use tsjwt.Prelude.{
  length, take, drop, Text, contains_char, split, ℕ, zero, suc, ◌+◌, ◌*◌, ◌/◌, ◌%◌, ◌^◌, ◌<◌, ◌≡◌,
  refl, ap, ◌∙◌, false, List, [], ◌∷◌, ◌++◌, arith,
}
use native.Mathlib.Nat.{pow-suc}
use tsjwt.Crypto.{Bytes}
use tsjwt.Jwt.{coord_len, set_bytes, fill_bytes}

pub length-fill_bytes : (n v : ℕ) (acc : Bytes) → length (fill_bytes n v acc) ≡ n + length acc
unfolding fill_bytes
length-fill_bytes zero v acc = omega arith
length-fill_bytes (suc n) v acc = omega (arith, length-fill_bytes n (v / 256) (v % 256 ∷ acc))

pow256-suc : (n : ℕ) → 256 ^ suc n ≡ 256 ^ n * 256
pow256-suc n = pow-suc 256 n

-- Reading what was written, behind any bytes read before.
set_bytes-fill_bytes :
    (n v a : ℕ) (acc : Bytes)
    → v < 256 ^ n
    → set_bytes (fill_bytes n v acc) a ≡ set_bytes acc (a * 256 ^ n + v)
unfolding fill_bytes set_bytes
set_bytes-fill_bytes zero v a acc h = ap (set_bytes acc) (omega arith)
set_bytes-fill_bytes (suc n) v a acc h =
    set_bytes-fill_bytes n (v / 256) a (v % 256 ∷ acc) (omega (arith, pow256-suc n))
    ∙ ap (set_bytes acc) (omega (arith, ap (λ (t : ℕ). a * t) (pow256-suc n)))

-- A coordinate below 2^256 survives the 32-byte form.
pub coordinate_roundtrip : (v : ℕ) → v < 256 ^ 32 → set_bytes (fill_bytes coord_len v []) 0 ≡ v
unfolding set_bytes
coordinate_roundtrip v h = set_bytes-fill_bytes coord_len v 0 [] h ∙ omega arith

pub take-append {ℓ} : {A : Type ℓ} (n : ℕ) (xs ys : List A) → length xs ≡ n → take n (xs ++ ys) ≡ xs
take-append zero [] ys e = refl
take-append zero (x ∷ xs) ys e = absurd (omega arith)
take-append (suc n) [] ys e = absurd (omega arith)
take-append (suc n) (x ∷ xs) ys e = ap (◌∷◌ x) (take-append n xs ys (omega arith))

pub drop-append {ℓ} : {A : Type ℓ} (n : ℕ) (xs ys : List A) → length xs ≡ n → drop n (xs ++ ys) ≡ ys
drop-append zero [] ys e = refl
drop-append zero (x ∷ xs) ys e = absurd (omega arith)
drop-append (suc n) [] ys e = absurd (omega arith)
drop-append (suc n) (x ∷ xs) ys e = drop-append n xs ys (omega arith)

pub split_whole : (s : Text) (c : ℕ) → contains_char s c ≡ false → split s c ≡ s ∷ []
unfolding split contains_char
split_whole [] c h = refl
split_whole (d ∷ s) c h = ground (arith, split_whole s c)

pub split_first :
    (s rest : Text) (c : ℕ) → contains_char s c ≡ false → split (s ++ c ∷ rest) c ≡ s ∷ split rest c
unfolding split contains_char
split_first [] rest c h = ground arith
split_first (d ∷ s) rest c h = ground (arith, split_first s rest c)
