-- ===== src/Prelude/Texts.antt =====
-- Text: a Go string as its sequence of code points, and the functions of package strings that
-- the program calls. Host names, header names and algorithm names are ASCII, so `to_lower` maps
-- the ASCII letters.
pub mod Decimals
pub mod Order
use Prim.Native.Nat.{ℕ, zero, suc, ◌+◌, ◌-◌, ◌/◌, ◌%◌}
use Prim.Native.Char.{code}
use Prim.Native.String.{String}
use mathlib.Core.Path.{◌≡◌, refl}
use mathlib.Core.Logic.{◌↔◌}
use mathlib.Core.Bool.{Bool, true, false, ◌&&◌, ◌||◌}
use mathlib.Core.Option.{Option, none, some}
use mathlib.Core.List.{List, [], ◌∷◌, ◌++◌, map}
use native.Mathlib.Omega.{arith}
use tsjwt.Prelude.Tests.{ltb, leb, ◌==◌, if◌then◌else◌}
use tsjwt.Prelude.Lists.{length, take, drop}

abbrev pub Text : Type 0
Text = List ℕ

-- A literal. `String` has its own `[]` and `∷`.
abbrev pub codes : String → Text
codes String.[] = []
codes (String.◌∷◌ c s) = code c ∷ codes s

-- a == b
unfoldable pub text_eq : Text → Text → Bool
text_eq [] [] = true
text_eq [] (y ∷ ys) = false
text_eq (x ∷ xs) [] = false
text_eq (x ∷ xs) (y ∷ ys) = (x == y) && text_eq xs ys

text_eq_sound : (a b : Text) → text_eq a b ≡ true → a ≡ b
unfolding text_eq
text_eq_sound [] [] h = refl
text_eq_sound [] (y ∷ ys) h = ground arith
text_eq_sound (x ∷ xs) [] h = ground arith
text_eq_sound (x ∷ xs) (y ∷ ys) h = ground (arith, text_eq_sound xs ys)

pub text_eq_refl : (a : Text) → text_eq a a ≡ true
unfolding text_eq
text_eq_refl [] = refl
text_eq_refl (x ∷ xs) = ground (arith, text_eq_refl xs)

pub text_eq_iff : (a b : Text) → (text_eq a b ≡ true) ↔ (a ≡ b)
text_eq_iff a b = (text_eq_sound a b, λ e. rw e (text_eq_refl b))

-- a < b: the order of sort.Strings. UTF-8 keeps the order of code points.
unfoldable pub text_lt : Text → Text → Bool
text_lt xs [] = false
text_lt [] (y ∷ ys) = true
text_lt (x ∷ xs) (y ∷ ys) = ltb x y || ((x == y) && text_lt xs ys)

-- unicode.IsSpace
abbrev pub is_space : ℕ → Bool
is_space c =
    (leb 9 c && leb c 13)
    || (c == 32)
    || (c == 0x85)
    || (c == 0xA0)
    || (c == 0x1680)
    || (leb 0x2000 c && leb c 0x200A)
    || (c == 0x2028)
    || (c == 0x2029)
    || (c == 0x202F)
    || (c == 0x205F)
    || (c == 0x3000)

trim_left : Text → Text
trim_left [] = []
trim_left (c ∷ s) = let rest = trim_left s in if is_space c then rest else c ∷ s

keep_char : ℕ → Text → Text
keep_char c [] = if is_space c then [] else c ∷ []
keep_char c (d ∷ s) = c ∷ d ∷ s

trim_right : Text → Text
trim_right [] = []
trim_right (c ∷ s) = keep_char c (trim_right s)

-- strings.TrimSpace
unfoldable pub trim : Text → Text
unfolding trim_left trim_right keep_char
trim s = trim_right (trim_left s)

-- strings.CutPrefix(s, prefix): the rest, if `s` begins with `prefix`.
unfoldable pub cut_prefix : Text → Text → Option Text
cut_prefix s [] = some s
cut_prefix [] (p ∷ ps) = none
cut_prefix (c ∷ s) (p ∷ ps) = let rest = cut_prefix s ps in if c == p then rest else none

-- strings.HasPrefix(s, prefix)
unfoldable pub has_prefix : Text → Text → Bool
has_prefix s [] = true
has_prefix [] (p ∷ ps) = false
has_prefix (c ∷ s) (p ∷ ps) = (c == p) && has_prefix s ps

-- strings.TrimPrefix(s, prefix)
unfoldable pub trim_prefix : Text → Text → Text
unfolding cut_prefix
trim_prefix s p = elim (cut_prefix s p) [ none ↦ s | some rest ↦ rest ]

-- strings.HasSuffix(s, suffix)
unfoldable pub has_suffix : Text → Text → Bool
unfolding text_eq
has_suffix s suffix =
    leb (length suffix) (length s) && text_eq (drop (length s - length suffix) s) suffix

-- strings.TrimSuffix(s, suffix)
unfoldable pub trim_suffix : Text → Text → Text
unfolding has_suffix
trim_suffix s suffix = if has_suffix s suffix then take (length s - length suffix) s else s

-- strings.IndexByte(s, c) >= 0
unfoldable pub contains_char : Text → ℕ → Bool
contains_char [] c = false
contains_char (d ∷ s) c = (d == c) || contains_char s c

-- strings.Count(s, c)
unfoldable pub count_char : Text → ℕ → ℕ
count_char [] c = 0
count_char (d ∷ s) c = (if d == c then 1 else 0) + count_char s c

extend_cut : ℕ → Option (Text × Text) → Option (Text × Text)
extend_cut d none = none
extend_cut d (some (a, b)) = some (d ∷ a, b)

-- strings.Cut(s, c): the parts before and after the first `c`.
unfoldable pub cut : Text → ℕ → Option (Text × Text)
unfolding extend_cut
cut [] c = none
cut (d ∷ s) c = let rest = extend_cut d (cut s c) in if d == c then some ([], s) else rest

-- s[:i] for i = strings.IndexByte(s, c), and s if there is no `c`.
unfoldable pub before_char : Text → ℕ → Text
before_char [] c = []
before_char (d ∷ s) c = if d == c then [] else d ∷ before_char s c

push_front : ℕ → List Text → List Text
push_front c [] = (c ∷ []) ∷ []
push_front c (p ∷ ps) = (c ∷ p) ∷ ps

-- strings.Split(s, c) for a separator of one character
unfoldable pub split : Text → ℕ → List Text
unfolding push_front
split [] c = [] ∷ []
split (d ∷ s) c = let rest = split s c in if d == c then [] ∷ rest else push_front d rest

-- strings.Join(parts, sep)
unfoldable pub join : List Text → Text → Text
join [] sep = []
join (p ∷ []) sep = p
join (p ∷ q ∷ ps) sep = p ++ (sep ++ join (q ∷ ps) sep)

abbrev lower_char : ℕ → ℕ
lower_char c = if leb b'A' c && leb c b'Z' then c + 32 else c

-- strings.ToLower
unfoldable pub to_lower : Text → Text
to_lower = map lower_char

-- strings.EqualFold
unfoldable pub equal_fold : Text → Text → Bool
unfolding to_lower text_eq
equal_fold a b = text_eq (to_lower a) (to_lower b)

decimal_fuel : ℕ → ℕ → Text → Text
decimal_fuel zero n acc = acc
decimal_fuel (suc f) n acc =
    let acc' = (b'0' + n % 10) ∷ acc in
    let rest = decimal_fuel f (n / 10) acc' in if ltb n 10 then acc' else rest

-- %d. A number has fewer digits than its value plus two.
unfoldable pub decimal : ℕ → Text
unfolding decimal_fuel
decimal n = decimal_fuel (suc n) n []

texts :
    (trim (codes " a b ") ≡ codes "a b")
    × (split (codes "a.b.") b'.' ≡ codes "a" ∷ codes "b" ∷ [] ∷ [])
    × (join (codes "a" ∷ codes "b" ∷ []) (codes ",") ≡ codes "a,b")
    × (trim_suffix (codes "/api/") (codes "/") ≡ codes "/api")
    × (cut (codes "h=c=d") b'=' ≡ some (codes "h", codes "c=d"))
    × (decimal 9100 ≡ codes "9100")
    × (text_lt (codes "ab") (codes "b") ≡ true)
unfolding trim split join trim_suffix cut decimal text_lt
texts = (refl, refl, refl, refl, refl, refl, refl)
