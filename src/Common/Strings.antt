-- ===== src/Common/Strings.antt =====
-- Texts as lists of code points, with the functions of Go's `strings` and `strconv` that the program
-- calls, under the names that they have there.
use go_mini_gateway.Common.Lists.{length}
use native.Mathlib.Numerals.{add-one}
use Prim.Native.Nat.{ℕ, zero, suc, ◌+◌, ◌/◌, ◌%◌, ◌≤◌}
use Prim.Native.Char.{code}
use Prim.Native.String.{String}
use mathlib.Core.Path.{◌≡◌, refl, ap}
use mathlib.Core.Logic.{◌↔◌, ◌≢◌}
use mathlib.Core.Bool.{Bool, true, false, ◌&&◌, ◌||◌}
use mathlib.Core.Option.{Option, none, some}
use mathlib.Core.List.{List, [], ◌∷◌, ◌++◌, reverse}
use native.Mathlib.Omega.{arith}
use go_mini_gateway.Common.Tests.{leb, ◌==◌, if◌then◌else◌}

-- Text is the list of its code points.
abbrev pub Text : Type 0
Text = List ℕ

-- The code points of a literal.
abbrev pub codes : String → Text
codes String.[] = []
codes (String.◌∷◌ c s) = code c ∷ codes s

-- `==` of strings.
unfoldable pub text_eq : Text → Text → Bool
text_eq [] [] = true
text_eq (a ∷ s) (b ∷ t) = a == b && text_eq s t
text_eq [] (_ ∷ _) = false
text_eq (_ ∷ _) [] = false

pub text_eq→≡ : (s t : Text) → text_eq s t ≡ true → s ≡ t
unfolding text_eq
text_eq→≡ [] [] h = refl
text_eq→≡ (a ∷ s) (b ∷ t) h = ground (arith, text_eq→≡ s t)
text_eq→≡ [] (_ ∷ _) h = cc
text_eq→≡ (_ ∷ _) [] h = cc

pub text_eq_refl : (s : Text) → text_eq s s ≡ true
unfolding text_eq
text_eq_refl [] = refl
text_eq_refl (a ∷ s) = ground (arith, text_eq_refl s)

pub text_eq_iff : (s t : Text) → (text_eq s t ≡ true) ↔ (s ≡ t)
text_eq_iff s t = (text_eq→≡ s t, λ e. ground (arith, text_eq_refl s, ap (text_eq s) e))

-- `s == ""`
abbrev pub is_empty : Text → Bool
is_empty [] = true
is_empty (_ ∷ _) = false

-- `strings.HasPrefix(s, prefix)`
unfoldable pub has_prefix : Text → Text → Bool
has_prefix s [] = true
has_prefix [] (_ ∷ _) = false
has_prefix (c ∷ s) (p ∷ prefix) = c == p && has_prefix s prefix

-- What is left of `s` behind `prefix`, which it begins with.
unfoldable pub drop_prefix : Text → Text → Text
drop_prefix s [] = s
drop_prefix [] (_ ∷ _) = []
drop_prefix (_ ∷ s) (_ ∷ prefix) = drop_prefix s prefix

-- `strings.TrimPrefix(s, prefix)`
unfoldable pub trim_prefix : Text → Text → Text
unfolding has_prefix drop_prefix
trim_prefix s prefix = if has_prefix s prefix then drop_prefix s prefix else s

-- `unicode.IsSpace`
unfoldable pub is_space : ℕ → Bool
is_space c =
    (leb 0x9 c && leb c 0xd)
    || c == 0x20
    || c == 0x85
    || c == 0xa0
    || c == 0x1680
    || (leb 0x2000 c && leb c 0x200a)
    || c == 0x2028
    || c == 0x2029
    || c == 0x202f
    || c == 0x205f
    || c == 0x3000

-- `strings.TrimLeftFunc(s, f)`
unfoldable pub trim_left : (ℕ → Bool) → Text → Text
trim_left f [] = []
trim_left f (c ∷ s) = if f c then trim_left f s else c ∷ s

-- `strings.TrimRightFunc(s, f)`: the end of a text is trimmed from the first suffix that holds no
-- other code point.
unfoldable pub trim_right : (ℕ → Bool) → Text → Text
trim_right f [] = []
trim_right f (c ∷ s) = let rest = trim_right f s in if is_empty rest && f c then [] else c ∷ rest

-- `strings.TrimSpace`
unfoldable pub trim_space : Text → Text
unfolding trim_left trim_right is_space
trim_space s = trim_right is_space (trim_left is_space s)

-- `strings.HasSuffix(s, suffix)` for a suffix of one code point.
unfoldable pub ends_with : Text → ℕ → Bool
ends_with [] c = false
ends_with (d ∷ []) c = d == c
ends_with (d ∷ e ∷ s) c = ends_with (e ∷ s) c

-- Decimal digits, the last one first; a number below `10 ^ fuel` is printed whole.
digits_rev : ℕ → ℕ → Text
digits_rev zero n = []
digits_rev (suc fuel) n =
    let rest = digits_rev fuel (n / 10) in (b'0' + n % 10) ∷ (if n / 10 == 0 then [] else rest)

-- `strconv.Itoa`, and `%d`, for a number that is not negative. A number has at most as many digits
-- as its value plus one.
unfoldable pub itoa : ℕ → Text
unfolding digits_rev
itoa n = reverse (digits_rev (suc n) n)

-- `strings.IndexByte(s, c)`, which is negative, here none, if the byte is not there.
unfoldable pub index_byte : Text → ℕ → Option ℕ
index_byte [] c = none
index_byte (d ∷ s) c =
    let rest = index_byte s c in
    if d == c then some 0 else elim rest [ none ↦ none | some i ↦ some (i + 1) ]

-- `s[:n]` and `s[n:]`
unfoldable pub take : ℕ → Text → Text
take zero s = []
take (suc n) [] = []
take (suc n) (c ∷ s) = c ∷ take n s

unfoldable pub drop : ℕ → Text → Text
drop zero s = s
drop (suc n) [] = []
drop (suc n) (c ∷ s) = drop n s

-- The code point stands nowhere in the text.
abbrev pub IsFreeOf : ℕ → Text → Type 0
IsFreeOf c [] = Unit
IsFreeOf c (d ∷ s) = (d ≢ c) × IsFreeOf c s

pub index_byte-append :
    (c : ℕ) (s t : Text) → IsFreeOf c s → index_byte (s ++ c ∷ t) c ≡ some (length s)
unfolding index_byte
index_byte-append c [] t h = ground arith
index_byte-append c (d ∷ s) t (n, h) = ground (arith, index_byte-append c s t h)

pub index_byte_free : (c : ℕ) (s : Text) → IsFreeOf c s → index_byte s c ≡ none
unfolding index_byte
index_byte_free c [] h = refl
index_byte_free c (d ∷ s) (n, h) = ground (arith, index_byte_free c s h)

pub take-append : (s t : Text) → take (length s) (s ++ t) ≡ s
unfolding take
take-append [] t = refl
take-append (c ∷ s) t = ap (λ r. c ∷ r) (take-append s t)

drop-suc-append : (s : Text) (c : ℕ) (t : Text) → drop (suc (length s)) (s ++ c ∷ t) ≡ t
unfolding drop
drop-suc-append [] c t = refl
drop-suc-append (d ∷ s) c t = drop-suc-append s c t

pub drop-append : (s : Text) (c : ℕ) (t : Text) → drop (length s + 1) (s ++ c ∷ t) ≡ t
drop-append s c t = rw add-one (drop-suc-append s c t)

pub length-drop : (n : ℕ) (s : Text) → length (drop n s) ≤ length s
unfolding drop
length-drop zero s = omega arith
length-drop (suc n) [] = omega arith
length-drop (suc n) (c ∷ s) = omega (arith, length-drop n s)

-- `strings.TrimSuffix(s, "c")`
unfoldable pub trim_suffix : Text → ℕ → Text
trim_suffix [] c = []
trim_suffix (d ∷ s) c = let rest = trim_suffix s c in if is_empty s && d == c then [] else d ∷ rest
