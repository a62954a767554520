-- ===== src/Config/Normalize/Prefixes.antt =====
-- The paths that `normalizePrefix` and `normalizeStripPrefix` make.
use go_mini_gateway.Common.{
  ℕ, ◌≡◌, inl, inr, refl, Text, Bool, true, false, [], ◌∷◌, ◌++◌, is_empty, arith, trim_left,
  trim_right, trim_space, is_space, has_prefix, ends_with, codes, Bool-cases,
}
use go_mini_gateway.Config.Normalize.{rooted, closed, normalize_prefix}

-- A path that begins and ends with a slash.
abbrev pub IsClosed : Text → Type 0
IsClosed s = (has_prefix s (codes "/") ≡ true) × (ends_with s b'/' ≡ true)

ends_with-append : (s : Text) (c : ℕ) → ends_with (s ++ c ∷ []) c ≡ true
unfolding ends_with
ends_with-append [] c = ground arith
ends_with-append (d ∷ []) c = ground arith
ends_with-append (d ∷ e ∷ s) c = ends_with-append (e ∷ s) c

pub rooted_lem : (s : Text) → has_prefix (rooted s) (codes "/") ≡ true
unfolding rooted has_prefix
rooted_lem [] = refl
rooted_lem (c ∷ s) = ground arith

closed_lem : (s : Text) → has_prefix s (codes "/") ≡ true → IsClosed (closed s)
unfolding closed has_prefix
closed_lem [] h = cc
closed_lem (c ∷ s) h = elim (Bool-cases (ends_with (c ∷ s) b'/')) [
  | inl e ↦ rw e (h, e)
  | inr e ↦ rw e (h, ends_with-append (c ∷ s) b'/')
]

-- Whatever the text, the prefix of a route begins and ends with a slash.
pub normalize_prefix-IsClosed : (s : Text) → IsClosed (normalize_prefix s)
unfolding normalize_prefix has_prefix ends_with
normalize_prefix-IsClosed s = elim (Bool-cases (is_empty (trim_space s))) [
  | inl e ↦ rw e (refl, refl)
  | inr e ↦ rw e (closed_lem (rooted (trim_space s)) (rooted_lem (trim_space s)))
]

trim_right-id :
    (f : ℕ → Bool) (s : Text) (c : ℕ) → f c ≡ false → ends_with s c ≡ true → trim_right f s ≡ s
unfolding trim_right ends_with
trim_right-id f [] c h e = refl
trim_right-id f (d ∷ []) c h e = ground arith
trim_right-id f (d ∷ x ∷ s) c h e = let ih = trim_right-id f (x ∷ s) c h e in rw ih refl

is_space_slash : is_space b'/' ≡ false
unfolding is_space
is_space_slash = refl

trim_left-id : (f : ℕ → Bool) (c : ℕ) (s : Text) → f c ≡ false → trim_left f (c ∷ s) ≡ c ∷ s
unfolding trim_left
trim_left-id f c s h = rw h refl

first_slash : (s : Text) → has_prefix s (codes "/") ≡ true → (t : Text) × (s ≡ b'/' ∷ t)
unfolding has_prefix
first_slash [] h = cc
first_slash (c ∷ s) h = (s, ground arith)

closed-trim_space : (s : Text) → IsClosed s → trim_space s ≡ s
unfolding trim_space
closed-trim_space s (h, e) =
    let (t, same) = first_slash s h in
    let left : trim_left is_space s ≡ s = rw same (trim_left-id is_space b'/' t is_space_slash) in
    rw left (trim_right-id is_space s b'/' is_space_slash e)

closed-id : (s : Text) → IsClosed s → normalize_prefix s ≡ s
unfolding normalize_prefix rooted closed
closed-id s (h, e) =
    let (t, same) = first_slash s h in
    let full : is_empty s ≡ false = rw same refl in rw (closed-trim_space s (h, e), full, h, e) refl

-- Normalizing the prefix of a route again does not change it.
normalize_prefix_idempotent :
    (s : Text) → normalize_prefix (normalize_prefix s) ≡ normalize_prefix s
normalize_prefix_idempotent s = closed-id _ (normalize_prefix-IsClosed s)
