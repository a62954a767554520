-- ===== src/Common/Sorting.antt =====
-- `sort.Strings`, `sort.Ints` and `sort.Slice`, as insertion, and that they forget the order in which a
-- map hands out its keys.
use mathlib.Core.Path.{◌≡◌, refl, ◌∙◌}
use mathlib.Core.Logic.{◌⊎◌, inl, inr}
use mathlib.Core.Bool.{Bool, true, false, ◌&&◌, ◌||◌}
use mathlib.Core.List.{List, [], ◌∷◌, Permᴰ}
use native.Mathlib.Omega.{arith}
use go_mini_gateway.Common.Tests.{ltb, ◌==◌, if◌then◌else◌}
use go_mini_gateway.Common.Strings.{Text}

module _ {A : Type 0} (le : A → A → Bool) where
  unfoldable pub insert_sorted : A → List A → List A
  insert_sorted a [] = a ∷ []
  insert_sorted a (b ∷ bs) = if le a b then a ∷ b ∷ bs else b ∷ insert_sorted a bs

  unfoldable pub sort : List A → List A
  sort [] = []
  sort (a ∷ as_) = insert_sorted a (sort as_)

  -- A total order.
  pub record IsOrder : Type 0 where
    pub total : (a b : A) → (le a b ≡ true) ⊎ (le b a ≡ true)
    pub antisym : (a b : A) → le a b ≡ true → le b a ≡ true → a ≡ b
    pub trans : (a b c : A) → le a b ≡ true → le b c ≡ true → le a c ≡ true

  module _ (o : IsOrder) where
    insert_sorted_comm :
        (a b : A) (xs : List A)
        → insert_sorted a (insert_sorted b xs) ≡ insert_sorted b (insert_sorted a xs)
    unfolding insert_sorted
    insert_sorted_comm a b [] = ground (arith, o.total a b, o.antisym a b)
    insert_sorted_comm a b (x ∷ xs) = ground (
      arith,
      o.total a b,
      o.antisym a b,
      o.trans a b x,
      o.trans b a x,
      o.total a x,
      o.total b x,
      insert_sorted_comm a b xs,
    )

    -- Lists with the same elements are sorted to the same list.
    pub sort-perm : (xs ys : List A) → Permᴰ xs ys → sort xs ≡ sort ys
    unfolding sort
    sort-perm xs ys Permᴰ.nil = refl
    sort-perm xs ys (Permᴰ.cons e p) = rw (e, sort-perm _ _ p)
    sort-perm xs ys (Permᴰ.swap e f) = rw (e, f) (insert_sorted_comm _ _ _)
    sort-perm xs ys (Permᴰ.trans p q) = sort-perm _ _ p ∙ sort-perm _ _ q

-- `<=` of strings: by their bytes, which is by their code points.
unfoldable pub text_leb : Text → Text → Bool
text_leb [] t = true
text_leb (a ∷ s) [] = false
text_leb (a ∷ s) (b ∷ t) = ltb a b || (a == b && text_leb s t)

text_leb_total : (s t : Text) → (text_leb s t ≡ true) ⊎ (text_leb t s ≡ true)
unfolding text_leb
text_leb_total [] t = inl refl
text_leb_total (a ∷ s) [] = inr refl
text_leb_total (a ∷ s) (b ∷ t) = ground (arith, text_leb_total s t)

text_leb_antisym : (s t : Text) → text_leb s t ≡ true → text_leb t s ≡ true → s ≡ t
unfolding text_leb
text_leb_antisym [] [] h k = refl
text_leb_antisym [] (_ ∷ _) h k = cc
text_leb_antisym (_ ∷ _) [] h k = cc
text_leb_antisym (a ∷ s) (b ∷ t) h k = ground (arith, text_leb_antisym s t)

text_leb_trans : (s t u : Text) → text_leb s t ≡ true → text_leb t u ≡ true → text_leb s u ≡ true
unfolding text_leb
text_leb_trans [] t u h k = refl
text_leb_trans (_ ∷ _) [] u h k = cc
text_leb_trans (_ ∷ _) (_ ∷ _) [] h k = cc
text_leb_trans (a ∷ s) (b ∷ t) (c ∷ u) h k = ground (arith, text_leb_trans s t u)

pub text_leb-IsOrder : IsOrder text_leb
text_leb-IsOrder = record {
  total = text_leb_total;
  antisym = text_leb_antisym;
  trans = text_leb_trans;
}
