-- ===== src/Base/Sorting.antt =====
-- The insertion sort of Base/Lists.antt: its result is a permutation in order.
use mathlib.Core.Path.{◌≡◌, refl}
use mathlib.Core.Bool.{Bool, true, false, not, ◌||◌}
use mathlib.Core.Logic.{inl, inr}
use mathlib.Core.List.{List, [], ◌∷◌, Perm}
use mathlib.Core.List.Perm
use native.Mathlib.Omega.{arith}
use nx_remote_cache.Base.Tests.{Bool-cases}
use nx_remote_cache.Base.Lists.{any, insert_by, sort_by}
use nx_remote_cache.Base.Apart.{AreApart}

module _ {ℓ} {A : Type ℓ} (less : A → A → Bool) where
  -- No element is less than one before it.
  abbrev pub IsSorted : List A → Type 0
  IsSorted xs = AreApart less xs

  abbrev pub upto : A → A → Bool
  upto a b = not (less b a)

  insert_by-perm : (x : A) (ys : List A) → Perm (insert_by upto x ys) (x ∷ ys)
  unfolding insert_by
  insert_by-perm x [] = Perm.rfl
  insert_by-perm x (y ∷ ys) = elim (Bool-cases (less y x)) [
    | inl before ↦
        rw (before, insert_by) (Perm.trans (Perm.cons y (insert_by-perm x ys)) (Perm.swap x y ys))
    | inr after ↦ rw (after, insert_by) Perm.rfl
  ]

  pub sort_by-perm : (xs : List A) → Perm (sort_by upto xs) xs
  unfolding sort_by
  sort_by-perm [] = Perm.rfl
  sort_by-perm (x ∷ xs) =
      Perm.trans (insert_by-perm x (sort_by upto xs)) (Perm.cons x (sort_by-perm xs))

  any-insert_by :
      (p : A → Bool) (x : A) (ys : List A) → any p (insert_by upto x ys) ≡ (p x || any p ys)
  unfolding insert_by
  any-insert_by p x [] = refl
  any-insert_by p x (y ∷ ys) = ground (arith, any-insert_by p x ys)

  module _ (asym : (a b : A) → less a b ≡ true → less b a ≡ false)
      (steps : (a b c : A) → less a b ≡ false → less b c ≡ false → less a c ≡ false) where
    any-less_trans :
        (x y : A) (zs : List A)
        → less y x ≡ false
        → any (λ z. less z y) zs ≡ false
        → any (λ z. less z x) zs ≡ false
    any-less_trans x y [] h k = refl
    any-less_trans x y (z ∷ zs) h k = ground (arith, steps z y x, any-less_trans x y zs)

    insert_by-IsSorted : (x : A) (ys : List A) → IsSorted ys → IsSorted (insert_by upto x ys)
    unfolding insert_by
    insert_by-IsSorted x [] h = (refl, tt)
    insert_by-IsSorted x (y ∷ ys) h = elim (Bool-cases (less y x)) [
      | inl before ↦
          rw (before, insert_by)
            (
              ground (arith, any-insert_by (λ z. less z y) x ys, asym y x),
              insert_by-IsSorted x ys h.1,
            )
      | inr after ↦ rw (after, insert_by) (ground (arith, any-less_trans x y ys after h.0), h)
    ]

    pub sort_by-IsSorted : (xs : List A) → IsSorted (sort_by upto xs)
    unfolding sort_by
    sort_by-IsSorted [] = tt
    sort_by-IsSorted (x ∷ xs) = insert_by-IsSorted x (sort_by upto xs) (sort_by-IsSorted xs)
