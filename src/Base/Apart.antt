-- ===== src/Base/Apart.antt =====
-- Lists whose elements are pairwise apart under a Boolean test, and Boolean tests over lists.
use mathlib.Core.Path.{◌≡◌, refl}
use mathlib.Core.Bool.{Bool, true, false}
use mathlib.Core.List.{List, [], ◌∷◌, ◌++◌, map}
use native.Mathlib.Omega.{arith}
use mathlib.Core.Logic.{inl, inr}
use nx_remote_cache.Base.Tests.{Bool-cases}
use nx_remote_cache.Base.Lists.{keep, any, all}

module _ {ℓ} {A : Type ℓ} (p : A → Bool) where
  pub any-snoc-false :
      (xs : List A) (x : A) → any p xs ≡ false → p x ≡ false → any p (xs ++ x ∷ []) ≡ false
  any-snoc-false [] x h e = rw e
  any-snoc-false (y ∷ ys) x h e = ground (arith, any-snoc-false ys x)

  pub any-keep-false : (q : A → Bool) (xs : List A) → any p xs ≡ false → any p (keep q xs) ≡ false
  any-keep-false q [] h = refl
  any-keep-false q (x ∷ xs) h = ground (arith, any-keep-false q xs)

  pub any-map-false :
      (f : A → A) (q : A → Bool) (xs : List A)
      → ((x : A) → p (f x) ≡ q x)
      → any q xs ≡ false
      → any p (map f xs) ≡ false
  any-map-false f q [] same h = refl
  any-map-false f q (x ∷ xs) same h = ground (arith, same x, any-map-false f q xs same)

  pub all-snoc : (xs : List A) (x : A) → all p xs ≡ true → p x ≡ true → all p (xs ++ x ∷ []) ≡ true
  all-snoc [] x h e = rw e
  all-snoc (y ∷ ys) x h e = ground (arith, all-snoc ys x)

  pub all-keep : (q : A → Bool) (xs : List A) → all p xs ≡ true → all p (keep q xs) ≡ true
  all-keep q [] h = refl
  all-keep q (x ∷ xs) h = ground (arith, all-keep q xs)

  -- What passes `q` and is kept by `r` passes `p`.
  pub all-keep_both :
      (q r : A → Bool) (xs : List A)
      → ((x : A) → q x ≡ true → r x ≡ true → p x ≡ true)
      → all q xs ≡ true
      → all p (keep r xs) ≡ true
  all-keep_both q r [] sub h = refl
  all-keep_both q r (x ∷ xs) sub h = ground (arith, sub x, all-keep_both q r xs sub)

  pub all-map :
      (q : A → Bool) (f : A → A) (xs : List A)
      → ((x : A) → q x ≡ true → p (f x) ≡ true)
      → all q xs ≡ true
      → all p (map f xs) ≡ true
  all-map q f [] sub h = refl
  all-map q f (x ∷ xs) sub h = ground (arith, sub x, all-map q f xs sub)

  pub all-weaken :
      (q : A → Bool) (xs : List A)
      → ((x : A) → q x ≡ true → p x ≡ true)
      → all q xs ≡ true
      → all p xs ≡ true
  all-weaken q [] sub h = refl
  all-weaken q (x ∷ xs) sub h = ground (arith, sub x, all-weaken q xs sub)

module _ {ℓ} {A : Type ℓ} (same : A → A → Bool) where
  abbrev pub AreApart : List A → Type 0
  AreApart [] = Unit
  AreApart (x ∷ xs) = (any (λ y. same y x) xs ≡ false) × AreApart xs

  pub AreApart-snoc :
      (xs : List A) (x : A)
      → ((y z : A) → same y z ≡ same z y)
      → AreApart xs
      → any (λ y. same y x) xs ≡ false
      → AreApart (xs ++ x ∷ [])
  AreApart-snoc [] x swap h e = (refl, tt)
  AreApart-snoc (y ∷ ys) x swap h e = (
    any-snoc-false (λ z. same z y) ys x h.0 (ground (arith, swap x y)),
    AreApart-snoc ys x swap h.1 (ground arith),
  )

  pub AreApart-keep : (q : A → Bool) (xs : List A) → AreApart xs → AreApart (keep q xs)
  AreApart-keep q [] h = tt
  AreApart-keep q (x ∷ xs) h =
      let rest = AreApart-keep q xs h.1 in
      elim (Bool-cases (q x)) [
        | inl kept ↦ rw kept (any-keep-false (λ y. same y x) q xs h.0, rest)
        | inr gone ↦ rw gone rest
      ]

  pub AreApart-map :
      (f : A → A) (xs : List A)
      → ((y z : A) → same (f y) (f z) ≡ same y z)
      → AreApart xs
      → AreApart (map f xs)
  AreApart-map f [] keeps h = tt
  AreApart-map f (x ∷ xs) keeps h = (
    any-map-false (λ y. same y (f x)) f (λ y. same y x) xs (λ y. keeps y x) h.0,
    AreApart-map f xs keeps h.1,
  )
