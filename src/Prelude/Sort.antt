-- ===== src/Prelude/Sort.antt =====
-- Python's `sorted`: a stable insertion sort by a Boolean order.
use Prim.Native.Nat.{suc}
use mathlib.Core.Path.{◌≡◌, refl, ◌∙◌}
use mathlib.Core.Bool.{Bool, true, false, ◌||◌}
use mathlib.Core.List.{List, [], ◌∷◌}
use native.Mathlib.Omega.{arith}
use proxmoxve_integration.Prelude.Equality.{Eq, ◌==◌, contains, if◌then◌else◌}
use proxmoxve_integration.Prelude.Lists.{All, any, length}
use proxmoxve_integration.Prelude.Sets.{NoRepeat}

module _ {ℓ} {A : Type ℓ} (le : A → A → Bool) where
  unfoldable pub insert_by : A → List A → List A
  insert_by x [] = x ∷ []
  insert_by x (y ∷ ys) = if le x y then x ∷ y ∷ ys else y ∷ insert_by x ys

  unfoldable pub sort_by : List A → List A
  unfolding insert_by
  sort_by [] = []
  sort_by (x ∷ xs) = insert_by x (sort_by xs)

  any-insert_by : (f : A → Bool) (x : A) (ys : List A) → any f (insert_by x ys) ≡ (f x || any f ys)
  unfolding insert_by
  any-insert_by f x [] = refl
  any-insert_by f x (y ∷ ys) = ground (arith, any-insert_by f x ys)

  pub any-sort_by : (f : A → Bool) (xs : List A) → any f (sort_by xs) ≡ any f xs
  unfolding sort_by
  any-sort_by f [] = refl
  any-sort_by f (x ∷ xs) = ground (arith, any-insert_by f x (sort_by xs), any-sort_by f xs)

  length-insert_by : (x : A) (ys : List A) → length (insert_by x ys) ≡ suc (length ys)
  unfolding insert_by
  length-insert_by x [] = refl
  length-insert_by x (y ∷ ys) = ground (arith, length-insert_by x ys)

  pub length-sort_by : (xs : List A) → length (sort_by xs) ≡ length xs
  unfolding sort_by
  length-sort_by [] = refl
  length-sort_by (x ∷ xs) = ground (arith, length-insert_by x (sort_by xs), length-sort_by xs)

  abbrev pub IsSorted : List A → Type 0
  IsSorted [] = Unit
  IsSorted (x ∷ xs) = All (λ y. le x y ≡ true) xs × IsSorted xs

  module _ (total : (x y : A) → (le x y || le y x) ≡ true)
      (trans : (x y z : A) → le x y ≡ true → le y z ≡ true → le x z ≡ true) where
    below-All :
        (x y : A) (ys : List A)
        → le x y ≡ true
        → All (λ z. le y z ≡ true) ys
        → All (λ z. le x z ≡ true) ys
    below-All x y [] h k = tt
    below-All x y (z ∷ ys) h k = (trans x y z h k.0, below-All x y ys h k.1)

    All-insert_by :
        (w x : A) (ys : List A)
        → le w x ≡ true
        → All (λ z. le w z ≡ true) ys
        → All (λ z. le w z ≡ true) (insert_by x ys)
    unfolding insert_by
    All-insert_by w x [] h k = (h, tt)
    All-insert_by w x (y ∷ ys) h k = ground (arith, All-insert_by w x ys h)

    insert_by-IsSorted : (x : A) (ys : List A) → IsSorted ys → IsSorted (insert_by x ys)
    unfolding insert_by
    insert_by-IsSorted x [] s = (tt, tt)
    insert_by-IsSorted x (y ∷ ys) s =
        ground (arith, total x y, below-All x y ys, insert_by-IsSorted x ys, All-insert_by y x ys)

    -- `sorted` returns an ascending list.
    pub sort_by-IsSorted : (xs : List A) → IsSorted (sort_by xs)
    unfolding sort_by
    sort_by-IsSorted [] = tt
    sort_by-IsSorted (x ∷ xs) = insert_by-IsSorted x (sort_by xs) (sort_by-IsSorted xs)

module _ {ℓ} {A : Type ℓ} ⦃e : Eq A⦄ (le : A → A → Bool) where
  contains-insert_by :
      (x : A) (ys : List A) (b : A) → contains (insert_by le x ys) b ≡ ((b == x) || contains ys b)
  unfolding insert_by
  contains-insert_by x [] b = refl
  contains-insert_by x (y ∷ ys) b = ground (arith, contains-insert_by x ys b)

  pub contains-sort_by : (xs : List A) (b : A) → contains (sort_by le xs) b ≡ contains xs b
  unfolding sort_by
  contains-sort_by [] b = refl
  contains-sort_by (x ∷ xs) b =
      ground (arith, contains-insert_by x (sort_by le xs) b, contains-sort_by xs b)

  insert_by-NoRepeat :
      (x : A) (ys : List A) → contains ys x ≡ false → NoRepeat ys → NoRepeat (insert_by le x ys)
  unfolding insert_by
  insert_by-NoRepeat x [] h n = (refl, tt)
  insert_by-NoRepeat x (y ∷ ys) h n =
      ground (arith, insert_by-NoRepeat x ys, contains-insert_by x ys y)

  pub sort_by-NoRepeat : (xs : List A) → NoRepeat xs → NoRepeat (sort_by le xs)
  unfolding sort_by
  sort_by-NoRepeat [] n = tt
  sort_by-NoRepeat (x ∷ xs) n =
      insert_by-NoRepeat x (sort_by le xs) (contains-sort_by xs x ∙ n.0) (sort_by-NoRepeat xs n.1)
