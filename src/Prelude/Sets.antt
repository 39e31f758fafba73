-- ===== src/Prelude/Sets.antt =====
-- Python sets, as lists without repetition. Only membership and `sorted` are ever asked of them.
use mathlib.Core.Path.{◌≡◌, refl}
use mathlib.Core.Bool.{false, ◌||◌, ◌&&◌, not}
use mathlib.Core.List.{List, [], ◌∷◌, ◌++◌}
use native.Mathlib.Omega.{arith}
use proxmoxve_integration.Prelude.Equality.{Eq, ◌==◌, contains, if◌then◌else◌}

module _ {ℓ} {A : Type ℓ} ⦃e : Eq A⦄ where
  -- `s.add(a)`
  unfoldable pub add : A → List A → List A
  add a s = if contains s a then s else a ∷ s

  -- `set(xs)`
  unfoldable pub set_of : List A → List A
  set_of [] = []
  set_of (x ∷ xs) = add x (set_of xs)

  -- `set(xs) - set(ys)`
  unfoldable pub difference : List A → List A → List A
  difference [] ys = []
  difference (x ∷ xs) ys = let rest = difference xs ys in if contains ys x then rest else add x rest

  abbrev pub NoRepeat : List A → Type 0
  NoRepeat [] = Unit
  NoRepeat (x ∷ xs) = (contains xs x ≡ false) × NoRepeat xs

  pub contains-add : (a b : A) (s : List A) → contains (add a s) b ≡ ((b == a) || contains s b)
  unfolding add
  contains-add a b s = ground arith

  pub add-NoRepeat : (a : A) (s : List A) → NoRepeat s → NoRepeat (add a s)
  unfolding add
  add-NoRepeat a s h = ground arith

  pub contains-set_of : (xs : List A) (b : A) → contains (set_of xs) b ≡ contains xs b
  unfolding set_of
  contains-set_of [] b = refl
  contains-set_of (x ∷ xs) b = ground (arith, contains-add x b (set_of xs), contains-set_of xs b)

  pub set_of-NoRepeat : (xs : List A) → NoRepeat (set_of xs)
  unfolding set_of
  set_of-NoRepeat [] = tt
  set_of-NoRepeat (x ∷ xs) = add-NoRepeat x (set_of xs) (set_of-NoRepeat xs)

  pub contains-difference :
      (xs ys : List A) (b : A)
      → contains (difference xs ys) b ≡ (contains xs b && not (contains ys b))
  unfolding difference
  contains-difference [] ys b = refl
  contains-difference (x ∷ xs) ys b =
      ground (arith, contains-difference xs ys b, contains-add x b (difference xs ys))

  pub difference-NoRepeat : (xs ys : List A) → NoRepeat (difference xs ys)
  unfolding difference
  difference-NoRepeat [] ys = tt
  difference-NoRepeat (x ∷ xs) ys =
      ground (arith, difference-NoRepeat xs ys, add-NoRepeat x (difference xs ys))

  -- `if a not in xs: xs.append(a)`
  unfoldable pub append_new : List A → A → List A
  append_new xs a = if contains xs a then xs else xs ++ a ∷ []

  pub contains-append :
      (xs ys : List A) (b : A) → contains (xs ++ ys) b ≡ (contains xs b || contains ys b)
  contains-append [] ys b = refl
  contains-append (x ∷ xs) ys b = ground (arith, contains-append xs ys b)

  NoRepeat-append_one :
      (xs : List A) (a : A) → contains xs a ≡ false → NoRepeat xs → NoRepeat (xs ++ a ∷ [])
  NoRepeat-append_one [] a h n = (refl, tt)
  NoRepeat-append_one (x ∷ xs) a h n =
      ground (arith, NoRepeat-append_one xs a, contains-append xs (a ∷ []) x)

  pub append_new-NoRepeat : (xs : List A) (a : A) → NoRepeat xs → NoRepeat (append_new xs a)
  unfolding append_new
  append_new-NoRepeat xs a n = ground (arith, NoRepeat-append_one xs a)

  pub contains-append_new :
      (xs : List A) (a b : A) → contains (append_new xs a) b ≡ (contains xs b || b == a)
  unfolding append_new
  contains-append_new xs a b = ground (arith, contains-append xs (a ∷ []) b)
