-- ===== src/Prelude/Sorting.antt =====
-- Python's `sorted`, which is stable, by a strict order `before`; and the order's laws.
use Prim.Native.Nat.{ℕ, zero, suc}
use mathlib.Core.Path.{◌≡◌, refl, ap, ◌∙◌}
use mathlib.Core.Logic.{◌⊎◌, inl, inr}
use mathlib.Core.Bool.{Bool, true, false}
use mathlib.Core.List.{List, [], ◌∷◌, Perm, map}
use mathlib.Core.List.Perm
use governed_agent_platform.Prelude.Tests.{if◌then◌else◌, Bool-cases}
use governed_agent_platform.Prelude.Lists.{
  All, Any, Pairwise, All-weaken, All-take, All-drop, take, drop,
}

module _ {ℓ} {A : Type ℓ} (before : A → A → Bool) where
  -- In front of the first one that is not before it.
  unfoldable pub place : A → List A → List A
  place x [] = x ∷ []
  place x (y ∷ ys) = let rest = place x ys in if before y x then y ∷ rest else x ∷ y ∷ ys

  unfoldable pub sort : List A → List A
  unfolding place
  sort [] = []
  sort (x ∷ xs) = place x (sort xs)

  -- No later one is before an earlier one.
  abbrev pub IsSorted : List A → Type 0
  IsSorted [] = Unit
  IsSorted (x ∷ xs) = All (λ y. before y x ≡ false) xs × IsSorted xs

  All-place {κ} : (P : A → Type κ) (x : A) (ys : List A) → P x → All P ys → All P (place x ys)
  unfolding place
  All-place P x [] p h = (p, tt)
  All-place P x (y ∷ ys) p h = elim (Bool-cases (before y x)) [
    | inl goes ↦ rw goes (h.0, All-place P x ys p h.1)
    | inr stays ↦ rw stays (p, h)
  ]

  pub All-sort {κ} : (P : A → Type κ) (xs : List A) → All P xs → All P (sort xs)
  unfolding sort
  All-sort P [] h = tt
  All-sort P (x ∷ xs) h = All-place P x (sort xs) h.0 (All-sort P xs h.1)

  place-perm : (x : A) (ys : List A) → Perm (place x ys) (x ∷ ys)
  unfolding place
  place-perm x [] = Perm.refl (x ∷ [])
  place-perm x (y ∷ ys) = elim (Bool-cases (before y x)) [
    | inl goes ↦ rw goes (Perm.trans (Perm.cons y (place-perm x ys)) (Perm.swap x y ys))
    | inr stays ↦ rw stays (Perm.refl (x ∷ y ∷ ys))
  ]

  pub sort-perm : (xs : List A) → Perm (sort xs) xs
  unfolding sort
  sort-perm [] = Perm.refl []
  sort-perm (x ∷ xs) = Perm.trans (place-perm x (sort xs)) (Perm.cons x (sort-perm xs))

  place-Pairwise {κ} :
      (R : A → A → Type κ)
      → ((x y : A) → R x y → R y x)
      → (x : A) (ys : List A) → All (R x) ys
      → Pairwise R ys
      → Pairwise R (place x ys)
  unfolding place
  place-Pairwise R back x [] h k = (tt, tt)
  place-Pairwise R back x (y ∷ ys) h k = elim (Bool-cases (before y x)) [
    | inl goes ↦
        rw goes (All-place (R y) x ys (back x y h.0) k.0, place-Pairwise R back x ys h.1 k.1)
    | inr stays ↦ rw stays (h, k)
  ]

  -- Sorting keeps a symmetric relation between each two items.
  pub sort-Pairwise {κ} :
      (R : A → A → Type κ)
      → ((x y : A) → R x y → R y x)
      → (xs : List A) → Pairwise R xs
      → Pairwise R (sort xs)
  unfolding sort
  sort-Pairwise R back [] h = tt
  sort-Pairwise R back (x ∷ xs) h =
      place-Pairwise R back x (sort xs) (All-sort (R x) xs h.0) (sort-Pairwise R back xs h.1)

  place-Any : (P : A → Type 0) (x : A) (ys : List A) → P x ⊎ Any P ys → Any P (place x ys)
  unfolding place
  place-Any P x [] h = h
  place-Any P x (y ∷ ys) (inl p) = elim (Bool-cases (before y x)) [
    | inl goes ↦ rw goes (inr (place-Any P x ys (inl p)))
    | inr stays ↦ rw stays (inl p)
  ]
  place-Any P x (y ∷ ys) (inr (inl q)) = elim (Bool-cases (before y x)) [
    | inl goes ↦ rw goes (inl q)
    | inr stays ↦ rw stays (inr (inl q))
  ]
  place-Any P x (y ∷ ys) (inr (inr h)) = elim (Bool-cases (before y x)) [
    | inl goes ↦ rw goes (inr (place-Any P x ys (inr h)))
    | inr stays ↦ rw stays (inr (inr h))
  ]

  pub sort-Any : (P : A → Type 0) (xs : List A) → Any P xs → Any P (sort xs)
  unfolding sort
  sort-Any P [] h = h
  sort-Any P (x ∷ xs) (inl p) = place-Any P x (sort xs) (inl p)
  sort-Any P (x ∷ xs) (inr h) = place-Any P x (sort xs) (inr (sort-Any P xs h))

  pub IsSorted-take : (n : ℕ) (xs : List A) → IsSorted xs → IsSorted (take n xs)
  IsSorted-take zero xs h = tt
  IsSorted-take (suc n) [] h = tt
  IsSorted-take (suc n) (x ∷ xs) h =
      (All-take (λ y. before y x ≡ false) n xs h.0, IsSorted-take n xs h.1)

  -- In a sorted list, none of the rest is before one that was taken.
  pub IsSorted-split :
      (n : ℕ) (xs : List A)
      → IsSorted xs
      → All (λ x. All (λ y. before y x ≡ false) (drop n xs)) (take n xs)
  IsSorted-split zero xs h = tt
  IsSorted-split (suc n) [] h = tt
  IsSorted-split (suc n) (x ∷ xs) h =
      (All-drop (λ y. before y x ≡ false) n xs h.0, IsSorted-split n xs h.1)

  -- The laws of a strict weak order.
  pub record IsOrder : Type ℓ where
    pub asymm : (x y : A) → before x y ≡ true → before y x ≡ false
    pub trans : (x y z : A) → before y x ≡ false → before z y ≡ false → before z x ≡ false

  module _ (o : IsOrder) where
    place-IsSorted : (x : A) (ys : List A) → IsSorted ys → IsSorted (place x ys)
    unfolding place
    place-IsSorted x [] h = (tt, tt)
    place-IsSorted x (y ∷ ys) h = elim (Bool-cases (before y x)) [
      | inl goes ↦
          rw goes (
            All-place (λ z. before z y ≡ false) x ys (o.asymm y x goes) h.0,
            place-IsSorted x ys h.1,
          )
      | inr stays ↦ rw stays (
        (
          stays,
          All-weaken (λ z. before z y ≡ false) (λ z. before z x ≡ false) ys
              (λ z k. o.trans x y z stays k) h.0,
        ),
        h,
      )
    ]

    pub sort-IsSorted : (xs : List A) → IsSorted (sort xs)
    unfolding sort
    sort-IsSorted [] = tt
    sort-IsSorted (x ∷ xs) = place-IsSorted x (sort xs) (sort-IsSorted xs)

-- Sorting after a map that keeps the order is the map after sorting.
module _ {ℓ κ} {A : Type ℓ} {B : Type κ} (f : A → B) (before : B → B → Bool) where
  place-map :
      (x : A) (ys : List A)
      → place before (f x) (map f ys) ≡ map f (place (λ a b. before (f a) (f b)) x ys)
  unfolding place
  place-map x [] = refl
  place-map x (y ∷ ys) = elim (Bool-cases (before (f y) (f x))) [
    | inl goes ↦ rw goes (ap (◌∷◌ (f y)) (place-map x ys))
    | inr stays ↦ rw stays refl
  ]

  pub sort-map :
      (xs : List A) → sort before (map f xs) ≡ map f (sort (λ a b. before (f a) (f b)) xs)
  unfolding sort
  sort-map [] = refl
  sort-map (x ∷ xs) =
      ap (place before (f x)) (sort-map xs) ∙ place-map x (sort (λ a b. before (f a) (f b)) xs)
