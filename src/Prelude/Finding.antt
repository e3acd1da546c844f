-- ===== src/Prelude/Finding.antt =====
-- `find` in a list whose items change, or that gets longer.
use mathlib.Core.Bool.{Bool, true, false}
use mathlib.Core.List.{List, [], ◌∷◌, ◌++◌}
use mathlib.Core.Path.{◌≡◌, refl, ap, sym, subst, ◌∙◌}
use mathlib.Core.Logic.{inl, inr}
use mathlib.Core.Option.{Option, none, some, none-ne-some, some-injective}
use governed_agent_platform.Prelude.Tests.{if◌then◌else◌, Bool-cases}
use governed_agent_platform.Prelude.Lists.{find}

module _ {ℓ} {A : Type ℓ} where
  find_hit_lem : (p : A → Bool) (x : A) (xs : List A) → p x ≡ true → find p (x ∷ xs) ≡ some x
  find_hit_lem p x xs h = rw (find, h) refl

  find_miss_lem : (p : A → Bool) (x : A) (xs : List A) → p x ≡ false → find p (x ∷ xs) ≡ find p xs
  find_miss_lem p x xs h = rw (find, h) refl

  -- The items that pass a test change.
  unfoldable pub update : (A → Bool) → (A → A) → List A → List A
  update p change [] = []
  update p change (x ∷ xs) =
      let rest = update p change xs in if p x then change x ∷ rest else x ∷ rest

  update_hit_lem :
      (p : A → Bool) (change : A → A) (x : A) (xs : List A)
      → p x ≡ true
      → update p change (x ∷ xs) ≡ change x ∷ update p change xs
  unfolding update
  update_hit_lem p change x xs h = rw h refl

  update_miss_lem :
      (p : A → Bool) (change : A → A) (x : A) (xs : List A)
      → p x ≡ false
      → update p change (x ∷ xs) ≡ x ∷ update p change xs
  unfolding update
  update_miss_lem p change x xs h = rw h refl

  -- What was found, changed.
  abbrev pub changed : (A → A) → Option A → Option A
  changed change none = none
  changed change (some x) = some (change x)

  -- A change that keeps a test.
  pub find_update_lem :
      (p : A → Bool) (change : A → A)
      → ((x : A) → p x ≡ true → p (change x) ≡ true)
      → (xs : List A) → find p (update p change xs) ≡ changed change (find p xs)
  unfolding update
  find_update_lem p change keeps [] = refl
  find_update_lem p change keeps (x ∷ xs) = elim (Bool-cases (p x)) [
    | inl hit ↦
        ap (find p) (update_hit_lem p change x xs hit)
        ∙ find_hit_lem p (change x) (update p change xs) (keeps x hit)
        ∙ ap (changed change) (sym (find_hit_lem p x xs hit))
    | inr miss ↦
        ap (find p) (update_miss_lem p change x xs miss)
        ∙ find_miss_lem p x (update p change xs) miss
        ∙ find_update_lem p change keeps xs
        ∙ ap (changed change) (sym (find_miss_lem p x xs miss))
  ]

  -- A change of items that fail another test, before and after.
  pub find_untouched_lem :
      (p q : A → Bool) (change : A → A)
      → ((x : A) → q x ≡ true → (p x ≡ false) × (p (change x) ≡ false))
      → (xs : List A) → find p (update q change xs) ≡ find p xs
  unfolding update
  find_untouched_lem p q change apart [] = refl
  find_untouched_lem p q change apart (x ∷ xs) = elim (Bool-cases (q x)) [
    | inl hit ↦
        ap (find p) (update_hit_lem q change x xs hit)
        ∙ find_miss_lem p (change x) (update q change xs) (apart x hit).1
        ∙ find_untouched_lem p q change apart xs
        ∙ sym (find_miss_lem p x xs (apart x hit).0)
    | inr miss ↦ ap (find p) (update_miss_lem q change x xs miss) ∙ elim (Bool-cases (p x)) [
      | inl found ↦ find_hit_lem p x (update q change xs) found ∙ sym (find_hit_lem p x xs found)
      | inr other ↦
          find_miss_lem p x (update q change xs) other
          ∙ find_untouched_lem p q change apart xs
          ∙ sym (find_miss_lem p x xs other)
    ]
  ]

  pub find_append_lem :
      (p : A → Bool) (xs : List A) (y : A)
      → find p xs ≡ none
      → p y ≡ true
      → find p (xs ++ y ∷ []) ≡ some y
  find_append_lem p [] y h k = find_hit_lem p y [] k
  find_append_lem p (x ∷ xs) y h k = elim (Bool-cases (p x)) [
    | inl found ↦ absurd (none-ne-some x (sym h ∙ find_hit_lem p x xs found))
    | inr other ↦
        find_miss_lem p x (xs ++ y ∷ []) other
        ∙ find_append_lem p xs y (sym (find_miss_lem p x xs other) ∙ h) k
  ]

  -- What was found passes the test.
  pub find_true_lem : (p : A → Bool) (xs : List A) (x : A) → find p xs ≡ some x → p x ≡ true
  find_true_lem p [] x h = absurd (none-ne-some x h)
  find_true_lem p (y ∷ xs) x h = elim (Bool-cases (p y)) [
    | inl found ↦
        subst (λ z. p z ≡ true) (some-injective _ _ (sym (find_hit_lem p y xs found) ∙ h)) found
    | inr other ↦ find_true_lem p xs x (sym (find_miss_lem p y xs other) ∙ h)
  ]
