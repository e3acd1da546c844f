-- ===== src/Prelude/Dict.antt =====
-- A Python dictionary in insertion order. A repeated key keeps its first place.
use governed_agent_platform.Prelude.Tests.{if◌then◌else◌, Bool-cases}
use governed_agent_platform.Prelude.Lists.{All}
use mathlib.Core.Logic.{inl, inr}
use governed_agent_platform.Prelude.Equality.{Eq, ◌==◌, eq_self}
use mathlib.Core.Path.{◌≡◌, refl}
use mathlib.Core.Bool.{Bool, true, false, ◌||◌}
use mathlib.Core.Option.{Option, none, some}
use mathlib.Core.List.{List, [], ◌∷◌}
use native.Mathlib.Omega.{arith}

abbrev pub Dict {ℓ κ} : Type ℓ → Type κ → Type (ℓ ⊔ κ)
Dict K V = List (K × V)

-- `k in ks`
member {ℓ} : {K : Type ℓ} ⦃e : Eq K⦄ → K → List K → Bool
member j [] = false
member j (k ∷ ks) = k == j || member j ks

module _ {ℓ κ} {K : Type ℓ} {V : Type κ} ⦃e : Eq K⦄ where
  -- `d.get(k)`
  unfoldable pub lookup : K → Dict K V → Option V
  lookup k [] = none
  lookup k ((j, v) ∷ d) = if j == k then some v else lookup k d

  -- `d[k] = v`
  unfoldable pub insert : K → V → Dict K V → Dict K V
  insert k v [] = (k, v) ∷ []
  insert k v ((j, w) ∷ d) = if j == k then (j, v) ∷ d else (j, w) ∷ insert k v d

  -- `d.pop(k, None)`, on every entry with the key
  unfoldable pub remove : K → Dict K V → Dict K V
  remove k [] = []
  remove k ((j, w) ∷ d) = let rest = remove k d in if j == k then rest else (j, w) ∷ rest

  -- `d.keys()` filtered by a test on the values
  unfoldable pub keys_where : (V → Bool) → Dict K V → List K
  keys_where p [] = []
  keys_where p ((k, v) ∷ d) = let rest = keys_where p d in if p v then k ∷ rest else rest

  -- `for k in ks: d.pop(k, None)`
  unfoldable pub remove_all : List K → Dict K V → Dict K V
  unfolding remove
  remove_all [] d = d
  remove_all (k ∷ ks) d = remove_all ks (remove k d)

  -- No key stands twice, as in every Python dictionary.
  abbrev pub IsDict : Dict K V → Type κ
  IsDict [] = Unit
  IsDict ((k, v) ∷ d) = (lookup k d ≡ none) × IsDict d

  pub lookup-insert :
      (k j : K) (v : V) (d : Dict K V)
      → lookup j (insert k v d) ≡ (if k == j then some v else lookup j d)
  unfolding lookup insert
  lookup-insert k j v [] = refl
  lookup-insert k j v ((i, w) ∷ d) =
      ground (arith, e.decides i k, e.decides i j, e.decides k j, lookup-insert k j v d)

  pub lookup-remove :
      (k j : K) (d : Dict K V) → lookup j (remove k d) ≡ (if k == j then none else lookup j d)
  unfolding lookup remove
  lookup-remove k j [] = ground arith
  lookup-remove k j ((i, w) ∷ d) =
      ground (arith, e.decides i k, e.decides i j, e.decides k j, lookup-remove k j d)

  pub lookup-insert_self : (k : K) (v : V) (d : Dict K V) → lookup k (insert k v d) ≡ some v
  lookup-insert_self k v d = simp (lookup-insert, eq_self)

  pub insert-IsDict : (k : K) (v : V) (d : Dict K V) → IsDict d → IsDict (insert k v d)
  unfolding insert lookup
  insert-IsDict k v [] h = (refl, tt)
  insert-IsDict k v ((j, w) ∷ d) h =
      ground (arith, insert-IsDict k v d h.1, lookup-insert k j v d, e.decides j k, e.decides k j)

  pub remove-IsDict : (k : K) (d : Dict K V) → IsDict d → IsDict (remove k d)
  unfolding remove
  remove-IsDict k [] h = h
  remove-IsDict k ((j, w) ∷ d) h =
      ground (arith, remove-IsDict k d h.1, lookup-remove k j d, e.decides j k, e.decides k j)

  lookup-remove_all :
      (j : K) (ks : List K) (d : Dict K V)
      → lookup j (remove_all ks d) ≡ (if member j ks then none else lookup j d)
  unfolding remove_all member
  lookup-remove_all j [] d = refl
  lookup-remove_all j (k ∷ ks) d =
      ground (arith, lookup-remove_all j ks (remove k d), lookup-remove k j d)

  member-keys_where :
      (p : V → Bool) (j : K) (d : Dict K V)
      → IsDict d
      → member j (keys_where p d) ≡ elim (lookup j d) [ none ↦ false | some v ↦ p v ]
  unfolding lookup keys_where member
  member-keys_where p j [] h = refl
  member-keys_where p j ((k, v) ∷ d) h = ground (arith, member-keys_where p j d h.1, e.decides k j)

  -- What removing the keys leaves whose values pass the test.
  pub lookup-remove_keys_where :
      (p : V → Bool) (j : K) (d : Dict K V)
      → IsDict d
      → lookup j (remove_all (keys_where p d) d)
        ≡ elim (lookup j d) [ none ↦ none | some v ↦ if p v then none else some v ]
  lookup-remove_keys_where p j d h =
      ground (arith, lookup-remove_all j (keys_where p d) d, member-keys_where p j d h)

  pub remove_all-IsDict : (ks : List K) (d : Dict K V) → IsDict d → IsDict (remove_all ks d)
  unfolding remove_all
  remove_all-IsDict [] d h = h
  remove_all-IsDict (k ∷ ks) d h = remove_all-IsDict ks (remove k d) (remove-IsDict k d h)

  -- What holds of each entry, and of the new one, holds of each after an insertion.
  pub All-insert {μ} :
      (P : K × V → Type μ) (k : K) (v : V) (d : Dict K V)
      → ((j : K) → (j == k) ≡ true → P (j, v))
      → All P d
      → All P (insert k v d)
  unfolding insert
  All-insert P k v [] p h = (p k (eq_self k), tt)
  All-insert P k v ((j, w) ∷ d) p h = elim (Bool-cases (j == k)) [
    | inl same ↦ rw same (p j same, h.1)
    | inr differs ↦ rw differs (h.0, All-insert P k v d p h.1)
  ]
