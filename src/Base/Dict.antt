-- ===== src/Base/Dict.antt =====
-- Python dictionaries and counters as association lists, in insertion order.
use meshtastic_lab.Base.Tests.{if◌then◌else◌, Bool-cases}
use meshtastic_lab.Base.Members.{Equality}
use mathlib.Core.Bool.{false}
use Prim.Native.Nat.{ℕ, ◌+◌}
use mathlib.Core.Path.{◌≡◌, refl}
use mathlib.Core.Logic.{◌⊎◌, inl, inr}
use mathlib.Core.Option.{Option, none, some}
use mathlib.Core.List.{List, [], ◌∷◌}
use native.Mathlib.Omega.{arith}

module _ {ℓ κ} {K : Type ℓ} {V : Type κ} (q : Equality K) where
  -- `d.get(k)`
  unfoldable pub get : K → List (K × V) → Option V
  get k [] = none
  get k ((j, v) ∷ d) = if q.same j k then some v else get k d

  -- `d[k] = v`
  unfoldable pub put : K → V → List (K × V) → List (K × V)
  put k v [] = (k, v) ∷ []
  put k v ((j, w) ∷ d) = if q.same j k then (j, v) ∷ d else (j, w) ∷ put k v d

  -- `d.pop(k, None)`, without the value
  unfoldable pub delete : K → List (K × V) → List (K × V)
  delete k [] = []
  delete k ((j, w) ∷ d) = if q.same j k then d else (j, w) ∷ delete k d

module _ {ℓ} {K : Type ℓ} (q : Equality K) where
  -- A counter: the number of a key, 0 where it is missing.
  unfoldable pub number : K → List (K × ℕ) → ℕ
  number k [] = 0
  number k ((j, n) ∷ d) = if q.same j k then n else number k d

  -- `counter[k] += n`
  unfoldable pub add_to : K → ℕ → List (K × ℕ) → List (K × ℕ)
  add_to k n [] = (k, n) ∷ []
  add_to k n ((j, m) ∷ d) = if q.same j k then (j, m + n) ∷ d else (j, m) ∷ add_to k n d

  -- The sum of all numbers of a counter.
  unfoldable pub total : List (K × ℕ) → ℕ
  total [] = 0
  total ((j, n) ∷ d) = n + total d

-- No key stands twice.
module _ {ℓ κ} {K : Type ℓ} {V : Type κ} (q : Equality K) where
  abbrev pub HasUniqueKeys : List (K × V) → Type κ
  HasUniqueKeys [] = Unit
  HasUniqueKeys ((j, v) ∷ d) = (get q j d ≡ none) × HasUniqueKeys d

  pub get-put :
      (k j : K) (v : V) (d : List (K × V))
      → get q j (put q k v d) ≡ (if q.same k j then some v else get q j d)
  unfolding get put
  get-put k j v [] = refl
  get-put k j v ((i, w) ∷ d) =
      ground (arith, q.same_iff i k, q.same_iff k j, q.same_iff i j, get-put k j v d)

  -- What a dictionary holds behind a write.
  pub get-put_cases :
      (k j : K) (v w : V) (d : List (K × V))
      → get q j (put q k v d) ≡ some w
      → ((k ≡ j) × (w ≡ v)) ⊎ ((q.same k j ≡ false) × (get q j d ≡ some w))
  get-put_cases k j v w d e = elim (Bool-cases (q.same k j)) [
    | inl same ↦ inl ((q.same_iff k j).0 same, ground (arith, get-put k j v d))
    | inr other ↦ inr (other, ground (arith, get-put k j v d))
  ]

  pub get-delete_other :
      (k j : K) (d : List (K × V)) → q.same k j ≡ false → get q j (delete q k d) ≡ get q j d
  unfolding get delete
  get-delete_other k j [] h = refl
  get-delete_other k j ((i, w) ∷ d) h =
      ground (arith, q.same_iff i k, q.same_iff k j, q.same_iff i j, get-delete_other k j d h)

  pub get-delete_self : (k : K) (d : List (K × V)) → HasUniqueKeys d → get q k (delete q k d) ≡ none
  unfolding get delete
  get-delete_self k [] u = refl
  get-delete_self k ((i, w) ∷ d) u = ground (arith, q.same_iff i k, get-delete_self k d u.1)

  pub put-HasUniqueKeys :
      (k : K) (v : V) (d : List (K × V)) → HasUniqueKeys d → HasUniqueKeys (put q k v d)
  unfolding get put
  put-HasUniqueKeys k v [] u = (refl, tt)
  put-HasUniqueKeys k v ((i, w) ∷ d) u =
      ground (arith, q.same_iff i k, q.same_iff k i, get-put k i v d, put-HasUniqueKeys k v d u.1)

  pub delete-HasUniqueKeys :
      (k : K) (d : List (K × V)) → HasUniqueKeys d → HasUniqueKeys (delete q k d)
  unfolding get delete
  delete-HasUniqueKeys k [] u = tt
  delete-HasUniqueKeys k ((i, w) ∷ d) u =
      ground (
        arith,
        q.same_iff i k,
        q.same_iff k i,
        get-delete_other k i d,
        delete-HasUniqueKeys k d u.1,
      )
