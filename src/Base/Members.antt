-- ===== src/Base/Members.antt =====
-- Membership and uniqueness by a Boolean equality, for Python's `in` and `set`.
use Prim.Native.Nat.{◌≤◌}
use mathlib.Core.Path.{◌≡◌, refl}
use mathlib.Core.Logic.{◌↔◌, inl, inr}
use mathlib.Core.Logic.Or
use mathlib.Core.Bool.{Bool, true, false, ◌||◌}
use mathlib.Core.List.{
  List, [], ◌∷◌, ◌++◌, Mem, Nodup, Nodup-cons, Nodup-nil, mem-cons, not-mem-nil, mem-cons_self,
  mem-cons_of_mem,
}
use native.Mathlib.Omega.{arith}
use meshtastic_lab.Base.Tests.{if◌then◌else◌, Bool-cases}
use meshtastic_lab.Base.Lists.{length}

-- A Boolean equality that decides paths.
pub record Equality {ℓ} (A : Type ℓ) : Type ℓ where
  pub same : A → A → Bool
  pub same_iff : (a b : A) → (same a b ≡ true) ↔ (a ≡ b)

module _ {ℓ} {A : Type ℓ} (q : Equality A) where
  unfoldable pub member : A → List A → Bool
  member a [] = false
  member a (x ∷ xs) = q.same a x || member a xs

  -- The elements of `set(xs)`, one for each.
  unfoldable pub distinct : List A → List A
  distinct [] = []
  distinct (x ∷ xs) = let rest = distinct xs in if member x xs then rest else x ∷ rest

module _ {ℓ} {A : Type ℓ} (q : Equality A) where
  bool_true_prop : (b : Bool) → IsProp (b ≡ true)
  bool_true_prop b = hlevel

  member-of_mem : (a : A) (xs : List A) → Mem a xs → member q a xs ≡ true
  unfolding member
  member-of_mem a [] m = absurd (not-mem-nil m)
  member-of_mem a (x ∷ xs) m =
      Or.elim (bool_true_prop _) (mem-cons.0 m) (λ e. rw ((q.same_iff a x).1 e))
        (λ h. ground (arith, member-of_mem a xs h))

  mem-of_member : (a : A) (xs : List A) → member q a xs ≡ true → Mem a xs
  unfolding member
  mem-of_member a [] m = cc
  mem-of_member a (x ∷ xs) m = elim (Bool-cases (q.same a x)) [
    | inl e ↦ rw ((q.same_iff a x).0 e) mem-cons_self
    | inr e ↦ mem-cons_of_mem x (mem-of_member a xs (ground arith))
  ]

  pub member_iff : (a : A) (xs : List A) → (member q a xs ≡ true) ↔ Mem a xs
  member_iff a xs = (mem-of_member a xs, member-of_mem a xs)

  pub member-append :
      (a : A) (xs ys : List A) → member q a (xs ++ ys) ≡ (member q a xs || member q a ys)
  unfolding member
  member-append a [] ys = refl
  member-append a (x ∷ xs) ys = ground (arith, member-append a xs ys)

  length-distinct-le : (xs : List A) → length (distinct q xs) ≤ length xs
  unfolding distinct
  length-distinct-le [] = omega arith
  length-distinct-le (x ∷ xs) = ground (arith, length-distinct-le xs)

  -- `len(xs) == len(set(xs))` exactly when nothing occurs twice.
  pub distinct-length_iff : (xs : List A) → (length xs ≡ length (distinct q xs)) ↔ Nodup xs
  unfolding distinct
  distinct-length_iff [] = (λ _. Nodup-nil, λ _. refl)
  distinct-length_iff (x ∷ xs) =
      let (to, back) = distinct-length_iff xs in
      elim (Bool-cases (member q x xs)) [
        | inl e ↦ (
          λ h. absurd (ground (arith, length-distinct-le xs, h)),
          λ h. absurd ((Nodup-cons.0 h).0 (mem-of_member x xs e)),
        )
        | inr e ↦ (
          λ h. Nodup-cons.1 (λ m. cc (member-of_mem x xs m), to (ground arith)),
          λ h. ground (arith, back (Nodup-cons.0 h).1),
        )
      ]

-- Equality of pairs, part by part.
module _ {ℓ κ} {A : Type ℓ} {B : Type κ} (p : Equality A) (q : Equality B) where
  abbrev pub both_same : A × B → A × B → Bool
  both_same x y = if p.same x.0 y.0 then q.same x.1 y.1 else false

  pub both_same_iff : (x y : A × B) → (both_same x y ≡ true) ↔ (x ≡ y)
  both_same_iff (a, b) (c, d) = ground (arith, p.same_iff a c, q.same_iff b d)

  abbrev pub both : Equality (A × B)
  both = record { same = both_same; same_iff = both_same_iff }
