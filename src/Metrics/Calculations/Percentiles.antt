-- ===== src/Metrics/Calculations/Percentiles.antt =====
-- The order of percentiles: backend/app/metrics/calculations.py.
use meshtastic_lab.Base.{
  ℕ, zero, suc, ◌+◌, ◌-◌, ◌*◌, ◌/◌, ◌%◌, ◌≤◌, ◌<◌, ◌≡◌, refl, inl, inr, false, List, [], ◌∷◌, arith,
  ltb, leb, ◌==◌, length, All, Bool-cases, ap,
}
use meshtastic_lab.Metrics.Calculations.{
  insert_sorted, sorted, at_index, interpolate, Percentile, no_value, bad_proportion, value,
  percentile_ordered,
}

-- Every element is at most those behind it.
abbrev pub IsSorted : List ℕ → Type 0
IsSorted [] = Unit
IsSorted (x ∷ xs) = All (λ (y : ℕ). x ≤ y) xs × IsSorted xs

AreAbove-insert :
    (n x : ℕ) (xs : List ℕ)
    → n ≤ x
    → All (λ (y : ℕ). n ≤ y) xs
    → All (λ (y : ℕ). n ≤ y) (insert_sorted x xs)
unfolding insert_sorted
AreAbove-insert n x [] h a = (h, tt)
AreAbove-insert n x (y ∷ ys) h a = ground (arith, AreAbove-insert n x ys)

AreAbove-trans :
    (n x : ℕ) (xs : List ℕ) → n ≤ x → All (λ (y : ℕ). x ≤ y) xs → All (λ (y : ℕ). n ≤ y) xs
AreAbove-trans n x [] h a = tt
AreAbove-trans n x (y ∷ ys) h a = (omega (arith, a.0), AreAbove-trans n x ys h a.1)

insert_sorted-IsSorted : (x : ℕ) (xs : List ℕ) → IsSorted xs → IsSorted (insert_sorted x xs)
unfolding insert_sorted
insert_sorted-IsSorted x [] h = (tt, tt)
insert_sorted-IsSorted x (y ∷ ys) h = elim (Bool-cases (leb x y)) [
  | inl e ↦ let le : x ≤ y = ground arith in rw e ((le, AreAbove-trans x y ys le h.0), h)
  | inr e ↦ rw e (AreAbove-insert y x ys (ground arith) h.0, insert_sorted-IsSorted x ys h.1)
]

pub sorted-IsSorted : (xs : List ℕ) → IsSorted (sorted xs)
unfolding sorted
sorted-IsSorted [] = tt
sorted-IsSorted (x ∷ xs) = insert_sorted-IsSorted x (sorted xs) (sorted-IsSorted xs)

length-insert_sorted : (x : ℕ) (xs : List ℕ) → length (insert_sorted x xs) ≡ suc (length xs)
unfolding insert_sorted
length-insert_sorted x [] = refl
length-insert_sorted x (y ∷ ys) = ground (arith, length-insert_sorted x ys)

pub length-sorted : (xs : List ℕ) → length (sorted xs) ≡ length xs
unfolding sorted
length-sorted [] = refl
length-sorted (x ∷ xs) = omega (arith, length-insert_sorted x (sorted xs), length-sorted xs)

AreAbove-at_index :
    (x n : ℕ) (xs : List ℕ) → n < length xs → All (λ (y : ℕ). x ≤ y) xs → x ≤ at_index n xs
unfolding at_index
AreAbove-at_index x n [] h a = absurd (omega arith)
AreAbove-at_index x zero (y ∷ ys) h a = a.0
AreAbove-at_index x (suc n) (y ∷ ys) h a = AreAbove-at_index x n ys (omega arith) a.1

at_index_next :
    (n : ℕ) (xs : List ℕ) → suc n < length xs → IsSorted xs → at_index n xs ≤ at_index (suc n) xs
unfolding at_index
at_index_next n [] h s = absurd (omega arith)
at_index_next zero (x ∷ xs) h s = AreAbove-at_index x zero xs (omega arith) s.0
at_index_next (suc n) (x ∷ xs) h s = at_index_next n xs (omega arith) s.1

-- On a stretch from `a` to `b`, in hundredths.
stretch_le : (a b r : ℕ) → a ≤ b → r < 100 → a * 100 + (b - a) * r ≤ b * 100
stretch_le a b r h k = grind arith

interpolate-lem :
    (k r : ℕ) (xs : List ℕ)
    → r < 100
    → interpolate (k * 100 + r) xs ≡ at_index k xs * 100 + (at_index (suc k) xs - at_index k xs) * r
unfolding interpolate
interpolate-lem k zero xs h =
    let low : (k * 100 + 0) / 100 ≡ k = omega arith in
    let high : (k * 100 + 0 + 99) / 100 ≡ k = omega arith in rw (low, high) (ground arith)
interpolate-lem k (suc r) xs h =
    let low : (k * 100 + suc r) / 100 ≡ k = omega arith in
    let high : (k * 100 + suc r + 99) / 100 ≡ suc k = omega arith in
    let rest : (k * 100 + suc r) % 100 ≡ suc r = omega arith in rw (low, high, rest) (ground arith)

at_index_mono :
    (d n : ℕ) (xs : List ℕ) → d + n < length xs → IsSorted xs → at_index n xs ≤ at_index (d + n) xs
at_index_mono zero n xs h s = let e : zero + n ≡ n = omega arith in rw e (omega arith)
at_index_mono (suc d) n xs h s =
    let e : suc d + n ≡ suc (d + n) = omega arith in
    rw e (
      omega (arith, at_index_mono d n xs (omega arith) s, at_index_next (d + n) xs (omega arith) s))

within_stretch : (a b r t : ℕ) → r ≤ t → a * 100 + (b - a) * r ≤ a * 100 + (b - a) * t
within_stretch a b r t h = grind arith

-- From one stretch to a later one.
later_stretch :
    (k r d t : ℕ) (xs : List ℕ)
    → r < 100
    → t < 100
    → suc d + k < length xs
    → IsSorted xs
    → interpolate (k * 100 + r) xs ≤ interpolate ((suc d + k) * 100 + t) xs
later_stretch k r d t xs small_r small_t within s =
    let first = interpolate-lem k r xs small_r in
    let second = interpolate-lem (suc d + k) t xs small_t in
    let step = at_index_next k xs (omega arith) s in
    let on = at_index_mono d (suc k) xs (omega arith) s in
    let same : d + suc k ≡ suc d + k = omega arith in
    let reached : at_index (suc k) xs ≤ at_index (suc d + k) xs = rw same at on in
    rw (first, second)
      (omega (arith, stretch_le (at_index k xs) (at_index (suc k) xs) r step small_r, reached))

interpolate_mono :
    (p q : ℕ) (xs : List ℕ)
    → p ≤ q
    → q / 100 < length xs
    → IsSorted xs
    → interpolate p xs ≤ interpolate q xs
interpolate_mono p q xs h within s =
    let split_p : p ≡ (p / 100) * 100 + p % 100 = omega arith in
    let split_q : q ≡ (q / 100) * 100 + q % 100 = omega arith in
    elim (Bool-cases (p / 100 == q / 100)) [
      | inl same ↦
          let e : q / 100 ≡ p / 100 = ground arith in
          let split : q ≡ (p / 100) * 100 + q % 100 = omega arith in
          let at_p : interpolate p xs ≡ interpolate ((p / 100) * 100 + p % 100) xs =
            ap (λ x. interpolate x xs) split_p in
          let at_q : interpolate q xs ≡ interpolate ((p / 100) * 100 + q % 100) xs =
            ap (λ x. interpolate x xs) split in
          omega (
            arith,
            at_p,
            at_q,
            interpolate-lem (p / 100) (p % 100) xs (omega arith),
            interpolate-lem (p / 100) (q % 100) xs (omega arith),
            within_stretch (at_index (p / 100) xs) (at_index (suc (p / 100)) xs) (p % 100) (q % 100)
                (omega arith),
          )
      | inr other ↦
          let differ : (p / 100 ≡ q / 100) → ⊥ = λ e. ground arith in
          let d : ℕ = q / 100 - p / 100 - 1 in
          let e : q / 100 ≡ suc d + p / 100 = ground arith in
          let split : q ≡ (suc d + p / 100) * 100 + q % 100 = omega arith in
          let at_p : interpolate p xs ≡ interpolate ((p / 100) * 100 + p % 100) xs =
            ap (λ x. interpolate x xs) split_p in
          let at_q : interpolate q xs ≡ interpolate ((suc d + p / 100) * 100 + q % 100) xs =
            ap (λ x. interpolate x xs) split in
          omega (
            arith,
            at_p,
            at_q,
            later_stretch (p / 100) (p % 100) d (q % 100) xs (omega arith) (omega arith)
                (omega arith) s,
          )
    ]

-- A value of the sample that lies within it.
abbrev pub value_of : Percentile → ℕ
value_of no_value = 0
value_of bad_proportion = 0
value_of (value v) = v

-- A percentile that is asked of enough samples, at least one, is a value.
abbrev pub IsValue : Percentile → Type 0
IsValue no_value = ⊥
IsValue bad_proportion = ⊥
IsValue (value v) = Unit

module _ (values : List ℕ) (p q : ℕ) where
  -- Of a sample that is not empty, the percentiles at two proportions of at most one are values,
  -- and the higher proportion gives the higher value or the same one.
  pub percentile_mono :
      1 ≤ length values
      → p ≤ q
      → q ≤ 100
      → IsValue (percentile_ordered (sorted values) p 1)
        × IsValue (percentile_ordered (sorted values) q 1)
        × (value_of (percentile_ordered (sorted values) p 1)
            ≤ value_of (percentile_ordered (sorted values) q 1))
  unfolding percentile_ordered
  percentile_mono some_values le top =
      let size = length-sorted values in
      let enough : ltb (length (sorted values)) 1 ≡ false = ground (arith, size) in
      let good_p : ltb 100 p ≡ false = ground arith in
      let good_q : ltb 100 q ≡ false = ground arith in
      elim (Bool-cases (length (sorted values) == 1)) [
        | inl one ↦ rw (enough, good_p, good_q, one) (tt, tt, omega arith)
        | inr many ↦
            rw (enough, good_p, good_q, many)
              (
                tt,
                tt,
                interpolate_mono ((length (sorted values) - 1) * p)
                    ((length (sorted values) - 1) * q) (sorted values) (grind arith)
                    (position_lt (length (sorted values)) q (omega (arith, size)) top)
                    (sorted-IsSorted values),
              )
      ]
    where
      position_lt : (n q : ℕ) → 1 ≤ n → q ≤ 100 → (n - 1) * q / 100 < n
      position_lt n q h k = grind arith
