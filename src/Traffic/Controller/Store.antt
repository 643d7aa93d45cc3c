-- ===== src/Traffic/Controller/Store.antt =====
-- Sums over the message objects, and what a write to one of them does to a sum:
-- backend/app/traffic/controller.py.
use meshtastic_lab.Base.{
  ℕ, ◌+◌, ◌≡◌, refl, Bool, true, false, List, [], ◌∷◌, ◌++◌, none, arith, ◌==◌, ==_iff, ◌⊎◌, length,
  All, Bool-cases, inl, inr, subst, some, ap,
}
use meshtastic_lab.Traffic.Model.{GeneratedMessage}
use meshtastic_lab.Traffic.Controller.{find_message, store_message}

abbrev pub sum_of : (GeneratedMessage → ℕ) → List GeneratedMessage → ℕ
sum_of weight [] = 0
sum_of weight (m ∷ ms) = weight m + sum_of weight ms

abbrev pub bit : Bool → ℕ
bit true = 1
bit false = 0

pub sum_of-append :
    (weight : GeneratedMessage → ℕ) (ms ks : List GeneratedMessage)
    → sum_of weight (ms ++ ks) ≡ sum_of weight ms + sum_of weight ks
sum_of-append weight [] ks = omega arith
sum_of-append weight (m ∷ ms) ks = omega (arith, sum_of-append weight ms ks)

pub length-store_message :
    (m : GeneratedMessage) (ms : List GeneratedMessage) → length (store_message m ms) ≡ length ms
unfolding store_message
length-store_message m [] = refl
length-store_message m (k ∷ ms) = ground (arith, length-store_message m ms)

same_of_some : (k m : GeneratedMessage) → some k ≡ some m → k ≡ m
same_of_some k m h = cc

module _ (n : ℕ) (m : GeneratedMessage) where
  found_where :
      (k : GeneratedMessage) (ms : List GeneratedMessage)
      → find_message n (k ∷ ms) ≡ some m
      → ((k.sequence ≡ n) × (k ≡ m)) ⊎ (((k.sequence == n) ≡ false) × (find_message n ms ≡ some m))
  unfolding find_message
  found_where k ms h = elim (Bool-cases (k.sequence == n)) [
    | inl e ↦ inl ((==_iff k.sequence n).0 e, same_of_some k m (rw e at h))
    | inr e ↦ inr (e, rw e at h)
  ]

  pub sequence-find_message :
      (ms : List GeneratedMessage) → find_message n ms ≡ some m → m.sequence ≡ n
  unfolding find_message
  sequence-find_message [] h = cc
  sequence-find_message (k ∷ ms) h = elim (found_where k ms h) [
    | inl (e, same) ↦ subst (λ (x : GeneratedMessage). x.sequence ≡ n) same e
    | inr (e, later) ↦ sequence-find_message ms later
  ]

  pub All-find_message {ℓ} :
      (P : GeneratedMessage → Type ℓ) (ms : List GeneratedMessage)
      → find_message n ms ≡ some m
      → All P ms
      → P m
  unfolding find_message
  All-find_message P [] h a = absurd (none_some h)
    where
      none_some : none ≡ some m → ⊥
      none_some e = cc
  All-find_message P (k ∷ ms) h a = elim (found_where k ms h) [
    | inl (e, same) ↦ subst P same a.0
    | inr (e, later) ↦ All-find_message P ms later a.1
  ]

  -- A write moves each sum by what the message's own weight moves.
  pub sum_of-store_message :
      (weight : GeneratedMessage → ℕ) (k : GeneratedMessage) (ms : List GeneratedMessage)
      → find_message n ms ≡ some m
      → k.sequence ≡ n
      → sum_of weight (store_message k ms) + weight m ≡ sum_of weight ms + weight k
  unfolding find_message store_message
  sum_of-store_message weight k [] h e = cc
  sum_of-store_message weight k (x ∷ ms) h e = elim (found_where x ms h) [
    | inl (here, same) ↦
        let hit : (x.sequence == k.sequence) ≡ true = ground arith in
        rw hit (omega (arith, ap weight same))
    | inr (miss, later) ↦
        let miss' : (x.sequence == k.sequence) ≡ false = ground arith in
        rw miss' (omega (arith, sum_of-store_message weight k ms later e))
  ]

pub All-store_message {ℓ} :
    (P : GeneratedMessage → Type ℓ) (k : GeneratedMessage) (ms : List GeneratedMessage)
    → P k
    → All P ms
    → All P (store_message k ms)
unfolding store_message
All-store_message P k [] p a = tt
All-store_message P k (x ∷ ms) p a = elim (Bool-cases (x.sequence == k.sequence)) [
  | inl e ↦ rw e (p, a.1)
  | inr e ↦ rw e (a.0, All-store_message P k ms p a.1)
]

-- Behind a write, a message is found that was found before or the one written.
pub find_message-store_message :
    (n : ℕ) (k : GeneratedMessage) (ms : List GeneratedMessage)
    → (find_message n (store_message k ms) ≡ find_message n ms)
      ⊎ (find_message n (store_message k ms) ≡ some k)
unfolding find_message store_message
find_message-store_message n k [] = inl refl
find_message-store_message n k (x ∷ ms) = elim (Bool-cases (x.sequence == k.sequence)) [
  | inl same ↦ elim (Bool-cases (k.sequence == n)) [
    | inl here ↦ inr (ground arith)
    | inr past ↦ inl (ground arith)
  ]
  | inr other ↦ elim (Bool-cases (x.sequence == n)) [
    | inl here ↦ inl (ground arith)
    | inr past ↦ rw (other, past) (find_message-store_message n k ms)
  ]
]

pub find_message-store_same :
    (n : ℕ) (m k : GeneratedMessage) (ms : List GeneratedMessage)
    → find_message n ms ≡ some m
    → k.sequence ≡ n
    → find_message n (store_message k ms) ≡ some k
unfolding find_message store_message
find_message-store_same n m k [] h e = cc
find_message-store_same n m k (x ∷ ms) h e = elim (Bool-cases (x.sequence == k.sequence)) [
  | inl same ↦ ground arith
  | inr other ↦ ground (arith, find_message-store_same n m k ms)
]

pub find_message-store_other :
    (n : ℕ) (k : GeneratedMessage) (ms : List GeneratedMessage)
    → (k.sequence == n) ≡ false
    → find_message n (store_message k ms) ≡ find_message n ms
unfolding find_message store_message
find_message-store_other n k [] h = refl
find_message-store_other n k (x ∷ ms) h = ground (arith, find_message-store_other n k ms h)
