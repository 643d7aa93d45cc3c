-- ===== src/Models/Scenario/Generated.antt =====
-- The links of `generate_links`: backend/app/models/scenario.py.
use mathlib.Core.List.{Mem, Nodup, Nodup-cons, mem-cons_self, mem-cons_of_mem}
use meshtastic_lab.Base.{
  ℕ, suc, ◌≡◌, refl, ◌∙◌, sym, ap, subst, inl, inr, true, false, ◌||◌, String, str_eq, eq_iff, List,
  [], ◌∷◌, ◌++◌, map, arith, All, All-append, Bool-cases, if◌then◌else◌, ℤ,
}
use meshtastic_lab.Base.Members.{member}
use meshtastic_lab.Models.Scenario.{
  texts, pairs, DirectedLink, TopologyPreset, Pair, pair_eq_iff, key, preset_enables, links_from,
  links_between,
}

member-map_append :
    (k : Pair) (xs ys : List DirectedLink)
    → member pairs k (map key (xs ++ ys))
      ≡ (member pairs k (map key xs) || member pairs k (map key ys))
unfolding member
member-map_append k [] ys = refl
member-map_append k (x ∷ xs) ys = ground (arith, member-map_append k xs ys)

-- The first position of a node in the list.
unfoldable pub index_of : String → List String → ℕ
index_of a [] = 0
index_of a (x ∷ xs) = let rest = index_of a xs in if str_eq x a then 0 else suc rest

-- The link is enabled exactly if the preset says so of its nodes' positions; the hub is the first.
abbrev pub FollowsPreset : TopologyPreset → String → List String → DirectedLink → Type 0
FollowsPreset preset hub ids link =
    link.enabled
    ≡ preset_enables preset hub (index_of link.from_node ids) link.from_node
        (index_of link.to_node ids) link.to_node

abbrev pub Indexed : List String → ℕ → List String → Type 0
Indexed ids i [] = Unit
Indexed ids i (x ∷ xs) = (index_of x ids ≡ i) × Indexed ids (suc i) xs

Indexed-cons :
    (x : String) (ids : List String) (i : ℕ) (xs : List String)
    → ¬ Mem x xs
    → Indexed ids i xs
    → Indexed (x ∷ ids) (suc i) xs
unfolding index_of
Indexed-cons x ids i [] new h = tt
Indexed-cons x ids i (y ∷ ys) new h = (
  elim (Bool-cases (str_eq x y)) [
    | inl e ↦ absurd (new (subst (λ z. Mem z (y ∷ ys)) (sym ((eq_iff x y).0 e)) mem-cons_self))
    | inr e ↦ rw (index_of, e) (ap suc h.0)
  ],
  Indexed-cons x ids (suc i) ys (λ m. new (mem-cons_of_mem y m)) h.1,
)

pub Nodup-Indexed : (ids : List String) → Nodup ids → Indexed ids 0 ids
unfolding index_of
Nodup-Indexed [] unique = tt
Nodup-Indexed (x ∷ xs) unique =
    let (new, rest) = Nodup-cons.0 unique in
    (ground (arith, eq_iff x x), Indexed-cons x xs 0 xs new (Nodup-Indexed xs rest))

module _ (preset : TopologyPreset) (rssi snr : ℤ) (hub : String) (ids : List String) where
  links_from-FollowsPreset :
      (i : ℕ) (source : String) (j : ℕ) (targets : List String)
      → index_of source ids ≡ i
      → Indexed ids j targets
      → All (FollowsPreset preset hub ids) (links_from preset rssi snr hub i source j targets)
  unfolding links_from
  links_from-FollowsPreset i source j [] at h = tt
  links_from-FollowsPreset i source j (t ∷ ts) at h = elim (Bool-cases (str_eq source t)) [
    | inl e ↦ rw (links_from, e) (links_from-FollowsPreset i source (suc j) ts at h.1)
    | inr e ↦
        rw (links_from, e)
          (
            ap (λ k. preset_enables preset hub k source j t) (sym at)
                ∙ ap (λ k. preset_enables preset hub (index_of source ids) source k t) (sym h.0),
            links_from-FollowsPreset i source (suc j) ts at h.1,
          )
  ]

  pub links_between-FollowsPreset :
      (i : ℕ) (sources targets : List String)
      → Indexed ids i sources
      → Indexed ids 0 targets
      → All (FollowsPreset preset hub ids) (links_between preset rssi snr hub i sources targets)
  unfolding links_between
  links_between-FollowsPreset i [] targets h k = tt
  links_between-FollowsPreset i (s ∷ ss) targets h k =
      All-append (FollowsPreset preset hub ids) (links_from preset rssi snr hub i s 0 targets) _
        (links_from-FollowsPreset i s 0 targets h.0 k)
        (links_between-FollowsPreset (suc i) ss targets h.1 k)

  -- A link of the key is in the list.
  links_from_complete :
      (i : ℕ) (source : String) (j : ℕ) (targets : List String) (b : String)
      → member texts b targets ≡ true
      → str_eq source b ≡ false
      → member pairs (source, b) (map key (links_from preset rssi snr hub i source j targets))
        ≡ true
  unfolding links_from member
  links_from_complete i source j [] b m other = cc
  links_from_complete i source j (t ∷ ts) b m other = ground (
    arith,
    eq_iff b t,
    eq_iff source t,
    eq_iff source b,
    pair_eq_iff (source, b) (source, t),
    links_from_complete i source (suc j) ts b,
  )

  pub links_between_complete :
      (i : ℕ) (sources targets : List String) (a b : String)
      → member texts a sources ≡ true
      → member texts b targets ≡ true
      → str_eq a b ≡ false
      → member pairs (a, b) (map key (links_between preset rssi snr hub i sources targets)) ≡ true
  unfolding links_between member
  links_between_complete i [] targets a b m n other = cc
  links_between_complete i (s ∷ ss) targets a b m n other = ground (
    arith,
    eq_iff a s,
    member-map_append (a, b) (links_from preset rssi snr hub i s 0 targets)
        (links_between preset rssi snr hub (suc i) ss targets),
    from_here,
    links_between_complete (suc i) ss targets a b,
  )
    where
      from_here :
          a ≡ s
          → member pairs (a, b) (map key (links_from preset rssi snr hub i s 0 targets)) ≡ true
      from_here e =
          subst
            (λ z.
              member pairs (z, b) (map key (links_from preset rssi snr hub i s 0 targets)) ≡ true)
            (sym e)
            (links_from_complete i s 0 targets b n (subst (λ z. str_eq z b ≡ false) e other))
