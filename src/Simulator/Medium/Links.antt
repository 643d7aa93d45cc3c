-- ===== src/Simulator/Medium/Links.antt =====
-- The link table under `update_link` and `apply_links` of backend/app/simulator/medium.py.
use meshtastic_lab.Base.{
  ◌≡◌, ◌≢◌, refl, inl, inr, ℕ, List, [], ◌∷◌, map, some, arith, Bool-cases, Option-cases, ap, subst,
}
use meshtastic_lab.Metrics.Events.{PacketEvent}
use meshtastic_lab.Models.Scenario.{
  DirectedLink, Pair, key, pair_eq, pair_eq_iff, put_link, put_links, get_link,
}
use meshtastic_lab.Simulator.Medium.{Links, update_link}
use meshtastic_lab.Simulator.Medium.Transmit.{IsKeyed}

get_link-put_link :
    (link : DirectedLink) (m : Links) → get_link (key link) (put_link link m) ≡ some link
unfolding get_link put_link
get_link-put_link link [] = ground (arith, pair_eq_iff (key link) (key link))
get_link-put_link link ((k, l) ∷ m) = ground (arith, get_link-put_link link m)

get_link-put_other :
    (link : DirectedLink) (k : Pair) (m : Links)
    → k ≢ key link
    → get_link k (put_link link m) ≡ get_link k m
unfolding get_link put_link
get_link-put_other link k [] h = ground (arith, pair_eq_iff (key link) k)
get_link-put_other link k ((j, l) ∷ m) h =
    ground (arith, get_link-put_other link k m h, pair_eq_iff j (key link), pair_eq_iff j k)

put_link-IsKeyed : (link : DirectedLink) (m : Links) → IsKeyed m → IsKeyed (put_link link m)
unfolding put_link
put_link-IsKeyed link [] h = (refl, tt)
put_link-IsKeyed link ((k, l) ∷ m) h = elim (Bool-cases (pair_eq k (key link))) [
  | inl e ↦ rw e ((pair_eq_iff k (key link)).0 e, h.1)
  | inr e ↦ rw e (h.0, put_link-IsKeyed link m h.1)
]

put_links-IsKeyed :
    (links : List DirectedLink) (m : Links) → IsKeyed m → IsKeyed (put_links links m)
unfolding put_links
put_links-IsKeyed [] m h = h
put_links-IsKeyed (link ∷ links) m h =
    put_links-IsKeyed links (put_link link m) (put_link-IsKeyed link m h)

put_link-keys :
    (link old : DirectedLink) (m : Links)
    → get_link (key link) m ≡ some old
    → map (λ e. e.0) (put_link link m) ≡ map (λ e. e.0) m
unfolding get_link put_link
put_link-keys link old [] h = cc
put_link-keys link old ((k, l) ∷ m) h = elim (Bool-cases (pair_eq k (key link))) [
  | inl e ↦ rw e refl
  | inr e ↦ rw e (ap (◌∷◌ k) (put_link-keys link old m (ground arith)))
]

-- The table with one link replaced.
pub record IsUpdated (link : DirectedLink) (old new : Links) : Type 0 where
  pub same_keys : map (λ e. e.0) new ≡ map (λ e. e.0) old
  pub keyed : IsKeyed new
  pub written : get_link (key link) new ≡ some link
  pub others : (k : Pair) → k ≢ key link → get_link k new ≡ get_link k old

-- In a table whose entries stand under their links' keys, an update that returns replaces just the
-- link of its key, in its place, and every entry still stands under its link's key.
pub update_link-IsUpdated :
    (now : ℕ) (link : DirectedLink) (old new : Links) (event : PacketEvent)
    → IsKeyed old
    → update_link now link old ≡ some (new, event)
    → IsUpdated link old new
unfolding update_link
update_link-IsUpdated now link old new event keyed h =
    elim (Option-cases (get_link (key link) old)) [
      | inl e ↦ absurd (ground arith)
      | inr (l, e) ↦
          let same : put_link link old ≡ new = ground arith in
          subst (IsUpdated link old) same (record {
            same_keys = put_link-keys link l old e;
            keyed = put_link-IsKeyed link old keyed;
            written = get_link-put_link link old;
            others = λ k other. get_link-put_other link k old other;
          })
    ]
