-- ===== src/Models/Scenario/Graph.antt =====
-- What `Scenario.validate_graph` accepts: backend/app/models/scenario.py.
use mathlib.Core.List.{
  Mem, Nodup, Nodup-cons, Nodup-nil, mem-cons, not-mem-nil, mem-cons_self, mem-cons_of_mem,
}
use mathlib.Core.Logic.Or
use mathlib.Core.HLevel.{⊥_prop}
use meshtastic_lab.Base.{
  ◌≡◌, ◌≢◌, ◌↔◌, refl, ◌∙◌, sym, subst, inl, inr, true, false, String, str_eq, eq_iff, List, [],
  ◌∷◌, ◌++◌, map, none, arith, length, is_empty, All, Bool-cases,
}
use meshtastic_lab.Base.Members.{member, member_iff, distinct-length_iff}
use meshtastic_lab.Models.Scenario.{
  Scenario, DirectedLink, Pair, key, texts, pairs, numbers, node_ids, ports, check_links,
  missing_from, missing, validate_graph,
}

-- A link between two different nodes of the scenario.
pub record IsLink (known : List String) (link : DirectedLink) : Type 0 where
  pub not_self : link.from_node ≢ link.to_node
  pub from_known : Mem link.from_node known
  pub to_known : Mem link.to_node known

-- The nodes and links form a complete directed graph, each with its own id and port.
pub record IsGraph (s : Scenario) : Type 0 where
  pub counted : s.node_count ≡ length s.nodes
  pub ids_unique : Nodup (node_ids s)
  pub ports_unique : Nodup (ports s)
  pub links_known : All (IsLink (node_ids s)) s.links
  pub links_unique : Nodup (map key s.links)
  pub complete :
      (a b : String)
      → Mem a (node_ids s)
      → Mem b (node_ids s)
      → a ≢ b
      → Mem (a, b) (map key s.links)

-- The links in the order of the loop, each new after those before it.
abbrev GoodLinks : List String → List Pair → List DirectedLink → Type 0
GoodLinks known seen [] = Unit
GoodLinks known seen (l ∷ ls) =
    IsLink known l × (¬ Mem (key l) seen) × GoodLinks known (key l ∷ seen) ls

check_links-GoodLinks :
    (known : List String) (seen : List Pair) (links : List DirectedLink)
    → check_links known seen links ≡ none
    → GoodLinks known seen links
unfolding check_links
check_links-GoodLinks known seen [] e = tt
check_links-GoodLinks known seen (l ∷ ls) e = (
  record {
    not_self = ground (arith, eq_iff l.from_node l.to_node);
    from_known = (member_iff texts l.from_node known).0 (ground arith);
    to_known = (member_iff texts l.to_node known).0 (ground arith);
  },
  λ m. ground (arith, (member_iff pairs (key l) seen).1 m),
  check_links-GoodLinks known (key l ∷ seen) ls (ground arith),
)

GoodLinks-check_links :
    (known : List String) (seen : List Pair) (links : List DirectedLink)
    → GoodLinks known seen links
    → check_links known seen links ≡ none
unfolding check_links
GoodLinks-check_links known seen [] g = refl
GoodLinks-check_links known seen (l ∷ ls) g =
    let fresh : member pairs (key l) seen ≡ false = elim (Bool-cases (member pairs (key l) seen)) [
      | inl e ↦ absurd (g.1 ((member_iff pairs (key l) seen).0 e))
      | inr e ↦ e
    ] in
    ground (
      arith,
      eq_iff l.from_node l.to_node,
      (member_iff texts l.from_node known).1 g.0.from_known,
      (member_iff texts l.to_node known).1 g.0.to_known,
      fresh,
      GoodLinks-check_links known (key l ∷ seen) ls g.2,
    )

-- A key that was seen before comes no more.
GoodLinks-fresh :
    (known : List String) (seen : List Pair) (ls : List DirectedLink) (k : Pair)
    → GoodLinks known seen ls
    → Mem k seen
    → ¬ Mem k (map key ls)
GoodLinks-fresh known seen [] k g old m = not-mem-nil m
GoodLinks-fresh known seen (l ∷ ls) k g old m =
    Or.elim ⊥_prop (mem-cons.0 m) (λ e. g.1 (subst (λ x. Mem x seen) e old))
      (GoodLinks-fresh known (key l ∷ seen) ls k g.2 (mem-cons_of_mem (key l) old))

GoodLinks-unique :
    (known : List String) (seen : List Pair) (ls : List DirectedLink)
    → GoodLinks known seen ls
    → All (IsLink known) ls × Nodup (map key ls)
GoodLinks-unique known seen [] g = (tt, Nodup-nil)
GoodLinks-unique known seen (l ∷ ls) g =
    let (ends, unique) = GoodLinks-unique known (key l ∷ seen) ls g.2 in
    (
      (g.0, ends),
      Nodup-cons.1 (GoodLinks-fresh known (key l ∷ seen) ls (key l) g.2 mem-cons_self, unique),
    )

unique-GoodLinks :
    (known : List String) (seen : List Pair) (ls : List DirectedLink)
    → All (IsLink known) ls
    → Nodup (map key ls)
    → ((k : Pair) → Mem k seen → ¬ Mem k (map key ls))
    → GoodLinks known seen ls
unique-GoodLinks known seen [] ends unique apart = tt
unique-GoodLinks known seen (l ∷ ls) ends unique apart =
    let (new, rest) = Nodup-cons.0 unique in
    (
      ends.0,
      λ m. apart (key l) m mem-cons_self,
      unique-GoodLinks known (key l ∷ seen) ls ends.1 rest (λ k old m.
          Or.elim ⊥_prop (mem-cons.0 old) (λ e. new (subst (λ x. Mem x (map key ls)) e m))
            (λ h. apart k h (mem-cons_of_mem (key l) m))),
    )

append-empty :
    (xs ys : List Pair) → is_empty (xs ++ ys) ≡ true → (is_empty xs ≡ true) × (is_empty ys ≡ true)
append-empty [] ys h = (refl, h)
append-empty (x ∷ xs) ys h = cc

empty-append :
    (xs ys : List Pair) → is_empty xs ≡ true → is_empty ys ≡ true → is_empty (xs ++ ys) ≡ true
empty-append [] ys h k = k
empty-append (x ∷ xs) ys h k = cc

missing_from-complete :
    (a : String) (keys : List Pair) (ts : List String)
    → is_empty (missing_from a keys ts) ≡ true
    → (b : String) → Mem b ts
    → a ≢ b
    → Mem (a, b) keys
unfolding missing_from
missing_from-complete a keys [] h b m apart = absurd (not-mem-nil m)
missing_from-complete a keys (t ∷ ts) h b m apart = (member_iff pairs (a, b) keys).0 (
    Or.elim (hlevel) (mem-cons.0 m) (λ e. rw e (held (λ p. apart (p ∙ sym e))))
      (λ later.
        (member_iff pairs (a, b) keys).1
          (missing_from-complete a keys ts (ground arith) b later apart)))
  where
    held : a ≢ t → member pairs (a, t) keys ≡ true
    held other = ground (arith, eq_iff a t)

complete-missing_from :
    (a : String) (keys : List Pair) (ts : List String)
    → ((b : String) → Mem b ts → a ≢ b → Mem (a, b) keys)
    → is_empty (missing_from a keys ts) ≡ true
unfolding missing_from
complete-missing_from a keys [] h = refl
complete-missing_from a keys (t ∷ ts) h =
    let rest = complete-missing_from a keys ts (λ b m. h b (mem-cons_of_mem t m)) in
    elim (Bool-cases (str_eq a t)) [
      | inl e ↦ ground (arith, rest)
      | inr e ↦
          let held =
            (member_iff pairs (a, t) keys).1
              (h t mem-cons_self (λ p. ground (arith, (eq_iff a t).1 p))) in
          ground (arith, rest, held)
    ]

missing-complete :
    (ss ts : List String) (keys : List Pair)
    → is_empty (missing ss ts keys) ≡ true
    → (a b : String) → Mem a ss
    → Mem b ts
    → a ≢ b
    → Mem (a, b) keys
unfolding missing
missing-complete [] ts keys h a b m n apart = absurd (not-mem-nil m)
missing-complete (x ∷ xs) ts keys h a b m n apart =
    let (here, there) = append-empty (missing_from x keys ts) (missing xs ts keys) h in
    (member_iff pairs (a, b) keys).0 (
      Or.elim (hlevel) (mem-cons.0 m)
        (λ e. (member_iff pairs (a, b) keys).1 (
          subst (λ z. Mem (z, b) keys) (sym e)
            (missing_from-complete x keys ts here b n (λ p. apart (e ∙ p)))))
        (λ later.
          (member_iff pairs (a, b) keys).1 (missing-complete xs ts keys there a b later n apart)))

complete-missing :
    (ss ts : List String) (keys : List Pair)
    → ((a b : String) → Mem a ss → Mem b ts → a ≢ b → Mem (a, b) keys)
    → is_empty (missing ss ts keys) ≡ true
unfolding missing
complete-missing [] ts keys h = refl
complete-missing (x ∷ xs) ts keys h =
    empty-append (missing_from x keys ts) (missing xs ts keys)
      (complete-missing_from x keys ts (λ b m. h x b mem-cons_self m))
      (complete-missing xs ts keys (λ a b m. h a b (mem-cons_of_mem x m)))

module _ (s : Scenario) where
  validate_graph_sound : validate_graph s ≡ none → IsGraph s
  unfolding validate_graph
  validate_graph_sound e =
      let good = check_links-GoodLinks (node_ids s) [] s.links (ground arith) in
      let (ends, unique) = GoodLinks-unique (node_ids s) [] s.links good in
      record {
        counted = ground arith;
        ids_unique = (distinct-length_iff texts (node_ids s)).0 (ground arith);
        ports_unique = (distinct-length_iff numbers (ports s)).0 (ground arith);
        links_known = ends;
        links_unique = unique;
        complete = missing-complete (node_ids s) (node_ids s) (map key s.links) (ground arith);
      }

  validate_graph_total : IsGraph s → validate_graph s ≡ none
  unfolding validate_graph
  validate_graph_total g = ground (
    arith,
    g.counted,
    (distinct-length_iff texts (node_ids s)).1 g.ids_unique,
    (distinct-length_iff numbers (ports s)).1 g.ports_unique,
    GoodLinks-check_links (node_ids s) [] s.links (
        unique-GoodLinks (node_ids s) [] s.links g.links_known g.links_unique
          (λ k m. absurd (not-mem-nil m))),
    complete-missing (node_ids s) (node_ids s) (map key s.links) g.complete,
  )

  -- A scenario passes validation exactly when its node count is right, ids and ports are unique,
  -- and its links join known nodes and are one for each ordered pair of different nodes.
  pub validate_graph_iff : (validate_graph s ≡ none) ↔ IsGraph s
  validate_graph_iff = (validate_graph_sound, validate_graph_total)
