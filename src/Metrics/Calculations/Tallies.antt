-- ===== src/Metrics/Calculations/Tallies.antt =====
-- The sums and counters of backend/app/metrics/calculations.py over a list that grows at its end.
use mathlib.Core.List.{foldl-append}
use meshtastic_lab.Base.{ℕ, ◌+◌, ◌≡◌, String, List, [], ◌∷◌, ◌++◌, some}
use meshtastic_lab.Base.Dict
use meshtastic_lab.Metrics.Calculations.{tally, tally_airtimes, sum}
use meshtastic_lab.Models.Scenario.{texts}

pub sum-append : (xs : List ℕ) (x : ℕ) → sum (xs ++ (x ∷ [])) ≡ sum xs + x
unfolding sum
sum-append xs x = foldl-append (λ n x. n + x) 0 xs (x ∷ [])

pub tally-append :
    (xs : List String) (x : String) → tally (xs ++ (x ∷ [])) ≡ Dict.add_to texts x 1 (tally xs)
unfolding tally
tally-append xs x = foldl-append (λ d x. Dict.add_to texts x 1 d) [] xs (x ∷ [])

pub tally_airtimes-append :
    (d d' : List (String × ℕ)) (xs : List String) (ts : List ℕ) (x : String) (t : ℕ)
    → tally_airtimes d xs ts ≡ some d'
    → tally_airtimes d (xs ++ (x ∷ [])) (ts ++ (t ∷ [])) ≡ some (Dict.add_to texts x t d')
unfolding tally_airtimes
tally_airtimes-append d d' [] [] x t e = cc
tally_airtimes-append d d' [] (s ∷ ts) x t e = cc
tally_airtimes-append d d' (y ∷ xs) [] x t e = cc
tally_airtimes-append d d' (y ∷ xs) (s ∷ ts) x t e =
    tally_airtimes-append (Dict.add_to texts y s d) d' xs ts x t e
