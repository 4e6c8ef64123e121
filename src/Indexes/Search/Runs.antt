-- ===== src/Indexes/Search/Runs.antt =====
-- An index of one column with two numbers and a null.
use sqlite_mem.Prelude.{ℕ, codes, text_eq, false, none, some, [], ◌∷◌, ◌≡◌, refl, arith}
use sqlite_mem.Prelude.Int.{pos}
use sqlite_mem.Errors.{Result, ok, err}
use sqlite_mem.Types.Value.{SqlValue, null, integer, real, finite}
use sqlite_mem.Types.Evens.{evens, evens-IsOrdered}
use sqlite_mem.Indexes.Keys.{nat_text}
use sqlite_mem.Indexes.{IndexStore, new_index, insert}
use sqlite_mem.Indexes.Search.{
  above, at_least, between, ordered_keys, collect, passes, range_lookup,
}
use sqlite_mem.Indexes.Search.Lookup.{range_lookup-scan}

abbrev stored : IndexStore ℕ → Result (IndexStore ℕ) → IndexStore ℕ
stored old (ok s) = s
stored old (err e) = old

abbrev put : SqlValue ℕ → ℕ → IndexStore ℕ → IndexStore ℕ
put v id s = stored s (insert nat_text (v ∷ []) (pos id) false s)

abbrev prices : IndexStore ℕ
prices =
    put (integer (pos 4)) 3 (put null 2 (put (integer (pos 10)) 1 (new_index (codes "prices"))))

above_five : range_lookup evens.doubles above (integer (pos 6)) none prices ≡ pos 1 ∷ []
unfolding range_lookup insert text_eq
above_five = refl

from_four : range_lookup evens.doubles at_least (integer (pos 4)) none prices ≡ pos 3 ∷ pos 1 ∷ []
unfolding range_lookup insert text_eq
from_four = refl

range_lookup-scan_example :
    range_lookup evens.doubles between (integer (pos 4)) (some (real (finite 3))) prices
    ≡ collect
        (passes evens.doubles between (integer (pos 4)) (some (real (finite 3))) prices.key_values)
        prices.entries
        (ordered_keys evens.doubles prices)
unfolding range_lookup insert text_eq
range_lookup-scan_example =
    range_lookup-scan evens.doubles evens-IsOrdered between (integer (pos 4))
      (some (real (finite 3))) prices tt tt
      (
        (integer (pos 10) ∷ [], refl, tt),
        ((null ∷ [], refl, tt), ((integer (pos 4) ∷ [], refl, tt), tt)),
      )
      refl (omega arith)
