-- ===== src/Tests/MergeTests.antt =====
-- The merge of entry lists at concrete lists.
use sovereign.Prelude.{◌≡◌, refl, List, [], ◌∷◌, arith}
use sovereign.Entry.{CrdtEntry, dot, compare_dots, compare_bytes}
use sovereign.Entry.Order.{compare_dots-eq}
use sovereign.Merge.Defs.{merge_block, insertion_sort_last_entry}
use sovereign.Merge.Find.{find}
use sovereign.Merge.Sorted.{IsSorted}
use sovereign.Merge.Semilattice.{Agree, merge_block_assoc, merge_block_comm}
use sovereign.Merge.Insertion.{insertion_sort-merge_block, Fresh}
use sovereign.Tests.Models.{entry_at}

abbrev ones : List CrdtEntry
ones = entry_at 1 1 ∷ entry_at 1 3 ∷ []

abbrev twos : List CrdtEntry
twos = entry_at 1 2 ∷ entry_at 2 1 ∷ []

abbrev threes : List CrdtEntry
threes = entry_at 1 3 ∷ entry_at 3 1 ∷ []

ones-IsSorted : IsSorted ones
unfolding compare_dots compare_bytes
ones-IsSorted = ((refl, tt), (tt, tt))

twos-IsSorted : IsSorted twos
unfolding compare_dots compare_bytes
twos-IsSorted = ((refl, tt), (tt, tt))

threes-IsSorted : IsSorted threes
unfolding compare_dots compare_bytes
threes-IsSorted = ((refl, tt), (tt, tt))

merge_block_assoc_example :
    (merge_block (merge_block ones twos).merged threes).merged
    ≡ (merge_block ones (merge_block twos threes).merged).merged
merge_block_assoc_example =
    merge_block_assoc ones twos threes ones-IsSorted twos-IsSorted threes-IsSorted

ones-Agree : Agree ones threes
unfolding find
ones-Agree d x y h k = ground (
  arith,
  compare_dots-eq d (dot (entry_at 1 1)),
  compare_dots-eq d (dot (entry_at 3 1)),
  compare_dots-eq d (dot (entry_at 1 3)),
)

merge_block_comm_example : (merge_block ones threes).merged ≡ (merge_block threes ones).merged
merge_block_comm_example = merge_block_comm ones threes ones-IsSorted threes-IsSorted ones-Agree

two-Fresh : Fresh (dot (entry_at 1 2)) ones
unfolding compare_dots compare_bytes
two-Fresh = (λ e. cc, (λ e. cc, tt))

insertion_sort-merge_block_example :
    (insertion_sort_last_entry ones (entry_at 1 2) ≡ (merge_block ones (entry_at 1 2 ∷ [])).merged)
    × IsSorted (insertion_sort_last_entry ones (entry_at 1 2))
insertion_sort-merge_block_example =
    insertion_sort-merge_block ones (entry_at 1 2) ones-IsSorted two-Fresh
