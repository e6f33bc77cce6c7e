-- ===== src/Tests/OfSorting.antt =====
-- Runs of the sorting, the search and the merge.
use gravtree.Prelude.{◌≡◌, refl, ◌≤◌, [], ◌∷◌, All, arith}
use gravtree.Key.{cmp}
use gravtree.Entry.{before}
use gravtree.Entry.Order.{IsSorted}
use gravtree.Entry.Newest.{newest, newer}
use gravtree.Sort.{stable_sort}
use gravtree.Node.{max_seq, get, sorted_unique, dedup_loop}
use gravtree.Node.Search.{get-newest}
use gravtree.Node.Dedup.{newest-sorted_unique, sorted_unique-IsAscending, IsAscending}
use gravtree.Flush.{merge_sorted_entries}
use gravtree.Flush.Merge.{newest-merge}
use gravtree.Tests.Data.{apple, banana, cherry, put, tombstone, leaf, mixed, sorted_a, sorted_b}

sorted_a-IsSorted : IsSorted sorted_a
unfolding before cmp
sorted_a-IsSorted = ((refl, (refl, tt)), ((refl, tt), (tt, tt)))

sorted_b-IsSorted : IsSorted sorted_b
unfolding before cmp
sorted_b-IsSorted = ((refl, tt), (tt, tt))

sorted_a-seq : All (λ e. e.seq_no ≤ max_seq) sorted_a
sorted_a-seq = (omega arith, (omega arith, (omega arith, tt)))

-- The tombstone of seq_no 7 hides the value of seq_no 3.
sorted_unique_runs : sorted_unique mixed ≡ tombstone apple 7 ∷ put banana 1 2 ∷ []
unfolding sorted_unique dedup_loop stable_sort before cmp
sorted_unique_runs = refl

merge_runs :
    merge_sorted_entries sorted_b (put apple 8 6 ∷ []) ≡ put apple 8 6 ∷ put cherry 9 4 ∷ []
unfolding merge_sorted_entries cmp
merge_runs = refl

newest-merge_example :
    newest apple (merge_sorted_entries sorted_a sorted_b)
    ≡ newer (newest apple sorted_a) (newest apple sorted_b)
newest-merge_example = newest-merge apple sorted_a sorted_b sorted_a-IsSorted sorted_b-IsSorted

get-newest_example : get (leaf 1 apple sorted_a) apple ≡ newest apple sorted_a
get-newest_example = get-newest (leaf 1 apple sorted_a) apple sorted_a-IsSorted sorted_a-seq

newest-sorted_unique_example : newest apple (sorted_unique mixed) ≡ newest apple mixed
newest-sorted_unique_example = newest-sorted_unique apple mixed

sorted_unique-IsAscending_example : IsAscending (sorted_unique mixed)
sorted_unique-IsAscending_example = sorted_unique-IsAscending mixed
