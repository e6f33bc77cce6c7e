-- ===== src/Tests/OfSkipList.antt =====
-- Runs of the skip list.
use gravtree.Prelude.{ℕ, ◌≡◌, refl, ◌≤◌, [], ◌∷◌, All, arith}
use gravtree.Key.{cmp}
use gravtree.Entry.{before}
use gravtree.Entry.Newest.{newest}
use gravtree.Node.{max_seq, entries_bytes}
use gravtree.Sort
use gravtree.SkipList.{
  SkipList, empty_list, insert, find_key, to_sorted_vector, values_from, find_prev, descend, walk,
  random_height, rise, link, set_next,
}
use gravtree.SkipList.Valid.{IsValid}
use gravtree.SkipList.Valid.Laws.{
  insert-IsValid, to_sorted_vector-insert, find_key-insert, empty_list-IsValid, size_bytes-insert,
}
use gravtree.Tests.Data.{apple, banana, put, tombstone}

-- every fourth number lets a node rise
abbrev pub draws : ℕ → ℕ
draws i = i

abbrev pub one_entry : SkipList
one_entry = insert (empty_list draws) (put banana 1 2)

pub one_entry-IsValid : IsValid one_entry
one_entry-IsValid = insert-IsValid (empty_list draws) (put banana 1 2) (empty_list-IsValid draws)

pub one_entry_runs : to_sorted_vector one_entry ≡ put banana 1 2 ∷ []
unfolding to_sorted_vector values_from insert find_prev descend walk random_height rise link
    set_next
one_entry_runs = refl

-- three entries, two of one key
three_entries_run :
    to_sorted_vector (insert (insert one_entry (put apple 5 3)) (tombstone banana 7))
    ≡ put apple 5 3 ∷ tombstone banana 7 ∷ put banana 1 2 ∷ []
unfolding to_sorted_vector values_from insert find_prev descend walk random_height rise link
    set_next before cmp
three_entries_run = refl

one_entry-seq : All (λ e. e.seq_no ≤ max_seq) (to_sorted_vector one_entry)
one_entry-seq = rw one_entry_runs (omega arith, tt)

to_sorted_vector-insert_example :
    to_sorted_vector (insert one_entry (put apple 5 3))
    ≡ Sort.insert (put apple 5 3) (to_sorted_vector one_entry)
to_sorted_vector-insert_example =
    to_sorted_vector-insert one_entry (put apple 5 3) one_entry-IsValid

find_key-insert_example :
    find_key (insert one_entry (tombstone banana 7)) banana
    ≡ newest banana (tombstone banana 7 ∷ to_sorted_vector one_entry)
find_key-insert_example =
    find_key-insert one_entry (tombstone banana 7) banana one_entry-IsValid (omega arith)
      one_entry-seq

size_bytes-insert_example :
    (insert one_entry (put apple 5 3)).bytes
    ≡ entries_bytes (to_sorted_vector (insert one_entry (put apple 5 3)))
size_bytes-insert_example = size_bytes-insert one_entry (put apple 5 3) one_entry-IsValid counted
  where
    counted : one_entry.bytes ≡ entries_bytes (to_sorted_vector one_entry)
    counted = rw one_entry_runs (unfold insert entries_bytes in refl)
