-- ===== src/Tests/Data.antt =====
-- Entries and nodes for the runs.
use gravtree.Prelude.{ℕ, true, false, List, [], ◌∷◌, ◌/◌, ◌+◌, ◌*◌}
use gravtree.Key.{Str}
use gravtree.Entry.{Entry}
use gravtree.Node.{SstNode, blank}
use gravtree.Bloom.Sizing.{Doubles}

abbrev pub apple : Str
apple = b'a' ∷ b'p' ∷ []

abbrev pub banana : Str
banana = b'b' ∷ []

abbrev pub cherry : Str
cherry = b'c' ∷ b'h' ∷ []

abbrev pub put : Str → ℕ → ℕ → Entry
put k v seq = record { key = k; value = v ∷ []; seq_no = seq; deleted = false }

abbrev pub tombstone : Str → ℕ → Entry
tombstone k seq = record { key = k; value = []; seq_no = seq; deleted = true }

-- unsorted, with an old version behind a new one and before it
abbrev pub mixed : List Entry
mixed = put banana 1 2 ∷ put apple 2 3 ∷ tombstone apple 7 ∷ put banana 3 1 ∷ []

abbrev pub sorted_a : List Entry
sorted_a = tombstone apple 7 ∷ put apple 2 3 ∷ put banana 1 2 ∷ []

abbrev pub sorted_b : List Entry
sorted_b = put apple 4 5 ∷ put cherry 9 4 ∷ []

abbrev pub leaf : ℕ → Str → List Entry → SstNode
leaf id min es = record (blank id 0) {
  key_range = record { min_key = min; max_key = [] };
  buffer = es;
  entries_loaded = true;
}

abbrev pub two_children : List SstNode
two_children = leaf 2 apple sorted_a ∷ leaf 3 cherry (put cherry 9 4 ∷ []) ∷ []

-- Natural numbers in the place of doubles.
instance abbrev pub whole_numbers : Doubles
whole_numbers = record {
  Double = ℕ;
  of_size = λ n. n;
  neg = λ n. n;
  plus = λ a b. a + b;
  times = λ a b. a * b;
  over = λ a b. a / b;
  log = λ n. 1;
  truncate = λ n. n;
  two = 2;
  half = 1;
  one_percent = 1;
}
