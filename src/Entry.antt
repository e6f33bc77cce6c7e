-- ===== src/Entry.antt =====
-- include/gravtree/types.h: entries, their order, key ranges and the constants.
pub mod Order
pub mod Newest
pub mod Halves
use gravtree.Prelude.{ℕ, Bool, ◌&&◌, ◌||◌, not, ltb, if◌then◌else◌}
use gravtree.Key.{Str, key_lt, key_le, key_eq, is_empty}

abbrev pub invalid_node_id : ℕ
invalid_node_id = 0

abbrev pub max_fanout : ℕ
max_fanout = 16

pub record Entry : Type 0 where
  pub key : Str
  pub value : Str
  pub seq_no : ℕ
  pub deleted : Bool

-- `operator<`: key ascending, then `seq_no` descending
unfoldable pub before : Entry → Entry → Bool
before e o = if not (key_eq e.key o.key) then key_lt e.key o.key else ltb o.seq_no e.seq_no

pub record KeyRange : Type 0 where
  pub min_key : Str
  pub max_key : Str

unfoldable pub contains : KeyRange → Str → Bool
contains r k = key_le r.min_key k && (is_empty r.max_key || key_le k r.max_key)

unfoldable pub range_is_empty : KeyRange → Bool
range_is_empty r = is_empty r.min_key && is_empty r.max_key
