-- ===== src/Tree/Open.antt =====
-- include/gravtree/tree.h and src/tree.cpp: the options, the constructor and `open`.
pub mod Reopened
pub mod Durable
use gravtree.Prelude.{ℕ, false, Option, none, some, []}
use gravtree.Key.{Str}
use gravtree.Disk.{Disk}
use gravtree.Bloom.Sizing.{Doubles}
use gravtree.Manifest.{Manifest, empty_manifest}
use gravtree.Manifest.Text.{load}
use gravtree.SkipList.{empty_list}
use gravtree.Tree.State.{Tree, Outcome}
use gravtree.Tree.Write.{ensure_root}

module _ ⦃fl : Doubles⦄ where
  -- `fanout`, `max_height` and `bloom_fpr` are read by no code.
  pub record GravTreeOptions : Type 0 where
    pub data_dir : Str
    pub buffer_threshold : ℕ
    pub hard_limit_factor : fl.Double
    pub fanout : ℕ
    pub max_height : ℕ
    pub bloom_fpr : fl.Double

  unfoldable pub hard_limit : GravTreeOptions → ℕ
  hard_limit opts = fl.truncate (fl.times (fl.of_size opts.buffer_threshold) opts.hard_limit_factor)

  -- The constructor, with the initial values of the members. `rng` is the random generator of the
  -- write buffer.
  unfoldable pub new_tree : GravTreeOptions → Disk → (ℕ → ℕ) → Tree
  unfolding hard_limit
  new_tree opts disk rng = record {
    data_dir = opts.data_dir;
    buffer_threshold = opts.buffer_threshold;
    hard_limit = hard_limit opts;
    manifest = empty_manifest opts.data_dir;
    cache = [];
    disk = disk;
    write_buf = empty_list rng;
    seq = 1;
    flush_ops = 0;
    split_ops = 0;
    root_buf_bytes = 0;
    flush_requested = false;
    flush_in_progress = false;
    stop = false;
  }

  open_with : Tree → Option Manifest → Option (Outcome (Unit {0}) × Tree)
  open_with t none = none
  open_with t (some m) = some (ensure_root (record t { manifest = m }))

  -- `open` up to the start of the flush thread; `none` is a manifest that `load` reads in a way that
  -- the standard leaves open.
  unfoldable pub open_tree : GravTreeOptions → Disk → (ℕ → ℕ) → Option (Outcome (Unit {0}) × Tree)
  unfolding new_tree open_with
  open_tree opts disk rng =
      open_with (new_tree opts disk rng) (load disk (empty_manifest opts.data_dir))
