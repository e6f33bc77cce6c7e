-- ===== src/Tree/State.antt =====
-- The members of a tree, and the methods that change them: an exception leaves what was changed
-- before it, and `diverged` is a loop or a recursion that outlived its fuel.
pub mod Front
use gravtree.Prelude.{ℕ, Bool, true, false, List, ◌≡◌, ap}
use gravtree.Key.{Str}
use gravtree.Result.{Error, Result, ok, err}
use gravtree.Disk.{Disk}
use gravtree.Manifest.{Manifest, next_node_id, register_node, gc}
use gravtree.SkipList.{SkipList}
use gravtree.Entry.{Entry}
use gravtree.Node.{SstNode}
use gravtree.Bloom.Sizing.{Doubles}
use gravtree.File.{create, flush_to_disk}
use gravtree.Manifest.Text.{save}
use gravtree.Tree.Cache.{NodeCache, put}

-- `hard_limit` is what the method of this name computes from the options, with a product of doubles.
pub record Tree : Type 0 where
  pub data_dir : Str
  pub buffer_threshold : ℕ
  pub hard_limit : ℕ
  pub manifest : Manifest
  pub cache : NodeCache
  pub disk : Disk
  pub write_buf : SkipList
  pub seq : ℕ
  pub flush_ops : ℕ
  pub split_ops : ℕ
  pub root_buf_bytes : ℕ
  pub flush_requested : Bool
  pub flush_in_progress : Bool
  pub stop : Bool

pub data Outcome {ℓ} (A : Type ℓ) : Type ℓ where
  returned : A → Outcome A
  thrown : Error → Outcome A
  diverged : Outcome A

abbrev pub Action {ℓ} : Type ℓ → Type ℓ
Action A = Tree → Outcome A × Tree

abbrev go_on {ℓ κ} : {A : Type ℓ} {B : Type κ} → (A → Action B) → Outcome A → Action B
go_on f (returned a) t = f a t
go_on f (thrown e) t = (thrown e, t)
go_on f diverged t = (diverged, t)

infixl 5 ◌>>=◌ ◌>>◌
abbrev pub ◌>>=◌ {ℓ κ} : {A : Type ℓ} {B : Type κ} → Action A → (A → Action B) → Action B
◌>>=◌ m f t = let (o, t') = m t in go_on f o t'

abbrev pub ◌>>◌ {ℓ} : {B : Type ℓ} → Action (Unit {0}) → Action B → Action B
m >> n = m >>= λ _. n

abbrev pub pure {ℓ} : {A : Type ℓ} → A → Action A
pure a t = (returned a, t)

abbrev pub diverge {ℓ} : {A : Type ℓ} → Action A
diverge t = (diverged, t)

abbrev pub gets {ℓ} : {A : Type ℓ} → (Tree → A) → Action A
gets f t = (returned (f t), t)

abbrev pub modify : (Tree → Tree) → Action (Unit {0})
modify f t = (returned tt, f t)

abbrev outcome {ℓ} : {A : Type ℓ} → Result A → Outcome A
outcome (ok a) = returned a
outcome (err e) = thrown e

-- a call that reads the tree and may throw
abbrev pub results {ℓ} : {A : Type ℓ} → (Tree → Result A) → Action A
results f t = (outcome (f t), t)

-- a call that changes the disk
abbrev pub on_disk {ℓ} : {A : Type ℓ} → (Tree → A × Disk) → Action A
on_disk f t = let (a, d) = f t in (returned a, record t { disk = d })

abbrev pub on_manifest : (Manifest → Manifest) → Action (Unit {0})
on_manifest f = modify (λ t. record t { manifest = f t.manifest })

abbrev pub new_id : Action ℕ
new_id t = let (id, m) = next_node_id t.manifest in (returned id, record t { manifest = m })

-- `manifest_->save();`
abbrev pub save_manifest : Action (Unit {0})
save_manifest = modify (λ t. record t { disk = save t.manifest t.disk })

-- `manifest_->gc();`
abbrev pub collect : Action (Unit {0})
collect t = let (m, d) = gc t.manifest t.disk in (returned tt, record t { manifest = m; disk = d })

-- `cache_[id] = std::move(node);`, and the changes through a reference into the cache
abbrev pub put_node : ℕ → SstNode → Action (Unit {0})
put_node id node = modify (λ t. record t { cache = put id node t.cache })

module _ {ℓ κ} {A : Type ℓ} {B : Type κ} where
  -- What a block does behind a call that returns.
  pub bind-returned :
      (m : Action A) (f : A → Action B) (t t' : Tree) (a : A)
      → m t ≡ (returned a, t')
      → (m >>= f) t ≡ f a t'
  bind-returned m f t t' a h = ap (λ (p : Outcome A × Tree). go_on f p.0 p.1) h

module _ {ℓ} {A : Type ℓ} where
  pub elim-true :
      (b : Bool) (x y : Action A) (t : Tree)
      → b ≡ true
      → (elim b as (λ _. Action A) [ true ↦ x | false ↦ y ]) t ≡ x t
  elim-true b x y t h = ap (λ (b : Bool). (elim b as (λ _. Action A) [ true ↦ x | false ↦ y ]) t) h

  pub elim-false :
      (b : Bool) (x y : Action A) (t : Tree)
      → b ≡ false
      → (elim b as (λ _. Action A) [ true ↦ x | false ↦ y ]) t ≡ y t
  elim-false b x y t h = ap (λ (b : Bool). (elim b as (λ _. Action A) [ true ↦ x | false ↦ y ]) t) h

module _ ⦃fl : Doubles⦄ where
  abbrev pub create_node : ℕ → ℕ → List Entry → List ℕ → Action SstNode
  create_node id level entries children =
      on_disk (λ t. create id level entries children t.data_dir t.disk)

  -- `flush_to_disk` and `register_node` of a node
  abbrev pub persist : SstNode → Action SstNode
  persist node = do
    node' ← on_disk (λ t. flush_to_disk t.data_dir node t.disk)
    on_manifest (register_node node'.id node'.level node'.file_path)
    pure node'
