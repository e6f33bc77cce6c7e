-- ===== src/Tree/State/Front.antt =====
-- What the writers and the readers of the write buffer see of the tree, and the methods that leave it
-- alone.
use gravtree.Prelude.{ℕ, Bool, true, false, Option, none, some, ◌≡◌, refl, ◌∙◌}
use gravtree.SkipList.{SkipList}
use gravtree.Tree.State.{Tree, Outcome, returned, thrown, diverged, Action, go_on, ◌>>=◌}

-- the members that are not behind `cache_mu_`
pub record Front : Type 0 where
  pub buffer_threshold : ℕ
  pub hard_limit : ℕ
  pub write_buf : SkipList
  pub seq : ℕ
  pub flush_requested : Bool
  pub flush_in_progress : Bool
  pub stop : Bool

abbrev pub front : Tree → Front
front t = record {
  buffer_threshold = t.buffer_threshold;
  hard_limit = t.hard_limit;
  write_buf = t.write_buf;
  seq = t.seq;
  flush_requested = t.flush_requested;
  flush_in_progress = t.flush_in_progress;
  stop = t.stop;
}

abbrev pub Keeps {ℓ} : {A : Type ℓ} → Action A → Type 0
Keeps m = (t : Tree) → front (m t).1 ≡ front t

module _ {ℓ κ} {A : Type ℓ} {B : Type κ} where
  go_on-front :
      (f : A → Action B)
      → ((a : A) → Keeps (f a))
      → (o : Outcome A) (t : Tree) → front (go_on f o t).1 ≡ front t
  go_on-front f h (returned a) t = h a t
  go_on-front f h (thrown e) t = refl
  go_on-front f h diverged t = refl

  pub Keeps-bind :
      (m : Action A) (f : A → Action B) → Keeps m → ((a : A) → Keeps (f a)) → Keeps (m >>= f)
  Keeps-bind m f h k t = go_on-front f k (m t).0 (m t).1 ∙ h t

module _ {ℓ} {A : Type ℓ} where
  pub Keeps-if :
      (b : Bool) (x y : Action A)
      → Keeps x
      → Keeps y
      → Keeps (elim b as (λ _. Action A) [ true ↦ x | false ↦ y ])
  Keeps-if true x y h k = h
  Keeps-if false x y h k = k

  pub Keeps-option {κ} :
      {B : Type κ} (o : Option B) (x : Action A) (f : B → Action A)
      → Keeps x
      → ((b : B) → Keeps (f b))
      → Keeps (elim o as (λ _. Action A) [ none ↦ x | some b ↦ f b ])
  Keeps-option none x f h k = h
  Keeps-option (some b) x f h k = k b
