-- ===== src/Manifest/Text/RoundTrip.antt =====
-- `load` after `save`.
use mathlib.Core.List.{append_assoc, append-nil}
use gravtree.Prelude.{
  ℕ, ◌+◌, ◌%◌, ◌^◌, ◌<◌, ◌≡◌, ◌≢◌, refl, sym, ap, ◌∙◌, false, some, List, [], ◌∷◌, ◌++◌, ltb, ◌==◌,
  if◌then◌else◌, All, All-append, arith,
}
use gravtree.Key.{Str, key_eq}
use gravtree.Key.Order.{cmp_refl}
use gravtree.Disk.{Disk, rename-store}
use gravtree.Manifest.{Manifest}
use gravtree.Manifest.Table.{NodeTable, NodeMeta, assign}
use gravtree.Manifest.Laws.{KeysBelow, KeysUnique, IsValid}
use gravtree.Manifest.Text.{
  version_word, root_word, next_id_word, numbered, node_line, node_lines, save_text, save,
  manifest_path, tmp_path, lines_from, last_line, Loading, load_line, load_lines, load_text, load,
}
use gravtree.Manifest.Text.Words.{IsLine, lines_from-line}
use gravtree.Manifest.Text.Lines.{
  MetaFits, load_line-node, load_line-version, load_line-root, load_line-next_id, numbered-IsLine,
  node_line-IsLine,
}

-- A manifest that the format can hold: no path has a space in it.
pub record Fits (m : Manifest) : Type 0 where
  pub root : m.root_id < 2 ^ 64
  pub next : m.next_id < 2 ^ 64
  pub nodes : All (λ p. MetaFits p.1) m.nodes

-- A new key goes to the end of the table.
assign-new :
    (id : ℕ) (n : NodeMeta) (t : NodeTable)
    → All (λ p. p.0 ≢ id) t
    → assign id n t ≡ t ++ (id, n) ∷ []
unfolding assign
assign-new id n [] h = refl
assign-new id n ((j, m) ∷ t) h =
    let other : (j == id) ≡ false = ground (arith, h.0) in
    rw other (ap (◌∷◌ (j, m)) (assign-new id n t h.1))

-- No key of the second table is in the first.
abbrev Apart : NodeTable → NodeTable → Type 0
Apart acc t = All (λ p. All (λ q. q.0 ≢ p.0) acc) t

Apart-append :
    (acc t : NodeTable) (id : ℕ) (n : NodeMeta)
    → Apart acc t
    → All (λ q. q.0 ≢ id) t
    → Apart (acc ++ (id, n) ∷ []) t
Apart-append acc [] id n h k = tt
Apart-append acc (p ∷ t) id n h k =
    (All-append _ acc ((id, n) ∷ []) h.0 (λ e. k.0 (sym e), tt), Apart-append acc t id n h.1 k.1)

-- The line of an entry with a new key adds the entry at the end.
load_line-new :
    (id : ℕ) (n : NodeMeta) (m : Manifest) (max_id : ℕ)
    → MetaFits n
    → n.id ≡ id
    → All (λ p. p.0 ≢ id) m.nodes
    → load_line (node_line n) (m, max_id)
      ≡ some
          (record m { nodes = m.nodes ++ (id, n) ∷ [] }, if ltb max_id n.id then n.id else max_id)
load_line-new id n m max_id f e new =
    load_line-node n m max_id f
    ∙ ap
        (λ (t : NodeTable). some (record m { nodes = t }, if ltb max_id n.id then n.id else max_id))
        (ap (λ (j : ℕ). assign j n m.nodes) e ∙ assign-new id n m.nodes new)

greater-lt :
    (max_id id bound : ℕ)
    → max_id < bound
    → id < bound
    → (if ltb max_id id then id else max_id) < bound
greater-lt max_id id bound h k = ground arith

load_lines-cons :
    (line : Str) (rest : List Str) (l l' : Loading)
    → load_line line l ≡ some l'
    → load_lines (line ∷ rest) l ≡ load_lines rest l'
unfolding load_lines
load_lines-cons line rest l l' h = rw h

load_node_lines :
    (t : NodeTable) (m : Manifest) (max_id bound : ℕ)
    → All (λ p. MetaFits p.1) t
    → KeysBelow bound t
    → KeysUnique t
    → Apart m.nodes t
    → max_id < bound
    → (greatest : ℕ) × (load_lines (lines_from [] (node_lines t)) (m, max_id)
        ≡ some (record m { nodes = m.nodes ++ t }, greatest))
      × (greatest < bound)
unfolding node_lines
load_node_lines [] m max_id bound f k u a lt =
    (max_id, unfold lines_from last_line load_lines in rw append-nil, lt)
load_node_lines ((id, n) ∷ t) m max_id bound f k u a lt =
    let greater = if ltb max_id n.id then n.id else max_id in
    let m' : Manifest = record m { nodes = m.nodes ++ (id, n) ∷ [] } in
    let below : greater < bound = greater-lt max_id n.id bound lt (omega (arith, k.0)) in
    let (greatest, rest, fits) =
      load_node_lines t m' greater bound f.1 k.1 u.1 (Apart-append m.nodes t id n a.1 u.0) below in
    (
      greatest,
      ap (λ (ls : List Str). load_lines ls (m, max_id))
            (lines_from-line [] (node_line n) (node_lines t) (node_line-IsLine n f.0))
          ∙ load_lines-cons (node_line n) (lines_from [] (node_lines t)) (m, max_id) (m', greater)
              (load_line-new id n m max_id f.0 k.0.1 a.0)
          ∙ rest
          ∙ ap (λ (nodes : NodeTable). some (record m { nodes = nodes }, greatest))
              (append_assoc m.nodes ((id, n) ∷ []) t),
      fits,
    )

Apart-nil : (t : NodeTable) → Apart [] t
Apart-nil [] = tt
Apart-nil (p ∷ t) = (tt, Apart-nil t)

fixed_words : IsLine version_word × IsLine root_word × IsLine next_id_word
fixed_words = (
  (refl, (refl, (refl, (refl, (refl, (refl, (refl, tt))))))),
  (refl, (refl, (refl, (refl, tt)))),
  (refl, (refl, (refl, (refl, (refl, (refl, (refl, tt))))))),
)

load_save_lines :
    (m : Manifest)
    → IsValid m
    → Fits m
    → (greatest : ℕ) × (load_lines
          (lines_from [] (save_text m))
          (record m { root_id = 0; next_id = 1; nodes = [] }, 0)
        ≡ some (m, greatest))
      × (greatest < m.next_id)
unfolding save_text
load_save_lines m v f =
    let blank : Manifest = record m { root_id = 0; next_id = 1; nodes = [] } in
    let rooted : Manifest = record blank { root_id = m.root_id } in
    let headed : Manifest = record rooted { next_id = m.next_id } in
    let (greatest, rest, fits) =
      load_node_lines m.nodes headed 0 m.next_id f.nodes v.keys v.unique (Apart-nil m.nodes)
        v.positive in
    (
      greatest,
      rw
          (
            lines_from-line [] (numbered version_word 1) _
                (numbered-IsLine version_word 1 fixed_words.0),
            lines_from-line [] (numbered root_word m.root_id) _
                (numbered-IsLine root_word m.root_id fixed_words.1),
            lines_from-line [] (numbered next_id_word m.next_id) _
                (numbered-IsLine next_id_word m.next_id fixed_words.2),
            load_lines-cons (numbered version_word 1) _ (blank, 0) (blank, 0)
                (load_line-version blank 0),
            load_lines-cons (numbered root_word m.root_id) _ (blank, 0) (rooted, 0)
                (load_line-root m.root_id blank 0 f.root),
            load_lines-cons (numbered next_id_word m.next_id) _ (rooted, 0) (headed, 0)
                (load_line-next_id m.next_id rooted 0 f.next),
          )
          rest,
      fits,
    )

-- A stored manifest is read back into a new one of the same directory, entry by entry and in order.
pub load_text-save_text :
    (m : Manifest)
    → IsValid m
    → Fits m
    → load_text (save_text m) (record m { root_id = 0; next_id = 1; nodes = [] }) ≡ some m
unfolding load_text
load_text-save_text m v f =
    let (greatest, loaded, below) = load_save_lines m v f in
    let enough : ltb m.next_id ((greatest + 1) % 2 ^ 64) ≡ false = ground (arith, f.next, below) in
    rw (loaded, enough)

load-file :
    (d : Disk) (m : Manifest) (text : Str)
    → d (manifest_path m.dir) ≡ some text
    → load d m ≡ load_text text m
unfolding load
load-file d m text h = rw (h, load)

file-save : (m : Manifest) (d : Disk) → save m d (manifest_path m.dir) ≡ some (save_text m)
unfolding save
file-save m d =
    rename-store (tmp_path m.dir) (manifest_path m.dir) (manifest_path m.dir) (save_text m) d
    ∙ rw (key_eq, cmp_refl (manifest_path m.dir))

-- A valid manifest whose numbers fit their types and whose paths have no white space in them,
-- saved on any disk and loaded from there into a new manifest of the same directory, is the same
-- again.
pub load-save :
    (m : Manifest) (d : Disk)
    → IsValid m
    → Fits m
    → load (save m d) (record m { root_id = 0; next_id = 1; nodes = [] }) ≡ some m
load-save m d v f =
    load-file (save m d) (record m { root_id = 0; next_id = 1; nodes = [] }) (save_text m)
      (file-save m d)
    ∙ load_text-save_text m v f
