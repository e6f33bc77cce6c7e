-- ===== src/Manifest/Text/Lines.antt =====
-- What each line of the text gives back.
use mathlib.Core.List.{append-nil}
use gravtree.Prelude.{
  ℕ, ◌^◌, ◌<◌, ◌≡◌, refl, ap, ◌∙◌, Bool, true, false, not, some, [], ◌∷◌, ◌++◌, ltb, ◌==◌,
  if◌then◌else◌, All, All-append, All_mono, arith,
}
use gravtree.Key.{Str, cmp}
use gravtree.Decimal.{is_digit, to_string, parse_digits, to_string-IsDigits}
use gravtree.Manifest.{Manifest}
use gravtree.Manifest.Table.{NodeMeta, assign}
use gravtree.Manifest.Text.{
  newline, space, is_space, version_word, root_word, next_id_word, node_word, numbered, node_line,
  skip_spaces, take_word, read_word, starts_with_digit, read_number, load_node, load_words,
  load_line,
}
use gravtree.Manifest.Text.Words.{
  IsLine, IsWord, read_number-to_string, read_word-IsWord, read_word-space,
}

-- A node that the format can hold.
pub record MetaFits (n : NodeMeta) : Type 0 where
  pub id : n.id < 2 ^ 64
  pub level : n.level < 2 ^ 32
  pub path : IsWord n.file_path

flag_back :
    (b : Bool) (s : Str)
    → (read_number (2 ^ 31) (space ∷ (if b then b'1' else b'0') ∷ space ∷ s)
        ≡ some (if b then 1 else 0, space ∷ s))
      × (not ((if b then 1 else 0) == 0) ≡ b)
unfolding read_number skip_spaces parse_digits starts_with_digit
flag_back true s = (refl, refl)
flag_back false s = (refl, refl)

-- A NODE line is read back but for the path, of which the first word is taken.
load_node-fields :
    (n : NodeMeta) (path rest : Str) (m : Manifest) (max_id : ℕ)
    → n.id < 2 ^ 64
    → n.level < 2 ^ 32
    → read_word (space ∷ n.file_path) ≡ (path, rest)
    → load_node
        (space
          ∷ (to_string n.id
              ++ space
                ∷ (to_string n.level
                    ++ space ∷ ((if n.valid then b'1' else b'0') ∷ space ∷ n.file_path))))
        (m, max_id)
      ≡ some (
        record m { nodes = assign n.id (record n { file_path = path }) m.nodes },
        if ltb max_id n.id then n.id else max_id,
      )
unfolding load_node
load_node-fields n path rest m max_id hi hl word =
    let (flag, valid) = flag_back n.valid n.file_path in
    rw (
      read_number-to_string (2 ^ 64) n.id _ hi refl,
      read_number-to_string (2 ^ 32) n.level _ hl refl,
      flag,
      word,
      valid,
    )

-- The first word of each kind of line.
first_words :
    (s : Str)
    → (read_word (node_word ++ space ∷ s) ≡ (node_word, space ∷ s))
      × (read_word (root_word ++ space ∷ s) ≡ (root_word, space ∷ s))
      × (read_word (next_id_word ++ space ∷ s) ≡ (next_id_word, space ∷ s))
      × (read_word (version_word ++ space ∷ s) ≡ (version_word, space ∷ s))
unfolding read_word skip_spaces take_word
first_words s = (refl, refl, refl, refl)

load_line-node_word :
    (n : NodeMeta) (path rest : Str) (m : Manifest) (max_id : ℕ)
    → n.id < 2 ^ 64
    → n.level < 2 ^ 32
    → read_word (space ∷ n.file_path) ≡ (path, rest)
    → load_line (node_line n) (m, max_id)
      ≡ some (
        record m { nodes = assign n.id (record n { file_path = path }) m.nodes },
        if ltb max_id n.id then n.id else max_id,
      )
unfolding load_line load_words cmp
load_line-node_word n path rest m max_id hi hl word =
    rw
      (first_words (
        to_string n.id
        ++ space
          ∷ (to_string n.level
              ++ space ∷ ((if n.valid then b'1' else b'0') ∷ space ∷ n.file_path)))).0
      (load_node-fields n path rest m max_id hi hl word)

-- The NODE line of an entry gives the entry back.
pub load_line-node :
    (n : NodeMeta) (m : Manifest) (max_id : ℕ)
    → MetaFits n
    → load_line (node_line n) (m, max_id)
      ≡ some (record m { nodes = assign n.id n m.nodes }, if ltb max_id n.id then n.id else max_id)
load_line-node n m max_id h =
    load_line-node_word n n.file_path [] m max_id h.id h.level (read_word-IsWord n.file_path h.path)

-- Of an entry with a number below 2 ^ 64 and a level below 2 ^ 32, the NODE line of a path that is
-- a word of at least one character without white space, a space, and whatever stands behind it
-- adds the entry with that word alone as its path to the table, and keeps the greatest number seen
-- so far.
pub load_line-spaced :
    (n : NodeMeta) (m : Manifest) (max_id c : ℕ) (dir rest : Str)
    → n.id < 2 ^ 64
    → n.level < 2 ^ 32
    → IsWord (c ∷ dir)
    → n.file_path ≡ c ∷ (dir ++ space ∷ rest)
    → load_line (node_line n) (m, max_id)
      ≡ some (
        record m { nodes = assign n.id (record n { file_path = c ∷ dir }) m.nodes },
        if ltb max_id n.id then n.id else max_id,
      )
load_line-spaced n m max_id c dir rest hi hl word path =
    load_line-node_word n (c ∷ dir) (space ∷ rest) m max_id hi hl
      (ap (λ (p : Str). read_word (space ∷ p)) path ∙ read_word-space c dir rest word)

pub load_line-version :
    (m : Manifest) (max_id : ℕ) → load_line (numbered version_word 1) (m, max_id) ≡ some (m, max_id)
unfolding load_line load_words cmp
load_line-version m max_id = rw (first_words (to_string 1)).3

read_whole : (limit n : ℕ) → n < limit → read_number limit (space ∷ to_string n) ≡ some (n, [])
read_whole limit n h = rw append-nil at (read_number-to_string limit n [] h tt)

pub load_line-root :
    (r : ℕ) (m : Manifest) (max_id : ℕ)
    → r < 2 ^ 64
    → load_line (numbered root_word r) (m, max_id) ≡ some (record m { root_id = r }, max_id)
unfolding load_line load_words cmp
load_line-root r m max_id h = rw ((first_words (to_string r)).1, read_whole (2 ^ 64) r h)

pub load_line-next_id :
    (n : ℕ) (m : Manifest) (max_id : ℕ)
    → n < 2 ^ 64
    → load_line (numbered next_id_word n) (m, max_id) ≡ some (record m { next_id = n }, max_id)
unfolding load_line load_words cmp
load_line-next_id n m max_id h = rw ((first_words (to_string n)).2, read_whole (2 ^ 64) n h)

-- None of these lines holds a newline.
digits-IsLine : (s : Str) → All (λ c. is_digit c ≡ true) s → IsLine s
digits-IsLine s h = All_mono _ _ (λ c d. not_newline c d) s h
  where
    not_newline : (c : ℕ) → is_digit c ≡ true → (c == newline) ≡ false
    not_newline c d = ground arith

word-IsLine : (s : Str) → IsWord s → IsLine s
word-IsLine s h = All_mono _ _ (λ c d. not_newline c d) s h
  where
    not_newline : (c : ℕ) → is_space c ≡ false → (c == newline) ≡ false
    not_newline c d = ground arith

pub numbered-IsLine : (word : Str) (n : ℕ) → IsLine word → IsLine (numbered word n)
numbered-IsLine word n h =
    All-append _ word (space ∷ to_string n) h
      (refl, digits-IsLine (to_string n) (to_string-IsDigits n))

pub node_line-IsLine : (n : NodeMeta) → MetaFits n → IsLine (node_line n)
node_line-IsLine n h =
    let flag = if n.valid then b'1' else b'0' in
    let path : IsLine (space ∷ flag ∷ space ∷ n.file_path) =
      (refl, (flag_not_newline n.valid, (refl, word-IsLine n.file_path h.path))) in
    let level : IsLine (space ∷ (to_string n.level ++ space ∷ flag ∷ space ∷ n.file_path)) = (
      refl,
      All-append _ (to_string n.level) _
          (digits-IsLine (to_string n.level) (to_string-IsDigits n.level)) path,
    ) in
    let id : IsLine (
        space
        ∷ (to_string n.id ++ space ∷ (to_string n.level ++ space ∷ flag ∷ space ∷ n.file_path))) =
      (
        refl,
        All-append _ (to_string n.id) _ (digits-IsLine (to_string n.id) (to_string-IsDigits n.id))
            level,
      ) in
    (refl, (refl, (refl, (refl, id))))
  where
    flag_not_newline : (b : Bool) → ((if b then b'1' else b'0') == newline) ≡ false
    flag_not_newline true = refl
    flag_not_newline false = refl
