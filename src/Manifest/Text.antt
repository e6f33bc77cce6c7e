-- ===== src/Manifest/Text.antt =====
-- `save` and `load` of src/manifest.cpp: the text of the manifest.
-- A line that lacks a number, or has one that does not fit its variable, leaves that variable unset
-- in C++; `load_text` is `none` there. The sign that `>>` would take before a number is not modelled.
pub mod Words
pub mod Lines
pub mod RoundTrip
use gravtree.Prelude.{
  ℕ, zero, suc, ◌+◌, ◌%◌, ◌^◌, Bool, true, false, not, ◌&&◌, ◌||◌, Option, none, some, List, [],
  ◌∷◌, ◌++◌, ltb, leb, ◌==◌, if◌then◌else◌,
}
use gravtree.Key.{Str, key_eq}
use gravtree.Decimal.{is_digit, to_string, parse_digits}
use gravtree.Disk.{Disk, store, rename}
use gravtree.Manifest.{Manifest}
use gravtree.Manifest.Table.{NodeTable, NodeMeta, assign}

abbrev pub newline : ℕ
newline = 10

abbrev pub space : ℕ
space = 32

-- `isspace` in the C locale
abbrev pub is_space : ℕ → Bool
is_space c = (c == 32) || (leb 9 c && leb c 13)

abbrev pub version_word : Str
version_word = b'V' ∷ b'E' ∷ b'R' ∷ b'S' ∷ b'I' ∷ b'O' ∷ b'N' ∷ []

abbrev pub root_word : Str
root_word = b'R' ∷ b'O' ∷ b'O' ∷ b'T' ∷ []

abbrev pub next_id_word : Str
next_id_word = b'N' ∷ b'E' ∷ b'X' ∷ b'T' ∷ b'_' ∷ b'I' ∷ b'D' ∷ []

abbrev pub node_word : Str
node_word = b'N' ∷ b'O' ∷ b'D' ∷ b'E' ∷ []

-- `word number`
abbrev pub numbered : Str → ℕ → Str
numbered word n = word ++ space ∷ to_string n

abbrev pub node_line : NodeMeta → Str
node_line n =
    node_word
    ++ space
      ∷ (to_string n.id
          ++ space
            ∷ (to_string n.level
                ++ space ∷ ((if n.valid then b'1' else b'0') ∷ space ∷ n.file_path)))

unfoldable pub node_lines : NodeTable → Str
node_lines [] = []
node_lines ((id, n) ∷ t) = node_line n ++ newline ∷ node_lines t

unfoldable pub save_text : Manifest → Str
save_text m =
    numbered version_word 1
    ++ newline
      ∷ (numbered root_word m.root_id
          ++ newline ∷ (numbered next_id_word m.next_id ++ newline ∷ node_lines m.nodes))

-- "/manifest" and "/manifest.tmp"
abbrev pub manifest_path : Str → Str
manifest_path dir = dir ++ b'/' ∷ b'm' ∷ b'a' ∷ b'n' ∷ b'i' ∷ b'f' ∷ b'e' ∷ b's' ∷ b't' ∷ []

abbrev pub tmp_path : Str → Str
tmp_path dir = manifest_path dir ++ b'.' ∷ b't' ∷ b'm' ∷ b'p' ∷ []

unfoldable pub save : Manifest → Disk → Disk
save m d = rename (tmp_path m.dir) (manifest_path m.dir) (store (tmp_path m.dir) (save_text m) d)

-- `getline` until the end of the stream: a last line needs no newline
unfoldable pub last_line : Str → List Str
last_line [] = []
last_line (c ∷ line) = (c ∷ line) ∷ []

unfoldable pub lines_from : Str → Str → List Str
unfolding last_line
lines_from line [] = last_line line
lines_from line (c ∷ s) =
    let cut = line ∷ lines_from [] s in
    let more = lines_from (line ++ c ∷ []) s in if c == newline then cut else more

unfoldable pub skip_spaces : Str → Str
skip_spaces [] = []
skip_spaces (c ∷ s) = if is_space c then skip_spaces s else c ∷ s

-- the characters up to the next space, and what follows
unfoldable pub take_word : Str → Str × Str
take_word [] = ([], [])
take_word (c ∷ s) =
    let (word, rest) = take_word s in if is_space c then ([], c ∷ s) else (c ∷ word, rest)

-- `ss >> word`
unfoldable pub read_word : Str → Str × Str
read_word s = take_word (skip_spaces s)

unfoldable pub starts_with_digit : Str → Bool
starts_with_digit [] = false
starts_with_digit (c ∷ s) = is_digit c

-- `ss >> n`, of a number below `limit`
unfoldable pub read_number : ℕ → Str → Option (ℕ × Str)
read_number limit s =
    let t = skip_spaces s in
    let p = parse_digits 0 t in if starts_with_digit t && ltb p.0 limit then some p else none

infixl 5 ◌>>=◌
abbrev pub ◌>>=◌ {ℓ κ} : {A : Type ℓ} {B : Type κ} → Option A → (A → Option B) → Option B
none >>= f = none
some a >>= f = f a

-- a manifest, and the greatest number seen on a NODE line
abbrev pub Loading : Type 0
Loading = Manifest × ℕ

unfoldable pub load_node : Str → Loading → Option Loading
load_node s (m, max_id) = do
  (id, s₁) ← read_number (2 ^ 64) s
  (level, s₂) ← read_number (2 ^ 32) s₁
  (valid_int, s₃) ← read_number (2 ^ 31) s₂
  let n : NodeMeta = record {
    id = id;
    level = level;
    file_path = (read_word s₃).0;
    valid = not (valid_int == 0);
  }
  some (record m { nodes = assign id n m.nodes }, if ltb max_id id then id else max_id)

-- one line that is neither empty nor a comment
unfoldable pub load_words : Str → Loading → Option Loading
load_words s (m, max_id) =
    let (token, rest) = read_word s in
    if key_eq token root_word
    then (do (r, _) ← read_number (2 ^ 64) rest; some (record m { root_id = r }, max_id))
    else if key_eq token next_id_word
    then (do (n, _) ← read_number (2 ^ 64) rest; some (record m { next_id = n }, max_id))
    else if key_eq token node_word
    then load_node rest (m, max_id)
    else some (m, max_id)

unfoldable pub load_line : Str → Loading → Option Loading
load_line [] l = some l
load_line (c ∷ s) l = if c == b'#' then some l else load_words (c ∷ s) l

unfoldable pub load_lines : List Str → Loading → Option Loading
load_lines [] l = some l
load_lines (line ∷ rest) l = do l' ← load_line line l; load_lines rest l'

unfoldable pub load_text : Str → Manifest → Option Manifest
load_text text m = do
  (m', max_id) ← load_lines (lines_from [] text) (m, 0)
  some (
      if ltb m'.next_id ((max_id + 1) % 2 ^ 64)
      then record m' { next_id = (max_id + 1) % 2 ^ 64 }
      else m')

-- no file: first open
unfoldable pub load : Disk → Manifest → Option Manifest
load d m = elim (d (manifest_path m.dir)) [ none ↦ some m | some text ↦ load_text text m ]
