-- ===== src/Disk.antt =====
-- The file system as the program sees it: what each path holds. Directories always exist
-- (`fs::create_directories`), and writing, renaming and removing succeed.
use gravtree.Prelude.{ℕ, List, Option, none, some, if◌then◌else◌, ◌≡◌, arith}
use gravtree.Key.{Str, key_eq}
use gravtree.Key.Order.{cmp_refl}

abbrev pub Disk : Type 0
Disk = Str → Option (List ℕ)

-- `ofstream(path, trunc)` and its `write`
unfoldable pub store : Str → List ℕ → Disk → Disk
store p bytes d q = if key_eq p q then some bytes else d q

-- `fs::remove(path)`
unfoldable pub remove : Str → Disk → Disk
remove p d q = if key_eq p q then none else d q

-- `fs::rename(from, to)`
unfoldable pub rename : Str → Str → Disk → Disk
rename from to d q = if key_eq to q then d from else if key_eq from q then none else d q

pub store_self : (p : Str) (bytes : List ℕ) (d : Disk) → store p bytes d p ≡ some bytes
unfolding store
store_self p bytes d = ground (arith, cmp_refl p)

-- Writing beside the file and renaming leaves the file, and nothing beside it.
pub rename-store :
    (tmp p q : Str) (bytes : List ℕ) (d : Disk)
    → rename tmp p (store tmp bytes d) q
      ≡ (if key_eq p q then some bytes else if key_eq tmp q then none else d q)
unfolding store rename
rename-store tmp p q bytes d = ground (arith, cmp_refl tmp)
