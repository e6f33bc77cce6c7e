-- ===== src/Binary.antt =====
-- src/node.cpp: `BinaryWriter` and `BinaryReader`.
pub mod Reads
use gravtree.Prelude.{
  ℕ, ◌+◌, ◌%◌, ◌^◌, List, [], ◌∷◌, ◌++◌, ltb, if◌then◌else◌, length, take, drop, get_or,
}
use gravtree.Key.{Str}
use gravtree.Bytes.{le_bytes, le_value}
use gravtree.Result.{Result, ok, err, unexpected_end}
use gravtree.Result

-- The writer's methods append to `buf`, which they take last and return.
unfoldable pub put_u8 : ℕ → List ℕ → List ℕ
put_u8 v buf = buf ++ v ∷ []

unfoldable pub put_raw : List ℕ → List ℕ → List ℕ
put_raw p buf = buf ++ p

unfoldable pub put_u32 : ℕ → List ℕ → List ℕ
unfolding put_raw
put_u32 v = put_raw (le_bytes 4 v)

unfoldable pub put_u64 : ℕ → List ℕ → List ℕ
unfolding put_raw
put_u64 v = put_raw (le_bytes 8 v)

-- the length is cast to 32 bits
unfoldable pub put_str : Str → List ℕ → List ℕ
unfolding put_u32
put_str s buf = put_u32 (length s % 2 ^ 32) buf ++ s

pub record Reader : Type 0 where
  pub bytes : List ℕ
  pub size : ℕ
  pub pos : ℕ

abbrev pub Parser {ℓ} : Type ℓ → Type ℓ
Parser A = Reader → Result (A × Reader)

infixl 5 ◌>>=◌ ◌>>◌
unfoldable pub ◌>>=◌ {ℓ κ} : {A : Type ℓ} {B : Type κ} → Parser A → (A → Parser B) → Parser B
◌>>=◌ m f r = Result.◌>>=◌ (m r) (λ p. f p.0 p.1)

abbrev pub ◌>>◌ {ℓ} : {B : Type ℓ} → Parser (Unit {0}) → Parser B → Parser B
m >> n = m >>= λ _. n

abbrev pub pure {ℓ} : {A : Type ℓ} → A → Parser A
pure a r = ok (a, r)

abbrev pub throw {ℓ} : {A : Type ℓ} → Result.Error → Parser A
throw e r = err e

unfoldable pub advance : ℕ → Reader → Reader
advance n r = record r { pos = r.pos + n }

unfoldable pub check : ℕ → Parser (Unit {0})
check n r = if ltb r.size (r.pos + n) then err unexpected_end else ok (tt, r)

unfoldable pub get_raw : ℕ → Parser (List ℕ)
unfolding check advance ◌>>=◌
get_raw n = do check n; λ r. ok (take n (drop r.pos r.bytes), advance n r)

unfoldable pub get_u8 : Parser ℕ
unfolding check advance ◌>>=◌
get_u8 = do check 1; λ r. ok (get_or r.bytes r.pos 0, advance 1 r)

unfoldable pub get_u32 : Parser ℕ
unfolding get_raw ◌>>=◌
get_u32 = do p ← get_raw 4; pure (le_value p)

unfoldable pub get_u64 : Parser ℕ
unfolding get_raw ◌>>=◌
get_u64 = do p ← get_raw 8; pure (le_value p)

unfoldable pub get_str : Parser Str
unfolding get_u32 check advance
get_str = do len ← get_u32; check len; λ r. ok (take len (drop r.pos r.bytes), advance len r)
