-- ===== src/Binary/Reads.antt =====
-- What a reader makes of bytes that a writer laid down: `Reads m bs v` says that wherever the bytes
-- `bs` lie ahead, `m` returns `v` and moves behind them.
use Prim.Native.Nat.add
use native.Mathlib.Nat.{add_assoc, add-zero}
use gravtree.Prelude.{
  ℕ, zero, suc, ◌+◌, ◌^◌, ◌<◌, ◌≤◌, List, [], ◌∷◌, ◌++◌, ◌≡◌, refl, ap, ◌∙◌, length, take, drop,
  get_or, arith, length-append, take-append, drop-append, All,
}
use mathlib.Core.List.{append_assoc}
use gravtree.Key.{Str}
use gravtree.Bytes.{le_bytes, length-le_bytes, le_value-le_bytes}
use gravtree.Result.{ok}
use gravtree.Binary.{
  Reader, Parser, ◌>>=◌, ◌>>◌, pure, advance, check, get_raw, get_u8, get_u32, get_u64, get_str,
}

-- `xs` lies ahead, within the reader's size, and `rest` behind it.
pub record Ahead (r : Reader) (xs rest : List ℕ) : Type 0 where
  pub ahead : drop r.pos r.bytes ≡ xs ++ rest
  pub room : r.pos + length xs ≤ r.size

pub record Reads {A : Type 0} (m : Parser A) (bs : List ℕ) (v : A) : Type 0 where
  pub runs :
      (r : Reader) (xs rest : List ℕ)
      → Ahead r (bs ++ xs) rest
      → m r ≡ ok (v, advance (length bs) r)

drop-add {ℓ} : {A : Type ℓ} (n m : ℕ) (xs : List A) → drop (n + m) xs ≡ drop m (drop n xs)
drop-add zero m xs = rw add.zero
drop-add (suc n) zero [] = rw add.suc
drop-add (suc n) (suc m) [] = rw add.suc
drop-add (suc n) m (x ∷ xs) = rw add.suc (drop-add n m xs)

pub Ahead-advance :
    {r : Reader} (bs xs : List ℕ) {rest : List ℕ}
    → Ahead r (bs ++ xs) rest
    → Ahead (advance (length bs) r) xs rest
unfolding advance
Ahead-advance {r} bs xs {rest} h = record {
  ahead =
      drop-add r.pos (length bs) r.bytes
      ∙ ap (drop (length bs)) (h.ahead ∙ append_assoc bs xs rest)
      ∙ drop-append bs (xs ++ rest);
  room = omega (arith, h.room, length-append bs xs);
}

Ahead-take :
    {r : Reader} (bs xs : List ℕ) {rest : List ℕ}
    → Ahead r (bs ++ xs) rest
    → take (length bs) (drop r.pos r.bytes) ≡ bs
Ahead-take {r} bs xs {rest} h =
    ap (take (length bs)) (h.ahead ∙ append_assoc bs xs rest) ∙ take-append bs (xs ++ rest)

-- The bounds check passes where the bytes are there.
check-Ahead :
    {r : Reader} (bs xs : List ℕ) {rest : List ℕ}
    → Ahead r (bs ++ xs) rest
    → check (length bs) r ≡ ok (tt, r)
unfolding check
check-Ahead {r} bs xs h =
    let enough : r.pos + length bs ≤ r.size = omega (arith, h.room, length-append bs xs) in
    ground arith

pub Reads-get_raw : (bs : List ℕ) → Reads (get_raw (length bs)) bs bs
unfolding get_raw
Reads-get_raw bs = record { runs = λ r xs rest h. rw (check-Ahead bs xs h, Ahead-take bs xs h) }

pub Reads-pure : {A : Type 0} (v : A) → Reads (pure v) [] v
unfolding advance
Reads-pure v = record { runs = λ r xs rest h. rw add-zero }

pub Reads-get_u8 : (v : ℕ) → Reads get_u8 (v ∷ []) v
unfolding get_u8
Reads-get_u8 v = record { runs = λ r xs rest h. rw (check-Ahead (v ∷ []) xs h, first r xs rest h) }
  where
    head-drop : (n : ℕ) (bs : List ℕ) → get_or bs n 0 ≡ get_or (drop n bs) 0 0
    head-drop zero bs = refl
    head-drop (suc n) [] = refl
    head-drop (suc n) (b ∷ bs) = head-drop n bs

    first : (r : Reader) (xs rest : List ℕ) → Ahead r (v ∷ xs) rest → get_or r.bytes r.pos 0 ≡ v
    first r xs rest h = head-drop r.pos r.bytes ∙ ap (λ (bs : List ℕ). get_or bs 0 0) h.ahead

advance-append :
    (bs cs : List ℕ) (r : Reader)
    → advance (length cs) (advance (length bs) r) ≡ advance (length (bs ++ cs)) r
unfolding advance
advance-append bs cs r = rw (length-append bs cs, add_assoc)

module _ {A B : Type 0} where
  pub Reads-bind :
      (m : Parser A) (f : A → Parser B) (bs cs : List ℕ) (v : A) (w : B)
      → Reads m bs v
      → Reads (f v) cs w
      → Reads (m >>= f) (bs ++ cs) w
  unfolding ◌>>=◌
  Reads-bind m f bs cs v w h k = record {
    runs = λ r xs rest a.
        let a' : Ahead r (bs ++ (cs ++ xs)) rest = rw append_assoc at a in
        rw (h.runs r (cs ++ xs) rest a') (
          k.runs (advance (length bs) r) xs rest (Ahead-advance bs (cs ++ xs) a')
          ∙ ap (λ (q : Reader). ok (w, q)) (advance-append bs cs r));
  }

  -- The last step of a block, which reads nothing.
  pub Reads-map :
      (m : Parser A) (f : A → B) (bs : List ℕ) (v : A)
      → Reads m bs v
      → Reads (m >>= λ a. pure (f a)) bs (f v)
  unfolding ◌>>=◌
  Reads-map m f bs v h = record { runs = λ r xs rest a. rw (h.runs r xs rest a) }

pub Reads-get_u32 : (v : ℕ) → v < 2 ^ 32 → Reads get_u32 (le_bytes 4 v) v
unfolding get_u32
Reads-get_u32 v h = record {
  runs = λ r xs rest a. rw (four.runs r xs rest a) (rw (le_value-le_bytes 4 v h));
}
  where
    four : Reads (get_raw 4) (le_bytes 4 v) (le_bytes 4 v)
    four = rw length-le_bytes at (Reads-get_raw (le_bytes 4 v))

pub Reads-get_u64 : (v : ℕ) → v < 2 ^ 64 → Reads get_u64 (le_bytes 8 v) v
unfolding get_u64
Reads-get_u64 v h = record {
  runs = λ r xs rest a. rw (eight.runs r xs rest a) (rw (le_value-le_bytes 8 v h));
}
  where
    eight : Reads (get_raw 8) (le_bytes 8 v) (le_bytes 8 v)
    eight = rw length-le_bytes at (Reads-get_raw (le_bytes 8 v))

-- A length in four bytes, then the bytes.
abbrev pub str_bytes : Str → List ℕ
str_bytes s = le_bytes 4 (length s) ++ s

pub Reads-get_str : (s : Str) → length s < 2 ^ 32 → Reads get_str (str_bytes s) s
unfolding get_str get_raw
Reads-get_str s h =
    Reads-bind get_u32 (λ len. check len >> λ r. ok (take len (drop r.pos r.bytes), advance len r))
      (le_bytes 4 (length s)) s (length s) s (Reads-get_u32 (length s) h) (Reads-get_raw s)

module _ {A : Type 0} where
  -- a counted loop of `push_back`s
  unfoldable pub repeat : ℕ → Parser A → Parser (List A)
  repeat zero p = pure []
  repeat (suc n) p = do a ← p; as' ← repeat n p; pure (a ∷ as')

  unfoldable pub encode_all : (A → List ℕ) → List A → List ℕ
  encode_all enc [] = []
  encode_all enc (a ∷ l) = enc a ++ encode_all enc l

  pub Reads-repeat :
      (p : Parser A) (enc : A → List ℕ) (l : List A)
      → All (λ a. Reads p (enc a) a) l
      → Reads (repeat (length l) p) (encode_all enc l) l
  unfolding repeat encode_all
  Reads-repeat p enc [] h = Reads-pure []
  Reads-repeat p enc (a ∷ l) h =
      Reads-bind p (λ x. repeat (length l) p >>= λ xs. pure (x ∷ xs)) (enc a) (encode_all enc l) a
        (a ∷ l) h.0
        (Reads-map (repeat (length l) p) (λ xs. a ∷ xs) (encode_all enc l) l
          (Reads-repeat p enc l h.1))
