-- ===== src/Manifest/Text/Words.antt =====
-- Reading lines, numbers and words.
use mathlib.Core.List.{append_assoc, append-nil}
use gravtree.Prelude.{
  ℕ, ◌<◌, ◌≡◌, refl, ◌∙◌, true, false, some, [], ◌∷◌, ◌++◌, ◌==◌, All, arith, lt→ltb,
}
use gravtree.Key.{Str}
use gravtree.Decimal.{is_digit, to_string, parse_digits, parse_digits-to_string, to_string-cons}
use gravtree.Manifest.Text.{
  newline, space, is_space, lines_from, skip_spaces, take_word, read_word, starts_with_digit,
  read_number,
}

abbrev pub IsLine : Str → Type 0
IsLine s = All (λ c. (c == newline) ≡ false) s

-- A line is cut off at its newline.
pub lines_from-line :
    (acc line s : Str)
    → IsLine line
    → lines_from acc (line ++ newline ∷ s) ≡ (acc ++ line) ∷ lines_from [] s
unfolding lines_from
lines_from-line acc [] s h = rw append-nil
lines_from-line acc (c ∷ line) s h =
    rw h.0 (lines_from-line (acc ++ c ∷ []) line s h.1 ∙ simp append_assoc)

-- What stands behind a number does not go on with a digit.
abbrev pub NoDigit : Str → Type 0
NoDigit [] = Unit
NoDigit (c ∷ s) = is_digit c ≡ false

parse_digits-NoDigit : (n : ℕ) (s : Str) → NoDigit s → parse_digits n s ≡ (n, s)
unfolding parse_digits
parse_digits-NoDigit n [] h = refl
parse_digits-NoDigit n (c ∷ s) h = rw h

digit-not_space : (c : ℕ) → is_digit c ≡ true → is_space c ≡ false
digit-not_space c h = ground arith

skip_spaces-digit : (c : ℕ) (s : Str) → is_digit c ≡ true → skip_spaces (c ∷ s) ≡ c ∷ s
unfolding skip_spaces
skip_spaces-digit c s h = rw (digit-not_space c h)

-- A number behind a space is read back.
pub read_number-to_string :
    (limit n : ℕ) (s : Str)
    → n < limit
    → NoDigit s
    → read_number limit (space ∷ (to_string n ++ s)) ≡ some (n, s)
unfolding read_number
read_number-to_string limit n s h k =
    let (d, t, e, digit) = to_string-cons n in
    let parsed : parse_digits 0 (to_string n ++ s) ≡ (n, s) =
      parse_digits-to_string n s ∙ parse_digits-NoDigit n s k in
    let skipped : skip_spaces (space ∷ (to_string n ++ s)) ≡ to_string n ++ s =
      rw e (unfold skip_spaces in rw (digit-not_space d digit)) in
    let starts : starts_with_digit (to_string n ++ s) ≡ true =
      rw e (unfold starts_with_digit in digit) in
    rw (skipped, parsed, starts, lt→ltb n limit h)

-- A word that `>>` reads whole.
abbrev pub IsWord : Str → Type 0
IsWord s = All (λ c. is_space c ≡ false) s

take_word-IsWord : (s : Str) → IsWord s → take_word s ≡ (s, [])
unfolding take_word
take_word-IsWord [] h = refl
take_word-IsWord (c ∷ s) h = rw (h.0, take_word-IsWord s h.1)

pub read_word-IsWord : (s : Str) → IsWord s → read_word (space ∷ s) ≡ (s, [])
unfolding read_word skip_spaces take_word
read_word-IsWord [] h = refl
read_word-IsWord (c ∷ s) h = rw h.0 (take_word-IsWord (c ∷ s) h)

-- A word ends at the first space.
take_word-space : (s t : Str) → IsWord s → take_word (s ++ space ∷ t) ≡ (s, space ∷ t)
unfolding take_word
take_word-space [] t h = refl
take_word-space (c ∷ s) t h = rw (h.0, take_word-space s t h.1)

pub read_word-space :
    (c : ℕ) (s t : Str)
    → IsWord (c ∷ s)
    → read_word (space ∷ c ∷ (s ++ space ∷ t)) ≡ (c ∷ s, space ∷ t)
unfolding read_word skip_spaces
read_word-space c s t h = rw h.0 (take_word-space (c ∷ s) t h)
