-- ===== src/Decimal.antt =====
-- Decimal numerals: `std::to_string`, `<<` and `>>` of unsigned integers.
use gravtree.Prelude.{
  ℕ, zero, suc, ◌+◌, ◌-◌, ◌*◌, ◌/◌, ◌%◌, ◌<◌, ◌≡◌, refl, ap, sym, ◌∙◌, [], ◌∷◌, ◌++◌, ltb, leb,
  Bool, true, ◌&&◌, if◌then◌else◌, arith, All, subst, Bool-cases, inl, inr, ltb→lt,
}
use mathlib.Core.List.{append_assoc}
use gravtree.Key.{Str}

-- The digits of `n` before `rest`, with fuel above `n`.
digits_before : ℕ → ℕ → Str → Str
digits_before zero n rest = rest
digits_before (suc fuel) n rest =
    let more = digits_before fuel (n / 10) ((48 + n % 10) ∷ rest) in
    if ltb n 10 then (48 + n % 10) ∷ rest else more

unfoldable pub to_string : ℕ → Str
unfolding digits_before
to_string n = digits_before (suc n) n []

abbrev pub is_digit : ℕ → Bool
is_digit c = leb 48 c && leb c 57

-- the value of the digits at the front, after those that make `acc`, and what follows them
unfoldable pub parse_digits : ℕ → Str → ℕ × Str
parse_digits acc [] = (acc, [])
parse_digits acc (c ∷ s) = if is_digit c then parse_digits (acc * 10 + (c - 48)) s else (acc, c ∷ s)

parse_digit :
    (acc d n : ℕ) (rest : Str)
    → d < 10
    → acc * 10 + d ≡ n
    → parse_digits acc ((48 + d) ∷ rest) ≡ parse_digits n rest
unfolding parse_digits
parse_digit acc d n rest h e =
    let lo : leb 48 (48 + d) ≡ true = ground arith in
    let hi : leb (48 + d) 57 ≡ true = ground arith in
    let value : acc * 10 + (48 + d - 48) ≡ n = omega arith in rw (lo, hi, value)

-- Parsing goes on as if the printed number had been the accumulator.
digits_before-parse :
    (fuel n : ℕ) (rest : Str)
    → n < fuel
    → parse_digits 0 (digits_before fuel n rest) ≡ parse_digits n rest
unfolding digits_before
digits_before-parse zero n rest h = absurd (omega arith)
digits_before-parse (suc fuel) n rest h = elim (Bool-cases (ltb n 10)) [
  | inl small ↦
      rw small (parse_digit 0 (n % 10) n rest (omega arith) (omega (arith, ltb→lt n 10 small)))
  | inr large ↦ rw large (
      digits_before-parse fuel (n / 10) ((48 + n % 10) ∷ rest) (ground arith)
      ∙ parse_digit (n / 10) (n % 10) n rest (omega arith) (omega arith))
]

digits_before-append :
    (fuel n : ℕ) (rest : Str) → digits_before fuel n rest ≡ digits_before fuel n [] ++ rest
unfolding digits_before
digits_before-append zero n rest = refl
digits_before-append (suc fuel) n rest = elim (Bool-cases (ltb n 10)) [
  | inl small ↦ rw small
  | inr large ↦ rw large (
      digits_before-append fuel (n / 10) ((48 + n % 10) ∷ rest)
      ∙ sym (append_assoc (digits_before fuel (n / 10) []) ((48 + n % 10) ∷ []) rest)
      ∙ ap (λ (s : Str). s ++ rest) (sym (digits_before-append fuel (n / 10) ((48 + n % 10) ∷ []))))
]

-- A printed number is read back, up to what follows it.
pub parse_digits-to_string :
    (n : ℕ) (rest : Str) → parse_digits 0 (to_string n ++ rest) ≡ parse_digits n rest
unfolding to_string
parse_digits-to_string n rest =
    ap (parse_digits 0) (sym (digits_before-append (suc n) n rest))
    ∙ digits_before-parse (suc n) n rest (omega arith)

-- A printed number consists of digits, at least one.
abbrev pub IsDigits : Str → Type 0
IsDigits s = All (λ c. is_digit c ≡ true) s

digits_before-IsDigits :
    (fuel n : ℕ) (rest : Str) → IsDigits rest → IsDigits (digits_before fuel n rest)
unfolding digits_before
digits_before-IsDigits zero n rest h = h
digits_before-IsDigits (suc fuel) n rest h =
    let lo : leb 48 (48 + n % 10) ≡ true = ground arith in
    let hi : leb (48 + n % 10) 57 ≡ true = ground arith in
    let digit : is_digit (48 + n % 10) ≡ true = rw (lo, hi) in
    elim (Bool-cases (ltb n 10)) [
      | inl small ↦ rw small (digit, h)
      | inr large ↦
          rw large (digits_before-IsDigits fuel (n / 10) ((48 + n % 10) ∷ rest) (digit, h))
    ]

pub to_string-IsDigits : (n : ℕ) → IsDigits (to_string n)
unfolding to_string
to_string-IsDigits n = digits_before-IsDigits (suc n) n [] tt

-- Different numbers print differently.
pub to_string-injective : (n m : ℕ) → to_string n ≡ to_string m → n ≡ m
unfolding parse_digits
to_string-injective n m e =
    ap (λ (p : ℕ × Str). p.0)
      (sym (parse_digits-to_string n [])
        ∙ ap (λ (s : Str). parse_digits 0 (s ++ [])) e
        ∙ parse_digits-to_string m [])

digits_before-cons :
    (fuel n c : ℕ) (s : Str) → (d : ℕ) × (t : Str) × (digits_before fuel n (c ∷ s) ≡ d ∷ t)
unfolding digits_before
digits_before-cons zero n c s = (c, s, refl)
digits_before-cons (suc fuel) n c s = elim (Bool-cases (ltb n 10)) [
  | inl small ↦ (48 + n % 10, c ∷ s, rw small)
  | inr large ↦ rw large (digits_before-cons fuel (n / 10) (48 + n % 10) (c ∷ s))
]

-- There is a first digit.
pub to_string-cons : (n : ℕ) → (d : ℕ) × (t : Str) × (to_string n ≡ d ∷ t) × (is_digit d ≡ true)
to_string-cons n = let (d, t, e) = first in (d, t, e, (subst IsDigits e (to_string-IsDigits n)).0)
  where
    first : (d : ℕ) × (t : Str) × (to_string n ≡ d ∷ t)
    first = elim (Bool-cases (ltb n 10)) [
      | inl small ↦ unfold to_string digits_before in (48 + n % 10, [], rw small)
      | inr large ↦
          unfold to_string digits_before in
          rw large (digits_before-cons n (n / 10) (48 + n % 10) [])
    ]

to_string_runs : to_string 16384 ≡ 49 ∷ 54 ∷ 51 ∷ 56 ∷ 52 ∷ []
unfolding to_string
to_string_runs = refl
