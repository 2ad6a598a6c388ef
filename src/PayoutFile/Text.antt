-- ===== src/PayoutFile/Text.antt =====
-- Texts as lists of code points, and the normalisers of app/core/payout_file.py (lines 162 to 200).
-- Letters are ASCII: a letter outside ASCII that lower-cases into it is not modelled.
use Prim.Native.Char.{code}
use Prim.Native.String.{String}
use avora_be.Prelude.{
  ℕ, ◌+◌, ◌-◌, ◌≡◌, refl, Bool, true, false, ◌&&◌, ◌||◌, not, Option, none, some, List, [], ◌∷◌,
  keep, leb, ◌==◌, if◌then◌else◌,
}

abbrev pub Text : Type 0
Text = List ℕ

-- The code points of a literal.
abbrev pub codes : String → Text
codes String.[] = []
codes (String.◌∷◌ c s) = code c ∷ codes s

abbrev pub text_eq : Text → Text → Bool
text_eq [] [] = true
text_eq [] (d ∷ t) = false
text_eq (c ∷ s) [] = false
text_eq (c ∷ s) (d ∷ t) = c == d && text_eq s t

abbrev pub is_empty : Text → Bool
is_empty [] = true
is_empty (c ∷ s) = false

abbrev pub all_chars : (ℕ → Bool) → Text → Bool
all_chars p [] = true
all_chars p (c ∷ s) = p c && all_chars p s

abbrev pub is_digit : ℕ → Bool
is_digit c = leb b'0' c && leb c b'9'

abbrev pub is_upper : ℕ → Bool
is_upper c = leb b'A' c && leb c b'Z'

abbrev pub is_lower : ℕ → Bool
is_lower c = leb b'a' c && leb c b'z'

abbrev pub to_upper : ℕ → ℕ
to_upper c = if is_lower c then c - 32 else c

abbrev pub to_lower : ℕ → ℕ
to_lower c = if is_upper c then c + 32 else c

-- `[0-9A-Za-z]`
abbrev pub is_alnum : ℕ → Bool
is_alnum c = is_digit c || is_upper c || is_lower c

abbrev pub is_space : ℕ → Bool
is_space c =
    leb 9 c && leb c 13
    || leb 28 c && leb c 32
    || c == 133
    || c == 160
    || c == 5760
    || leb 8192 c && leb c 8202
    || c == 8232
    || c == 8233
    || c == 8239
    || c == 8287
    || c == 12288

abbrev pub each : (ℕ → ℕ) → Text → Text
each f [] = []
each f (c ∷ s) = f c ∷ each f s

abbrev pub drop_while : (ℕ → Bool) → Text → Text
drop_while p [] = []
drop_while p (c ∷ s) = if p c then drop_while p s else c ∷ s

-- Without the trailing characters that pass a test.
abbrev pub drop_trailing : (ℕ → Bool) → Text → Text
drop_trailing p [] = []
drop_trailing p (c ∷ s) =
    let rest = drop_trailing p s in if p c && is_empty rest then [] else c ∷ rest

-- `strip()`
abbrev pub strip : Text → Text
strip s = drop_trailing is_space (drop_while is_space s)

-- `lstrip("0")`
abbrev pub strip_zeros : Text → Text
strip_zeros = drop_while (λ c. c == b'0')

-- `s or None`
abbrev pub or_none : Text → Option Text
or_none [] = none
or_none (c ∷ s) = some (c ∷ s)

-- `s or "0"`
abbrev pub or_zero : Text → Text
or_zero [] = b'0' ∷ []
or_zero (c ∷ s) = c ∷ s

-- `isdigit()`
abbrev pub all_digits : Text → Bool
all_digits s = not (is_empty s) && all_chars is_digit s

abbrev pub alnum_upper : Text → Text
alnum_upper s = each to_upper (keep is_alnum s)

unfoldable pub normalize_employee_number : Text → Option Text
normalize_employee_number s =
    let cleaned = alnum_upper s in
    or_none (if all_digits cleaned then or_zero (strip_zeros cleaned) else cleaned)

unfoldable pub normalize_account_number : Text → Option Text
normalize_account_number s = or_none (strip_zeros (alnum_upper s))

unfoldable pub normalize_email : Text → Option Text
normalize_email s =
    if all_chars (λ c. not (c == b'@')) s then none else some (each to_lower (strip s))

-- `_normalize_header`: lower case, letters and digits.
abbrev pub normalize_header : Text → Text
normalize_header s = keep (λ c. is_digit c || is_lower c) (each to_lower s)

same_number :
    normalize_employee_number (codes "EMP-014") ≡ normalize_employee_number (codes "emp014")
unfolding normalize_employee_number
same_number = refl

leading_zeros : normalize_employee_number (codes "0014") ≡ some (codes "14")
unfolding normalize_employee_number
leading_zeros = refl
