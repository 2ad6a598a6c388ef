-- ===== src/PayoutFile/Amount/Noise.antt =====
-- What `_CURRENCY_NOISE` of app/core/payout_file.py leaves of a text of digits, points and signs
-- into which commas, spaces and rupee signs are strewn.
use avora_be.Prelude.{
  ℕ, ◌<◌, ◌≡◌, ◌∙◌, refl, ap, sym, subst, Bool, true, false, ◌&&◌, ◌||◌, not, [], ◌∷◌, keep, All,
  ◌==◌, if◌then◌else◌, arith, ==_iff, Bool-cases, inl, inr, all_below, all_below_sound,
}
use avora_be.PayoutFile.Text.{
  Text, is_digit, is_space, is_upper, is_lower, is_empty, strip, drop_while, drop_trailing,
}
use avora_be.PayoutFile.Amount.{is_letter, noise_length, drop_noise, drop_trailing_dash}

-- Digits, the point and the sign.
abbrev pub is_plain : ℕ → Bool
is_plain c = is_digit c || c == b'.' || c == b'-'

-- A comma, a space or a rupee sign.
abbrev pub is_noise : ℕ → Bool
is_noise c = c == 8377 || c == b',' || is_space c

-- Every code below 128 is at most one of the two, and a letter neither.
ascii_table :
    all_below 128 (λ c.
      not (is_plain c && is_noise c)
      && not ((is_plain c || is_noise c) && (is_upper c || is_lower c)))
    ≡ true
unfolding all_below
ascii_table = refl

not_both : (p n q : Bool) → (not (p && n) && q) ≡ true → p ≡ true → n ≡ false
not_both p n q h e = ground arith

not_third : (p q r : Bool) → (not p && not (q && r)) ≡ true → q ≡ true → r ≡ true → ⊥
not_third p q r h e f = ground arith

second : (p n : Bool) → (p || n) ≡ true → p ≡ false → n ≡ true
second p n h e = ground arith

letter_of : (l c : ℕ) → is_lower l ≡ true → is_letter l c ≡ true → (is_upper c || is_lower c) ≡ true
letter_of l c small h = ground arith

plain_small : (c : ℕ) → is_plain c ≡ true → c < 128
plain_small c h = ground arith

letter_small : (l c : ℕ) → l < 128 → is_letter l c ≡ true → c < 128
letter_small l c h e = ground arith

plain-not_noise : (c : ℕ) → is_plain c ≡ true → is_noise c ≡ false
plain-not_noise c h =
    not_both (is_plain c) (is_noise c) _ (all_below_sound 128 _ c ascii_table (plain_small c h)) h

not_letter :
    (l c : ℕ) → is_lower l ≡ true → (is_plain c || is_noise c) ≡ true → is_letter l c ≡ false
not_letter l c small h = elim (Bool-cases (is_letter l c)) [
  | inl is ↦ absurd (
      not_third (is_plain c && is_noise c) (is_plain c || is_noise c) (is_upper c || is_lower c)
        (all_below_sound 128 _ c ascii_table (letter_small l c (ground arith) is)) h
        (letter_of l c small is))
  | inr isnt ↦ isnt
]

noise_length_lem :
    (c : ℕ) (s : Text)
    → (is_plain c || is_noise c) ≡ true
    → noise_length c s ≡ (if is_plain c then 0 else 1)
unfolding noise_length
noise_length_lem c s h = elim (Bool-cases (is_plain c)) [
  | inl plain ↦
      rw (not_letter b'i' c refl h, not_letter b'r' c refl h, plain-not_noise c plain, plain)
  | inr noise ↦ rw (
    not_letter b'i' c refl h,
    not_letter b'r' c refl h,
    second (is_plain c) (is_noise c) h noise,
    noise,
  )
]

-- A text of plain characters and of such noise.
abbrev pub Strewn : Text → Type 0
Strewn s = All (λ c. (is_plain c || is_noise c) ≡ true) s

pub drop_noise-Strewn : (s : Text) → Strewn s → drop_noise 0 s ≡ keep is_plain s
unfolding drop_noise
drop_noise-Strewn [] all = refl
drop_noise-Strewn (c ∷ s) (h, all) = elim (Bool-cases (is_plain c)) [
  | inl plain ↦
      rw (noise_length_lem c s h, plain, drop_noise) (ap (λ t. c ∷ t) (drop_noise-Strewn s all))
  | inr noise ↦ rw (noise_length_lem c s h, noise, drop_noise) (drop_noise-Strewn s all)
]

both_fst : (a b : Bool) → (a && b) ≡ true → a ≡ true
both_fst a b h = ground arith

both_snd : (a b : Bool) → (a && b) ≡ true → b ≡ true
both_snd a b h = ground arith

third_false : (a b d : Bool) → (a || b || d) ≡ false → d ≡ true → ⊥
third_false a b d h e = ground arith

pub empty_nil : (s : Text) → is_empty s ≡ true → s ≡ []
empty_nil [] h = refl
empty_nil (c ∷ s) h = absurd (ground arith)

not_slash : (c : ℕ) → (is_plain c || is_noise c) ≡ true → (c == b'/') ≡ false
not_slash c h = elim (Bool-cases (c == b'/')) [
  | inl is ↦
      let no : ◌≡◌ {A = Bool} false true =
        subst (λ x. (is_plain x || is_noise x) ≡ true) ((==_iff c b'/').0 is) h in
      absurd (ground arith)
  | inr isnt ↦ isnt
]

space-not_plain : (c : ℕ) → is_space c ≡ true → is_plain c ≡ false
space-not_plain c h = elim (Bool-cases (is_plain c)) [
  | inl plain ↦
      absurd (third_false (c == 8377) (c == b',') (is_space c) (plain-not_noise c plain) h)
  | inr other ↦ other
]

drop_while-Strewn :
    (s : Text)
    → Strewn s
    → Strewn (drop_while is_space s) × (keep is_plain (drop_while is_space s) ≡ keep is_plain s)
drop_while-Strewn [] all = (all, refl)
drop_while-Strewn (c ∷ s) (h, all) = elim (Bool-cases (is_space c)) [
  | inl space ↦ rw (space, space-not_plain c space, drop_while, keep) (drop_while-Strewn s all)
  | inr other ↦ rw (other, drop_while) ((h, all), refl)
]

drop_trailing-Strewn :
    (s : Text)
    → Strewn s
    → Strewn (drop_trailing is_space s)
      × (keep is_plain (drop_trailing is_space s) ≡ keep is_plain s)
drop_trailing-Strewn [] all = (all, refl)
drop_trailing-Strewn (c ∷ s) (h, all) =
    let (rest, same) = drop_trailing-Strewn s all in
    elim (Bool-cases (is_space c && is_empty (drop_trailing is_space s))) [
      | inl gone ↦
          let space : is_space c ≡ true = both_fst _ _ gone in
          let none_left = empty_nil (drop_trailing is_space s) (both_snd _ _ gone) in
          rw (gone, space-not_plain c space) (tt, ap (keep is_plain) (sym none_left) ∙ same)
      | inr stays ↦ rw stays ((h, rest), ap (λ t. if is_plain c then c ∷ t else t) same)
    ]

-- Without a slash there is no dash to drop.
pub drop_trailing_dash-Strewn : (s : Text) → Strewn s → drop_trailing_dash s ≡ s
unfolding drop_trailing_dash
drop_trailing_dash-Strewn [] all = refl
drop_trailing_dash-Strewn (c ∷ s) (h, all) =
    rw (not_slash c h) (ap (λ t. c ∷ t) (drop_trailing_dash-Strewn s all))

pub strip-Strewn :
    (s : Text) → Strewn s → Strewn (strip s) × (keep is_plain (strip s) ≡ keep is_plain s)
strip-Strewn s all =
    let (left, same) = drop_while-Strewn s all in
    let (right, same') = drop_trailing-Strewn (drop_while is_space s) left in (right, same' ∙ same)
