-- ===== src/Common/Decimal/Reading.antt =====
-- A number that is shown is read back.
use zed_codex_acp_cas.Common.{
  ℕ, zero, suc, ◌+◌, ◌*◌, ◌-◌, ◌/◌, ◌%◌, ◌≤◌, ◌<◌, Bool, true, false, List, [], ◌∷◌, ◌++◌, some,
  ◌≡◌, refl, ap, ◌∙◌, arith, ltb, ◌==◌, all, is_empty, lt→ltb, ltb→lt, &&-true, Bool-cases, inl,
  inr,
}
use zed_codex_acp_cas.Common.Text.{Text, is_ascii_digit}
use zed_codex_acp_cas.Common.Decimal.{
  parse_digits, parse_nonempty, parse_unsigned, show_from, show, value_from, value-show,
}

all-snoc {ℓ} :
    {A : Type ℓ} (p : A → Bool) (xs : List A) (y : A)
    → all p xs ≡ true
    → p y ≡ true
    → all p (xs ++ y ∷ []) ≡ true
all-snoc p [] y h k = rw k
all-snoc p (x ∷ xs) y h k =
    let parts = &&-true (p x) (all p xs) h in rw (parts.0, all-snoc p xs y parts.1 k)

digit : (n : ℕ) → n < 10 → is_ascii_digit (b'0' + n) ≡ true
digit n h = ground arith

show_from-digits : (fuel n : ℕ) → n ≤ fuel → all is_ascii_digit (show_from fuel n) ≡ true
unfolding show_from
show_from-digits zero n h = rw (digit (n % 10) (omega arith))
show_from-digits (suc fuel) n h =
    let later =
      all-snoc is_ascii_digit (show_from fuel (n / 10)) (b'0' + n % 10)
        (show_from-digits fuel (n / 10) (omega arith)) (digit (n % 10) (omega arith)) in
    elim (Bool-cases (ltb n 10)) [ inl y ↦ rw (y, digit n (ltb→lt n 10 y)) | inr k ↦ rw k later ]

pub show-digits : (n : ℕ) → all is_ascii_digit (show n) ≡ true
unfolding show
show-digits n = show_from-digits n n (omega arith)

is_empty-snoc {ℓ} : {A : Type ℓ} (xs : List A) (y : A) → is_empty (xs ++ y ∷ []) ≡ false
is_empty-snoc [] y = refl
is_empty-snoc (x ∷ xs) y = refl

show_from-is_empty : (fuel n : ℕ) → is_empty (show_from fuel n) ≡ false
unfolding show_from
show_from-is_empty zero n = refl
show_from-is_empty (suc fuel) n = elim (Bool-cases (ltb n 10)) [
  | inl y ↦ rw y
  | inr k ↦ rw (k, is_empty-snoc (show_from fuel (n / 10)) (b'0' + n % 10))
]

pub show-is_empty : (n : ℕ) → is_empty (show n) ≡ false
unfolding show
show-is_empty n = show_from-is_empty n n

le-value_from : (acc : ℕ) (cs : Text) → acc ≤ value_from acc cs
unfolding value_from
le-value_from acc [] = omega arith
le-value_from acc (c ∷ cs) = omega (arith, le-value_from (acc * 10 + (c - b'0')) cs)

parse_digits-value :
    (limit acc : ℕ) (cs : Text)
    → all is_ascii_digit cs ≡ true
    → value_from acc cs < limit
    → parse_digits limit acc cs ≡ some (value_from acc cs)
unfolding parse_digits value_from
parse_digits-value limit acc [] h l = refl
parse_digits-value limit acc (c ∷ cs) h l =
    let parts = &&-true (is_ascii_digit c) (all is_ascii_digit cs) h in
    let below : acc * 10 + (c - b'0') < limit =
      omega (arith, le-value_from (acc * 10 + (c - b'0')) cs) in
    rw (parts.0, lt→ltb _ _ below) (parse_digits-value limit (acc * 10 + (c - b'0')) cs parts.1 l)

parse_unsigned-digits :
    (limit : ℕ) (cs : Text)
    → is_empty cs ≡ false
    → all is_ascii_digit cs ≡ true
    → value_from 0 cs < limit
    → parse_unsigned limit cs ≡ some (value_from 0 cs)
unfolding parse_unsigned parse_nonempty
parse_unsigned-digits limit [] e h l = cc
parse_unsigned-digits limit (c ∷ cs) e h l =
    let sign : (c == b'+') ≡ false = ground arith in
    rw sign (parse_digits-value limit 0 (c ∷ cs) h l)

-- A number below the limit is read back from its decimal text.
pub parse_unsigned-show : (limit n : ℕ) → n < limit → parse_unsigned limit (show n) ≡ some n
parse_unsigned-show limit n h =
    parse_unsigned-digits limit (show n) (show-is_empty n) (show-digits n) (rw (value-show n) h)
    ∙ ap some (value-show n)
