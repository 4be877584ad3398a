-- ===== src/Common/Trim.antt =====
-- What trimming leaves: a second trim changes nothing, and a prefix in front of a trimmed text stays.
use zed_codex_acp_cas.Common.Tests.{Bool-cases}
use zed_codex_acp_cas.Common.Text.{Text, is_whitespace, trim, trim_start_matches, trim_end_matches}
use Prim.Native.Nat.{ℕ}
use mathlib.Core.Path.{◌≡◌, refl, sym, ap, ◌∙◌}
use mathlib.Core.Logic.{inl, inr}
use mathlib.Core.Bool.{Bool, false}
use mathlib.Core.List.{[], ◌∷◌, ◌++◌}
use native.Mathlib.Omega.{arith}

-- The text is empty or begins with a character that fails the test.
abbrev Begins : (ℕ → Bool) → Text → Type 0
Begins p [] = Unit
Begins p (c ∷ cs) = p c ≡ false

trim_start-Begins : (p : ℕ → Bool) (s : Text) → Begins p (trim_start_matches p s)
unfolding trim_start_matches
trim_start-Begins p [] = tt
trim_start-Begins p (c ∷ cs) = elim (Bool-cases (p c)) [
  | inl white ↦ rw white (trim_start-Begins p cs)
  | inr solid ↦ rw solid solid
]

pub trim_start_same : (p : ℕ → Bool) (s : Text) → Begins p s → trim_start_matches p s ≡ s
unfolding trim_start_matches
trim_start_same p [] h = refl
trim_start_same p (c ∷ cs) h = rw h

trim_end-cons :
    (p : ℕ → Bool) (c : ℕ) (cs : Text)
    → p c ≡ false
    → trim_end_matches p (c ∷ cs) ≡ c ∷ trim_end_matches p cs
unfolding trim_end_matches
trim_end-cons p c cs h = ground arith

trim_end-keep :
    (p : ℕ → Bool) (c d : ℕ) (cs ds : Text)
    → trim_end_matches p cs ≡ d ∷ ds
    → trim_end_matches p (c ∷ cs) ≡ c ∷ d ∷ ds
unfolding trim_end_matches
trim_end-keep p c d cs ds h = ground arith

trim_end_idem :
    (p : ℕ → Bool) (s : Text) → trim_end_matches p (trim_end_matches p s) ≡ trim_end_matches p s
unfolding trim_end_matches
trim_end_idem p [] = refl
trim_end_idem p (c ∷ cs) = ground (arith, trim_end_idem p cs)

trim_end-Begins : (p : ℕ → Bool) (s : Text) → Begins p s → Begins p (trim_end_matches p s)
trim_end-Begins p [] h = unfold trim_end_matches in tt
trim_end-Begins p (c ∷ cs) h = rw (trim_end-cons p c cs h) h

-- Trimming is done once for all.
pub trim_idem : (s : Text) → trim (trim s) ≡ trim s
unfolding trim
trim_idem s =
    let inner = trim_start_matches is_whitespace s in
    ap (trim_end_matches is_whitespace) (
      trim_start_same is_whitespace _
        (trim_end-Begins is_whitespace inner (trim_start-Begins is_whitespace s)))
    ∙ trim_end_idem is_whitespace inner

trim_end-append :
    (p : ℕ → Bool) (a : Text) (d : ℕ) (ds : Text)
    → trim_end_matches p (d ∷ ds) ≡ d ∷ ds
    → trim_end_matches p (a ++ d ∷ ds) ≡ a ++ d ∷ ds
trim_end-append p [] d ds h = h
trim_end-append p (c ∷ []) d ds h = trim_end-keep p c d (d ∷ ds) ds h
trim_end-append p (c ∷ x ∷ a) d ds h =
    trim_end-keep p c x (x ∷ a ++ d ∷ ds) (a ++ d ∷ ds) (trim_end-append p (x ∷ a) d ds h)

-- A text that is trimmed has nothing to trim at its end.
trim_end_of_trim : (s : Text) → trim s ≡ s → trim_end_matches is_whitespace s ≡ s
unfolding trim
trim_end_of_trim s h =
    ap (trim_end_matches is_whitespace) (sym h)
    ∙ trim_end_idem is_whitespace (trim_start_matches is_whitespace s)
    ∙ h

-- A mark that begins with a solid character and a trimmed text behind it make a trimmed text.
pub trim_mark :
    (m : ℕ) (mark : Text) (d : ℕ) (ds : Text)
    → is_whitespace m ≡ false
    → trim (d ∷ ds) ≡ d ∷ ds
    → trim (m ∷ mark ++ d ∷ ds) ≡ m ∷ mark ++ d ∷ ds
unfolding trim
trim_mark m mark d ds solid h =
    ap (trim_end_matches is_whitespace) (trim_start_same is_whitespace (m ∷ mark ++ d ∷ ds) solid)
    ∙ trim_end-append is_whitespace (m ∷ mark) d ds (trim_end_of_trim (d ∷ ds) h)
