-- ===== src/Commands/Diff.antt =====
-- The arguments of `/diff`, written and read.
use zed_codex_acp_cas.Common.{
  ℕ, ◌≤◌, ◌<◌, ◌^◌, Bool, true, false, not, ◌||◌, List, [], ◌∷◌, ◌++◌, some, ◌≡◌, refl, sym, ap,
  ◌∙◌, all, All, All-append, arith, append_assoc, append-nil, ◌>>=◌, &&-true,
}
use zed_codex_acp_cas.Common.Text.{Text, codes, text_eq, is_whitespace, is_ascii_digit}
use zed_codex_acp_cas.Common.Decimal.{show}
use zed_codex_acp_cas.Common.Decimal.Reading.{show-digits, show-is_empty, parse_unsigned-show}
use zed_codex_acp_cas.Common.Words.{join}
use zed_codex_acp_cas.Common.Words.Joining.{IsWord, split_whitespace-join}
use zed_codex_acp_cas.Commands.{
  DiffScope, last_turn, session, last_n, diff, if_positive, positive_count, scope_of_count,
  diff_tokens, diff_command, parse_diff_args,
}

-- The words that ask for a scope.
abbrev pub scope_words : DiffScope → List Text
scope_words last_turn = []
scope_words session = codes "--session" ∷ []
scope_words (last_n count) = codes "--last" ∷ show count ∷ []

abbrev pub is_option : Text → Bool
is_option t =
    (text_eq t (codes "--session") || text_eq t (codes "--all")) || text_eq t (codes "--last")

-- A path that `/diff` takes as one: a word that is none of its options.
abbrev pub IsPath : Text → Type 0
IsPath p = IsWord p × (is_option p ≡ false)

-- A scope that `/diff` can ask for: a number of turns is at least 2 and a `u32`.
abbrev pub IsAsked : DiffScope → Type 0
IsAsked last_turn = Unit
IsAsked session = Unit
IsAsked (last_n count) = (2 ≤ count) × (count < 2 ^ 32)

||-false : (a b : Bool) → (a || b) ≡ false → (a ≡ false) × (b ≡ false)
||-false a b h = ground arith

not_option :
    (t : Text)
    → is_option t ≡ false
    → ((text_eq t (codes "--session") || text_eq t (codes "--all")) ≡ false)
      × (text_eq t (codes "--last") ≡ false)
not_option t h = ||-false (text_eq t (codes "--session") || text_eq t (codes "--all")) _ h

-- Paths are taken as they are.
diff_tokens-paths :
    (scope : DiffScope) (paths later : List Text)
    → All IsPath later
    → diff_tokens scope paths later ≡ (scope, paths ++ later)
unfolding diff_tokens
diff_tokens-paths scope paths [] h = ap (λ (p : List Text). (scope, p)) (sym (append-nil paths))
diff_tokens-paths scope paths (p ∷ []) h = rw (not_option p h.0.1).0
diff_tokens-paths scope paths (p ∷ q ∷ later) h =
    let tests = not_option p h.0.1 in
    rw (tests.0, tests.1)
      (diff_tokens-paths scope (paths ++ p ∷ []) (q ∷ later) h.1
        ∙ ap (λ (ps : List Text). (scope, ps)) (append_assoc paths (p ∷ []) (q ∷ later)))

if_positive_lem : (count : ℕ) → 2 ≤ count → if_positive count ≡ some count
if_positive_lem count l = ground arith

positive_count-show :
    (count : ℕ) → 2 ≤ count → count < 2 ^ 32 → positive_count (show count) ≡ some count
unfolding positive_count
positive_count-show count l h =
    ap (λ o. o >>= if_positive) (parse_unsigned-show (2 ^ 32) count h) ∙ if_positive_lem count l

scope_of_count_lem : (count : ℕ) → 2 ≤ count → scope_of_count count ≡ last_n count
scope_of_count_lem count l = ground arith

diff_tokens-scope_words :
    (scope : DiffScope) (paths : List Text)
    → IsAsked scope
    → All IsPath paths
    → diff_tokens last_turn [] (scope_words scope ++ paths) ≡ (scope, paths)
unfolding diff_tokens
diff_tokens-scope_words last_turn paths a h = diff_tokens-paths last_turn [] paths h
diff_tokens-scope_words session [] a h = refl
diff_tokens-scope_words session (p ∷ paths) a h = diff_tokens-paths session [] (p ∷ paths) h
diff_tokens-scope_words (last_n count) paths a h =
    rw (positive_count-show count a.0 a.1, scope_of_count_lem count a.0)
      (diff_tokens-paths (last_n count) [] paths h)

digit-solid : (c : ℕ) → is_ascii_digit c ≡ true → not (is_whitespace c) ≡ true
digit-solid c h = ground arith

digits-solid :
    (cs : Text) → all is_ascii_digit cs ≡ true → all (λ c. not (is_whitespace c)) cs ≡ true
digits-solid [] h = refl
digits-solid (c ∷ cs) h =
    let parts = &&-true (is_ascii_digit c) (all is_ascii_digit cs) h in
    rw (digit-solid c parts.0, digits-solid cs parts.1)

scope_words-IsWord : (scope : DiffScope) → All IsWord (scope_words scope)
scope_words-IsWord last_turn = tt
scope_words-IsWord session = ((refl, refl), tt)
scope_words-IsWord (last_n count) =
    ((refl, refl), ((show-is_empty count, digits-solid (show count) (show-digits count)), tt))

paths-IsWord : (paths : List Text) → All IsPath paths → All IsWord paths
paths-IsWord [] h = tt
paths-IsWord (p ∷ paths) h = (h.0.0, paths-IsWord paths h.1)

-- The arguments of `/diff` that ask for a scope and for paths, written as words with blanks
-- between them, are read as that scope and those paths: the last turn, the session, or a number of
-- turns from 2 to the largest `u32`, and paths that are words and none of the options.
pub parse_diff_args-join :
    (scope : DiffScope) (paths : List Text)
    → IsAsked scope
    → All IsPath paths
    → parse_diff_args (join (codes " ") (scope_words scope ++ paths)) ≡ diff scope paths
unfolding parse_diff_args
parse_diff_args-join scope paths a h =
    let words = scope_words scope ++ paths in
    ap (λ ws. diff_command (diff_tokens last_turn [] ws))
      (split_whitespace-join words (
        All-append IsWord (scope_words scope) paths (scope_words-IsWord scope)
          (paths-IsWord paths h)))
    ∙ ap diff_command (diff_tokens-scope_words scope paths a h)
