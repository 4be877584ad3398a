-- ===== src/Common/Words/Joining.antt =====
-- Words that are joined by blanks are split again.
use zed_codex_acp_cas.Common.{
  Bool, true, false, not, List, [], ◌∷◌, ◌++◌, ◌≡◌, refl, ap, ◌∙◌, sym, All, all, is_empty, &&-true,
  arith, append_assoc, append-nil,
}
use zed_codex_acp_cas.Common.Text.{Text, codes, is_whitespace}
use zed_codex_acp_cas.Common.Words.{join, words_from, split_whitespace}

-- A word has a character, and no blank.
abbrev pub IsWord : Text → Type 0
IsWord w = (is_empty w ≡ false) × (all (λ c. not (is_whitespace c)) w ≡ true)

not-true : (b : Bool) → not b ≡ true → b ≡ false
not-true b h = ground arith

words_from-append :
    (word cs rest : Text)
    → all (λ c. not (is_whitespace c)) cs ≡ true
    → words_from word (cs ++ rest) ≡ words_from (word ++ cs) rest
unfolding words_from
words_from-append word [] rest h = ap (λ w. words_from w rest) (sym (append-nil word))
words_from-append [] (c ∷ cs) rest h =
    let parts = &&-true (not (is_whitespace c)) (all (λ d. not (is_whitespace d)) cs) h in
    let solid : is_whitespace c ≡ false = not-true _ parts.0 in
    rw solid (words_from-append (c ∷ []) cs rest parts.1)
words_from-append (w ∷ ws) (c ∷ cs) rest h =
    let parts = &&-true (not (is_whitespace c)) (all (λ d. not (is_whitespace d)) cs) h in
    let solid : is_whitespace c ≡ false = not-true _ parts.0 in
    rw solid (
      words_from-append ((w ∷ ws) ++ c ∷ []) cs rest parts.1
      ∙ ap (λ v. words_from v rest) (append_assoc (w ∷ ws) (c ∷ []) cs))

words_from-end : (w : Text) → is_empty w ≡ false → words_from w [] ≡ w ∷ []
unfolding words_from
words_from-end [] h = cc
words_from-end (c ∷ cs) h = refl

words_from-gap :
    (w s : Text) → is_empty w ≡ false → words_from w (codes " " ++ s) ≡ w ∷ words_from [] s
unfolding words_from
words_from-gap [] s h = cc
words_from-gap (c ∷ cs) s h = refl

-- Words that are joined by blanks are split again.
pub split_whitespace-join :
    (ws : List Text) → All IsWord ws → split_whitespace (join (codes " ") ws) ≡ ws
unfolding split_whitespace join
split_whitespace-join [] h = refl
split_whitespace-join (w ∷ []) h =
    ap (words_from []) (sym (append-nil w))
    ∙ (words_from-append [] w [] h.0.1 ∙ words_from-end w h.0.0)
split_whitespace-join (w ∷ v ∷ ws) h =
    words_from-append [] w (codes " " ++ join (codes " ") (v ∷ ws)) h.0.1
    ∙ (words_from-gap w (join (codes " ") (v ∷ ws)) h.0.0
        ∙ ap (◌∷◌ w) (split_whitespace-join (v ∷ ws) h.1))
