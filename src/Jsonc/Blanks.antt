-- ===== src/Jsonc/Blanks.antt =====
-- Both filters of the JSON-with-comments texts keep every character where it stood.
use zed_codex_acp_cas.Common.{
  ℕ, Bool, true, false, [], ◌∷◌, ◌++◌, Option, none, some, ◌≡◌, subst, ◌≢◌, ◌⊎◌, inl, inr, arith,
  if◌then◌else◌, Bool-cases,
}
use zed_codex_acp_cas.Common.Text.{Text}
use zed_codex_acp_cas.Jsonc.{
  State, Round, CommaState, comment_round, comment_loop, check_closed, strip_json_comments, ok,
  commas_loop, strip_json_trailing_commas,
}

-- The character is kept, or one that is no newline becomes a space.
abbrev pub IsBlank : ℕ → ℕ → Type 0
IsBlank c d = (d ≡ c) ⊎ ((d ≡ b' ') × (c ≢ b'\n'))

-- So at each place, and the texts are equally long.
abbrev pub Blanks : Text → Text → Type 0
Blanks [] [] = Unit
Blanks (c ∷ a) (d ∷ b) = IsBlank c d × Blanks a b
Blanks _ _ = ⊥

Blanks-append : (a b a' b' : Text) → Blanks a b → Blanks a' b' → Blanks (a ++ a') (b ++ b')
Blanks-append [] [] a' b' h k = k
Blanks-append [] (d ∷ b) a' b' h k = absurd h
Blanks-append (c ∷ a) [] a' b' h k = absurd h
Blanks-append (c ∷ a) (d ∷ b) a' b' h k = (h.0, Blanks-append a b a' b' h.1 k)

IsBlank-trans : (c d e : ℕ) → IsBlank c d → IsBlank d e → IsBlank c e
IsBlank-trans c d e h k = ground arith

Blanks-trans : (a b c : Text) → Blanks a b → Blanks b c → Blanks a c
Blanks-trans [] [] [] h k = tt
Blanks-trans [] [] (z ∷ c) h k = absurd k
Blanks-trans [] (y ∷ b) c h k = absurd h
Blanks-trans (x ∷ a) [] c h k = absurd h
Blanks-trans (x ∷ a) (y ∷ b) [] h k = absurd k
Blanks-trans (x ∷ a) (y ∷ b) (z ∷ c) h k = (IsBlank-trans x y z h.0 k.0, Blanks-trans a b c h.1 k.1)

-- One round pushes for what it reads: one character, or that and the next.
abbrev RoundBlanks : ℕ → Option ℕ → Round → Type 0
RoundBlanks ch none r = Blanks (ch ∷ []) r.pushed
RoundBlanks ch (some next) r = Blanks (if r.took_next then ch ∷ next ∷ [] else ch ∷ []) r.pushed

comment_round-RoundBlanks :
    (s : State) (escaped : Bool) (ch : ℕ) (peek : Option ℕ)
    → RoundBlanks ch peek (comment_round s escaped ch peek)
unfolding comment_round
comment_round-RoundBlanks State.normal escaped ch none = ground arith
comment_round-RoundBlanks State.normal escaped ch (some d) = ground arith
comment_round-RoundBlanks State.string escaped ch none = ground arith
comment_round-RoundBlanks State.string escaped ch (some d) = ground arith
comment_round-RoundBlanks State.line_comment escaped ch none = ground arith
comment_round-RoundBlanks State.line_comment escaped ch (some d) = ground arith
comment_round-RoundBlanks State.block_comment escaped ch none = ground arith
comment_round-RoundBlanks State.block_comment escaped ch (some d) = ground arith

comment_loop-Blanks :
    (s : State) (escaped : Bool) (text : Text) → Blanks text (comment_loop s escaped text).0
unfolding comment_loop
comment_loop-Blanks s escaped [] = tt
comment_loop-Blanks s escaped (ch ∷ []) = comment_round-RoundBlanks s escaped ch none
comment_loop-Blanks s escaped (ch ∷ next ∷ rest) =
    let round = comment_round s escaped ch (some next) in
    let here = comment_round-RoundBlanks s escaped ch (some next) in
    let skipping = comment_loop-Blanks round.state round.escaped rest in
    let stepping = comment_loop-Blanks round.state round.escaped (next ∷ rest) in
    elim (Bool-cases round.took_next) [
      | inl took ↦
          rw took (Blanks-append (ch ∷ next ∷ []) round.pushed rest _ (rw took at here) skipping)
      | inr left ↦
          rw left (Blanks-append (ch ∷ []) round.pushed (next ∷ rest) _ (rw left at here) stepping)
    ]

check_closed-ok : (t : Text) (s : State) {out : Text} → check_closed (t, s) ≡ ok out → t ≡ out
check_closed-ok t s h = ground arith

-- Whatever `strip_json_comments` returns is its input with some characters, none of them a
-- newline, replaced by spaces, each in its place.
pub strip_json_comments-Blanks :
    (text out : Text) → strip_json_comments text ≡ ok out → Blanks text out
unfolding strip_json_comments
strip_json_comments-Blanks text out h =
    let (t, s) = comment_loop State.normal false text in
    subst (Blanks text) (check_closed-ok t s h) (comment_loop-Blanks State.normal false text)

commas_loop-Blanks :
    (s : CommaState) (escaped : Bool) (text : Text) → Blanks text (commas_loop s escaped text)
unfolding commas_loop
commas_loop-Blanks CommaState.normal escaped [] = tt
commas_loop-Blanks CommaState.string escaped [] = tt
commas_loop-Blanks CommaState.normal escaped (ch ∷ rest) = ground (
  arith,
  commas_loop-Blanks CommaState.normal escaped rest,
  commas_loop-Blanks CommaState.string escaped rest,
)
commas_loop-Blanks CommaState.string escaped (ch ∷ rest) = ground (
  arith,
  commas_loop-Blanks CommaState.normal escaped rest,
  commas_loop-Blanks CommaState.string false rest,
  commas_loop-Blanks CommaState.string true rest,
)

-- The text that the JSON parser reads has each line, and each column of a line, where the file has
-- it: the two filters together only put spaces in place of characters that are no newlines.
pub filtered-Blanks :
    (text out : Text)
    → strip_json_comments text ≡ ok out
    → Blanks text (strip_json_trailing_commas out)
unfolding strip_json_trailing_commas
filtered-Blanks text out h =
    Blanks-trans text out _ (strip_json_comments-Blanks text out h)
      (commas_loop-Blanks CommaState.normal false out)
