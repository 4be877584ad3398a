-- ===== src/Jsonc/Tokens/Commas.antt =====
-- `strip_json_trailing_commas` over the row of tokens that the other filter leaves.
use zed_codex_acp_cas.Common.{
  ℕ, false, ◌&&◌, List, [], ◌∷◌, ◌++◌, ◌≡◌, refl, ap, ◌∙◌, ◌≢◌, arith, ◌==◌, if◌then◌else◌, map,
  All,
}
use zed_codex_acp_cas.Common.Text.{Text}
use zed_codex_acp_cas.Jsonc.{
  CommaState, Result, ok, closes_next, commas_loop, strip_json_comments, strip_json_trailing_commas,
}
use zed_codex_acp_cas.Jsonc.Tokens.{
  Piece, Token, plain, escape, char, quoted, line, block, render_pieces, render, IsPiece, IsToken,
  blank_char, uncommented, closes, plain_json,
}
use zed_codex_acp_cas.Jsonc.Tokens.Comments.{strip_json_comments-render}

closes_next-blank :
    (body rest : Text) → closes_next (map blank_char body ++ rest) ≡ closes_next rest
unfolding closes_next
closes_next-blank [] rest = refl
closes_next-blank (c ∷ body) rest = ground (arith, closes_next-blank body rest)

closes_next-uncommented : (ts : List Token) → closes_next (uncommented ts) ≡ closes ts
unfolding closes_next
closes_next-uncommented [] = refl
closes_next-uncommented (char c ∷ ts) = ground (arith, closes_next-uncommented ts)
closes_next-uncommented (quoted ps ∷ ts) = refl
closes_next-uncommented (line body ∷ ts) =
    closes_next-blank body (b'\n' ∷ uncommented ts) ∙ closes_next-uncommented ts
closes_next-uncommented (block body ∷ ts) =
    closes_next-blank body (b' ' ∷ b' ' ∷ uncommented ts) ∙ closes_next-uncommented ts

loop-blank :
    (body rest : Text)
    → commas_loop CommaState.normal false (map blank_char body ++ rest)
      ≡ map blank_char body ++ commas_loop CommaState.normal false rest
unfolding commas_loop
loop-blank [] rest = refl
loop-blank (c ∷ body) rest = ground (arith, loop-blank body rest)

loop-quoted :
    (ps : List Piece) (rest : Text)
    → All IsPiece ps
    → commas_loop CommaState.string false (render_pieces ps ++ b'"' ∷ rest)
      ≡ render_pieces ps ++ b'"' ∷ commas_loop CommaState.normal false rest
unfolding commas_loop
loop-quoted [] rest h = refl
loop-quoted (plain c ∷ ps) rest h = ground (arith, loop-quoted ps rest h.1)
loop-quoted (escape c ∷ ps) rest h = ground (arith, loop-quoted ps rest h.1)

loop-char :
    (c : ℕ) (ts : List Token)
    → c ≢ b'"'
    → commas_loop CommaState.normal false (c ∷ uncommented ts)
      ≡ (if c == b',' && closes ts then b' ' else c)
        ∷ commas_loop CommaState.normal false (uncommented ts)
unfolding commas_loop
loop-char c ts h = ground (arith, closes_next-uncommented ts)

loop-uncommented :
    (ts : List Token)
    → All IsToken ts
    → commas_loop CommaState.normal false (uncommented ts) ≡ plain_json ts
unfolding commas_loop
loop-uncommented [] h = refl
loop-uncommented (char c ∷ ts) h =
    loop-char c ts h.0.0
    ∙ ap (◌∷◌ (if c == b',' && closes ts then b' ' else c)) (loop-uncommented ts h.1)
loop-uncommented (quoted ps ∷ ts) h =
    simp (loop-quoted ps (uncommented ts) h.0, loop-uncommented ts h.1)
loop-uncommented (line body ∷ ts) h =
    simp (loop-blank body (b'\n' ∷ uncommented ts), loop-uncommented ts h.1)
loop-uncommented (block body ∷ ts) h =
    simp (loop-blank body (b' ' ∷ b' ' ∷ uncommented ts), loop-uncommented ts h.1)

-- Chained as `parse_selector_preferences_jsonc` chains them.
abbrev pub filtered : Result Text → Result Text
filtered (ok t) = ok (strip_json_trailing_commas t)
filtered e = e

-- The two filters, one behind the other, turn a row of tokens into the same row with the comments
-- blanked, and with each comma blanked whose next token past white space and comments is a closing
-- bracket; strings, and so the commas, slashes and brackets in them, stay as they are.
pub filtered-render :
    (ts : List Token)
    → All IsToken ts
    → filtered (strip_json_comments (render ts)) ≡ ok (plain_json ts)
unfolding strip_json_trailing_commas
filtered-render ts h = rw (strip_json_comments-render ts h) (ap ok (loop-uncommented ts h))
