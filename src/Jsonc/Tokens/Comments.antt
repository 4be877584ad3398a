-- ===== src/Jsonc/Tokens/Comments.antt =====
-- `strip_json_comments` over a row of tokens: a lemma for each stretch of the loop's states.
use zed_codex_acp_cas.Common.{
  ℕ, true, false, List, [], ◌∷◌, ◌++◌, ◌≡◌, refl, ap, ◌∙◌, ◌≢◌, arith, map, append-nil,
  append_assoc, All,
}
use zed_codex_acp_cas.Common.Text.{Text}
use zed_codex_acp_cas.Jsonc.{
  State, comment_loop, check_closed, strip_json_comments, ok, err, unterminated_block_comment,
}
use zed_codex_acp_cas.Jsonc.Tokens.{
  Piece, Token, plain, escape, char, quoted, line, block, render_pieces, render, IsPiece, IsToken,
  stays_open, blank_char, uncommented,
}

abbrev prefix : Text → Text × State → Text × State
prefix a r = (a ++ r.0, r.1)

-- One character that starts nothing.
loop-char :
    (c : ℕ) (rest : Text)
    → c ≢ b'"'
    → c ≢ b'/'
    → comment_loop State.normal false (c ∷ rest)
      ≡ prefix (c ∷ []) (comment_loop State.normal false rest)
unfolding comment_loop
loop-char c [] h k = ground arith
loop-char c (d ∷ rest) h k = ground arith

loop-quote :
    (rest : Text)
    → comment_loop State.normal false (b'"' ∷ rest)
      ≡ prefix (b'"' ∷ []) (comment_loop State.string false rest)
unfolding comment_loop
loop-quote [] = refl
loop-quote (d ∷ rest) = refl

loop-close :
    (rest : Text)
    → comment_loop State.string false (b'"' ∷ rest)
      ≡ prefix (b'"' ∷ []) (comment_loop State.normal false rest)
unfolding comment_loop
loop-close [] = refl
loop-close (d ∷ rest) = refl

loop-plain :
    (c : ℕ) (rest : Text)
    → c ≢ b'"'
    → c ≢ b'\\'
    → comment_loop State.string false (c ∷ rest)
      ≡ prefix (c ∷ []) (comment_loop State.string false rest)
unfolding comment_loop
loop-plain c [] h k = ground arith
loop-plain c (d ∷ rest) h k = ground arith

loop-escape :
    (c : ℕ) (rest : Text)
    → comment_loop State.string false (b'\\' ∷ c ∷ rest)
      ≡ prefix (b'\\' ∷ c ∷ []) (comment_loop State.string false rest)
unfolding comment_loop
loop-escape c [] = ground arith
loop-escape c (d ∷ rest) = ground arith

loop-line_start :
    (rest : Text)
    → comment_loop State.normal false (b'/' ∷ b'/' ∷ rest)
      ≡ prefix (b' ' ∷ b' ' ∷ []) (comment_loop State.line_comment false rest)
unfolding comment_loop
loop-line_start rest = refl

loop-block_start :
    (rest : Text)
    → comment_loop State.normal false (b'/' ∷ b'*' ∷ rest)
      ≡ prefix (b' ' ∷ b' ' ∷ []) (comment_loop State.block_comment false rest)
unfolding comment_loop
loop-block_start rest = refl

loop-line :
    (body rest : Text)
    → All (λ c. c ≢ b'\n') body
    → comment_loop State.line_comment false (body ++ b'\n' ∷ rest)
      ≡ prefix (map blank_char body ++ b'\n' ∷ []) (comment_loop State.normal false rest)
unfolding comment_loop
loop-line [] [] h = refl
loop-line [] (d ∷ rest) h = refl
loop-line (c ∷ []) rest h = ground (arith, loop-line [] rest tt)
loop-line (c ∷ d ∷ body) rest h = ground (arith, loop-line (d ∷ body) rest h.1)

loop-block :
    (body rest : Text)
    → stays_open body ≡ true
    → comment_loop State.block_comment false (body ++ b'*' ∷ b'/' ∷ rest)
      ≡ prefix (map blank_char body ++ b' ' ∷ b' ' ∷ []) (comment_loop State.normal false rest)
unfolding comment_loop
loop-block [] [] h = refl
loop-block [] (d ∷ rest) h = refl
loop-block (c ∷ []) rest h = ground (arith, loop-block [] rest refl)
loop-block (c ∷ d ∷ body) rest h = ground (arith, loop-block (d ∷ body) rest)

loop-open :
    (body : Text)
    → stays_open body ≡ true
    → (comment_loop State.block_comment false body).1 ≡ State.block_comment
unfolding comment_loop
loop-open [] h = refl
loop-open (c ∷ []) h = ground arith
loop-open (c ∷ d ∷ body) h = ground (arith, loop-open (d ∷ body))

loop-pieces :
    (ps : List Piece) (rest : Text)
    → All IsPiece ps
    → comment_loop State.string false (render_pieces ps ++ rest)
      ≡ prefix (render_pieces ps) (comment_loop State.string false rest)
loop-pieces [] rest h = refl
loop-pieces (plain c ∷ ps) rest h =
    loop-plain c (render_pieces ps ++ rest) h.0.0 h.0.1
    ∙ ap (prefix (c ∷ [])) (loop-pieces ps rest h.1)
loop-pieces (escape c ∷ ps) rest h =
    loop-escape c (render_pieces ps ++ rest)
    ∙ ap (prefix (b'\\' ∷ c ∷ [])) (loop-pieces ps rest h.1)

loop-render :
    (ts : List Token) (rest : Text)
    → All IsToken ts
    → comment_loop State.normal false (render ts ++ rest)
      ≡ prefix (uncommented ts) (comment_loop State.normal false rest)
loop-render [] rest h = refl
loop-render (char c ∷ ts) rest h =
    loop-char c (render ts ++ rest) h.0.0 h.0.1 ∙ ap (prefix (c ∷ [])) (loop-render ts rest h.1)
loop-render (quoted ps ∷ ts) rest h = simp (
  append_assoc,
  loop-quote,
  loop-pieces ps (b'"' ∷ (render ts ++ rest)) h.0,
  loop-close,
  loop-render ts rest h.1,
)
loop-render (line body ∷ ts) rest h =
    simp (
      append_assoc,
      loop-line_start,
      loop-line body (render ts ++ rest) h.0,
      loop-render ts rest h.1,
    )
loop-render (block body ∷ ts) rest h = simp (
  append_assoc,
  loop-block_start,
  loop-block body (render ts ++ rest) h.0,
  loop-render ts rest h.1,
)

check_closed-open :
    (t : Text) (s : State)
    → s ≡ State.block_comment
    → check_closed (t, s) ≡ err unterminated_block_comment
check_closed-open t s h = ground arith

-- On a row of tokens `strip_json_comments` succeeds, and blanks the comments and nothing else.
pub strip_json_comments-render :
    (ts : List Token) → All IsToken ts → strip_json_comments (render ts) ≡ ok (uncommented ts)
unfolding strip_json_comments comment_loop
strip_json_comments-render ts h =
    let whole : comment_loop State.normal false (render ts) ≡ (uncommented ts, State.normal) =
      rw (append-nil (render ts), append-nil (uncommented ts)) at (loop-render ts [] h) in
    ap check_closed whole

-- A file that ends inside a block comment is refused, whatever tokens stand before the comment.
pub strip_json_comments_unterminated :
    (ts : List Token) (body : Text)
    → All IsToken ts
    → stays_open body ≡ true
    → strip_json_comments (render ts ++ b'/' ∷ b'*' ∷ body) ≡ err unterminated_block_comment
unfolding strip_json_comments
strip_json_comments_unterminated ts body h o =
    rw (loop-render ts (b'/' ∷ b'*' ∷ body) h, loop-block_start)
      (check_closed-open _ _ (loop-open body o))
