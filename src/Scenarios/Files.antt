-- ===== src/Scenarios/Files.antt =====
-- A file of preferences with comments and a trailing comma.
use zed_codex_acp_cas.Common.{List, [], ◌∷◌, ◌++◌, All, ◌≡◌, refl, arith}
use zed_codex_acp_cas.Common.Text.{Text, codes}
use zed_codex_acp_cas.Jsonc.{ok, err, unterminated_block_comment, strip_json_comments, comment_loop}
use zed_codex_acp_cas.Jsonc.Tokens.{
  plain, escape, Token, char, quoted, line, block, render, IsToken, plain_json,
}
use zed_codex_acp_cas.Jsonc.Tokens.Comments.{strip_json_comments_unterminated}
use zed_codex_acp_cas.Jsonc.Tokens.Commas.{filtered, filtered-render}

abbrev tokens : List Token
tokens =
    char b'['
    ∷ quoted (escape b'"' ∷ plain b',' ∷ [])
    ∷ char b','
    ∷ line (codes " x")
    ∷ block (codes " y ")
    ∷ char b']'
    ∷ []

tokens-IsToken : All IsToken tokens
tokens-IsToken = ground arith

filtered-render_example : filtered (strip_json_comments (render tokens)) ≡ ok (plain_json tokens)
filtered-render_example = filtered-render tokens tokens-IsToken

strip_json_comments_unterminated_example :
    strip_json_comments (render tokens ++ b'/' ∷ b'*' ∷ codes " z *")
    ≡ err unterminated_block_comment
strip_json_comments_unterminated_example =
    strip_json_comments_unterminated tokens (codes " z *") tokens-IsToken refl

abbrev file : Text
file = codes "[1, // x\n]"

file_stripped : strip_json_comments file ≡ ok (codes "[1,     \n]")
unfolding strip_json_comments comment_loop
file_stripped = refl
