-- ===== src/Jsonc/Tokens.antt =====
-- What the two filters mean: a file is a row of tokens, and the filters blank its comments and
-- those of its commas that stand before a closing bracket.
pub mod Comments
pub mod Commas
use zed_codex_acp_cas.Common.{
  ℕ, Bool, true, false, not, ◌&&◌, ◌||◌, List, [], ◌∷◌, ◌++◌, ◌≡◌, ◌≢◌, ◌==◌, if◌then◌else◌, map,
  All,
}
use zed_codex_acp_cas.Common.Text.{Text, is_whitespace}

-- A piece of a string: a character for itself, or a backslash and a character.
pub data Piece : Type 0 where
  plain : ℕ → Piece
  escape : ℕ → Piece

-- A token: a character outside strings and comments, a string, a comment up to and with its
-- newline, a comment up to and with its `*/`.
pub data Token : Type 0 where
  char : ℕ → Token
  quoted : List Piece → Token
  line : Text → Token
  block : Text → Token

abbrev pub render_pieces : List Piece → Text
render_pieces [] = []
render_pieces (plain c ∷ ps) = c ∷ render_pieces ps
render_pieces (escape c ∷ ps) = b'\\' ∷ c ∷ render_pieces ps

abbrev pub render : List Token → Text
render [] = []
render (char c ∷ ts) = c ∷ render ts
render (quoted ps ∷ ts) = b'"' ∷ (render_pieces ps ++ b'"' ∷ render ts)
render (line body ∷ ts) = b'/' ∷ b'/' ∷ (body ++ b'\n' ∷ render ts)
render (block body ∷ ts) = b'/' ∷ b'*' ∷ (body ++ b'*' ∷ b'/' ∷ render ts)

abbrev IsPiece : Piece → Type 0
IsPiece (plain c) = (c ≢ b'"') × (c ≢ b'\\')
IsPiece (escape c) = Unit

-- No `*/` stands in the text.
abbrev pub stays_open : Text → Bool
stays_open [] = true
stays_open (c ∷ []) = true
stays_open (c ∷ d ∷ rest) = not (c == b'*' && d == b'/') && stays_open (d ∷ rest)

-- The tokens are what they are read as: a lone character starts no string and no comment.
abbrev pub IsToken : Token → Type 0
IsToken (char c) = (c ≢ b'"') × (c ≢ b'/')
IsToken (quoted ps) = All IsPiece ps
IsToken (line body) = All (λ c. c ≢ b'\n') body
IsToken (block body) = stays_open body ≡ true

abbrev blank_char : ℕ → ℕ
blank_char c = if c == b'\n' then b'\n' else b' '

-- The text without its comments.
abbrev pub uncommented : List Token → Text
uncommented [] = []
uncommented (char c ∷ ts) = c ∷ uncommented ts
uncommented (quoted ps ∷ ts) = b'"' ∷ (render_pieces ps ++ b'"' ∷ uncommented ts)
uncommented (line body ∷ ts) = b' ' ∷ b' ' ∷ (map blank_char body ++ b'\n' ∷ uncommented ts)
uncommented (block body ∷ ts) = b' ' ∷ b' ' ∷ (map blank_char body ++ b' ' ∷ b' ' ∷ uncommented ts)

-- The next token that is no white space and no comment is a closing bracket.
abbrev pub closes : List Token → Bool
closes [] = false
closes (char c ∷ ts) = if is_whitespace c then closes ts else (c == b']' || c == b'}')
closes (quoted ps ∷ ts) = false
closes (line body ∷ ts) = closes ts
closes (block body ∷ ts) = closes ts

-- The text without its comments and without its trailing commas.
abbrev pub plain_json : List Token → Text
plain_json [] = []
plain_json (char c ∷ ts) = (if c == b',' && closes ts then b' ' else c) ∷ plain_json ts
plain_json (quoted ps ∷ ts) = b'"' ∷ (render_pieces ps ++ b'"' ∷ plain_json ts)
plain_json (line body ∷ ts) = b' ' ∷ b' ' ∷ (map blank_char body ++ b'\n' ∷ plain_json ts)
plain_json (block body ∷ ts) = b' ' ∷ b' ' ∷ (map blank_char body ++ b' ' ∷ b' ' ∷ plain_json ts)
