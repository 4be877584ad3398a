-- ===== src/Jsonc.antt =====
-- src/thread/session/selector_preferences/jsonc.rs and src/thread/session/display_maps/jsonc.rs:
-- the two filters that turn a JSON text with comments and trailing commas into plain JSON. Both
-- files hold the same two functions, up to the words of one error.
--
-- `chars.peek()` is the head of what is not yet read. Each filter is its loop's body as a function
-- of one character and what follows it, and the loop over it; what the source pushes to `output`
-- stands in front of what the rest of the loop pushes.
pub mod Blanks
pub mod Tokens
use zed_codex_acp_cas.Common.{
  ℕ, Bool, true, false, ◌&&◌, ◌||◌, List, [], ◌∷◌, ◌++◌, Option, none, some, ◌==◌, if◌then◌else◌,
}
use zed_codex_acp_cas.Common.Text.{Text, is_whitespace}

pub data State : Type 0 where
  normal string line_comment block_comment : State

-- The error of an unterminated block comment, the only one of `strip_json_comments`.
pub data Error : Type 0 where
  unterminated_block_comment : Error

pub data Result {ℓ} (A : Type ℓ) : Type ℓ where
  ok : A → Result A
  err : Error → Result A

-- What one round of the loop does: the characters pushed, the new values of `state` and `escaped`,
-- and whether it called `chars.next()` once more.
pub record Round : Type 0 where
  pub pushed : Text
  pub state : State
  pub escaped : Bool
  pub took_next : Bool

-- `chars.peek() == Some(&d)`.
abbrev pub peeks : Option ℕ → ℕ → Bool
peeks none d = false
peeks (some c) d = c == d

abbrev keep : ℕ → State → Bool → Round
keep ch s escaped = record { pushed = ch ∷ []; state = s; escaped = escaped; took_next = false }

abbrev two_blanks : State → Bool → Round
two_blanks s escaped = record {
  pushed = b' ' ∷ b' ' ∷ [];
  state = s;
  escaped = escaped;
  took_next = true;
}

-- The arm `State::String`, the same in both filters.
abbrev pub in_string : Bool → ℕ → Round
in_string escaped ch =
    if escaped
    then keep ch string false
    else if ch == b'\\'
    then keep ch string true
    else if ch == b'"'
    then keep ch normal escaped
    else keep ch string escaped

-- The body of the loop of `strip_json_comments`.
unfoldable pub comment_round : State → Bool → ℕ → Option ℕ → Round
comment_round normal escaped ch peek =
    if ch == b'"'
    then keep ch string escaped
    else if ch == b'/' && peeks peek b'/'
    then two_blanks line_comment escaped
    else if ch == b'/' && peeks peek b'*'
    then two_blanks block_comment escaped
    else keep ch normal escaped
comment_round string escaped ch peek = in_string escaped ch
comment_round line_comment escaped ch peek =
    if ch == b'\n' then keep b'\n' normal escaped else keep b' ' line_comment escaped
comment_round block_comment escaped ch peek =
    if ch == b'*' && peeks peek b'/'
    then two_blanks normal escaped
    else if ch == b'\n'
    then keep b'\n' block_comment escaped
    else keep b' ' block_comment escaped

-- The loop of `strip_json_comments`: what it pushes, and the state that it ends in. Only a round
-- that sees a next character takes it.
unfoldable pub comment_loop : State → Bool → Text → Text × State
unfolding comment_round
comment_loop s escaped [] = ([], s)
comment_loop s escaped (ch ∷ []) =
    let round = comment_round s escaped ch none in (round.pushed, round.state)
comment_loop s escaped (ch ∷ next ∷ rest) =
    let round = comment_round s escaped ch (some next) in
    let skipping = comment_loop round.state round.escaped rest in
    let stepping = comment_loop round.state round.escaped (next ∷ rest) in
    let later = if round.took_next then skipping else stepping in (round.pushed ++ later.0, later.1)

-- The check behind the loop.
abbrev pub check_closed : Text × State → Result Text
check_closed (output, block_comment) = err unterminated_block_comment
check_closed (output, normal) = ok output
check_closed (output, string) = ok output
check_closed (output, line_comment) = ok output

unfoldable pub strip_json_comments : Text → Result Text
strip_json_comments input = check_closed (comment_loop normal false input)

-- The look-ahead of `strip_json_trailing_commas`: past white space stands a closing bracket.
unfoldable pub closes_next : Text → Bool
closes_next [] = false
closes_next (c ∷ cs) = if is_whitespace c then closes_next cs else (c == b']' || c == b'}')

-- The states of `strip_json_trailing_commas`.
pub data CommaState : Type 0 where
  normal string : CommaState

-- The loop of `strip_json_trailing_commas`.
pub commas_loop : CommaState → Bool → Text → Text
unfolding closes_next
commas_loop s escaped [] = []
commas_loop normal escaped (ch ∷ rest) =
    let quoted = commas_loop string escaped rest in
    let plain = commas_loop normal escaped rest in
    if ch == b'"'
    then ch ∷ quoted
    else if ch == b','
    then (if closes_next rest then b' ' else ch) ∷ plain
    else ch ∷ plain
commas_loop string escaped (ch ∷ rest) =
    let plain = commas_loop string false rest in
    let escape = commas_loop string true rest in
    let closed = commas_loop normal escaped rest in
    ch
    ∷ (if escaped
        then plain
        else if ch == b'\\'
        then escape
        else if ch == b'"'
        then closed
        else plain)

unfoldable pub strip_json_trailing_commas : Text → Text
unfolding commas_loop
strip_json_trailing_commas input = commas_loop normal false input
