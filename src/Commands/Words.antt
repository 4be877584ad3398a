-- ===== src/Commands/Words.antt =====
-- What the commands read of their words: every command that is read has its arguments in order.
use zed_codex_acp_cas.Common.{
  ℕ, ◌≤◌, Bool, true, false, List, [], ◌∷◌, ◌++◌, Option, none, some, ◌≡◌, refl, length, take, drop,
  is_empty, if◌then◌else◌, subst, arith, All, All-append, Bool-cases, Option-cases, inl, inr,
  >>=-eq-some, ◌==◌, ◌||◌, ltb, length-take, length-append,
}
use zed_codex_acp_cas.Common.Text.{
  Text, codes, text_eq, is_whitespace, trim, strip_prefix, starts_with,
}
use zed_codex_acp_cas.Common.Decimal.{parse_u32}
use zed_codex_acp_cas.Common.Words.{words_from, split_whitespace, join}
use zed_codex_acp_cas.Thread.State.{ModeKind}
use zed_codex_acp_cas.Plan.Parse.{parse_collaboration_mode}
use zed_codex_acp_cas.Commands.{
  DiffScope, last_turn, session, last_n, SessionCommand, init, review, archive, unarchive, compact,
  undo, plan_mode, plan_prompt, fork, rename, status, diff, nonempty, positive_count,
  scope_of_count, if_positive, shorten, diff_tokens, diff_command, parse_diff_args, undo_turns,
  word_command, map_rest, plan_word, plan_command, readings, first_some, slash_command_rest,
  mode_or_prompt, ContentBlock, extract_command_text, parse_session_command, normalize_preview,
}

length-shorten : (t : Text) → length (shorten t) ≤ 120
length-shorten t = elim (Bool-cases (is_empty t)) [
  | inl e ↦ rw e (omega arith)
  | inr n ↦ elim (Bool-cases (ltb 120 (length t))) [
    | inl long ↦
        rw (n, long) (omega (arith, length-take 117 t, length-append (take 117 t) (codes "...")))
    | inr short ↦ rw (n, short) (ground arith)
  ]
]

-- The preview of a thread has at most 120 characters.
pub length-normalize_preview : (preview : Text) → length (normalize_preview preview) ≤ 120
unfolding normalize_preview
length-normalize_preview preview = length-shorten (join (codes " ") (split_whitespace preview))

-- An argument is missing or has a text.
abbrev pub IsArgument : Option Text → Type 0
IsArgument none = Unit
IsArgument (some t) = is_empty t ≡ false

abbrev pub IsScope : DiffScope → Type 0
IsScope last_turn = Unit
IsScope session = Unit
IsScope (last_n count) = 2 ≤ count

-- A command of the form that its handler expects.
abbrev pub IsWellFormed : SessionCommand → Type 0
IsWellFormed (init args) = IsArgument args
IsWellFormed (review instructions) = IsArgument instructions
IsWellFormed (archive thread_id) = IsArgument thread_id
IsWellFormed (unarchive thread_id) = IsArgument thread_id
IsWellFormed compact = Unit
IsWellFormed (undo num_turns) = 1 ≤ num_turns
IsWellFormed (plan_mode raw_value mode) = Unit
IsWellFormed (plan_prompt prompt) = is_empty prompt ≡ false
IsWellFormed (fork args) = IsArgument args
IsWellFormed (rename name) = IsArgument name
IsWellFormed (status args) = IsArgument args
IsWellFormed (diff scope paths) = IsScope scope × All (λ p. is_empty p ≡ false) paths

nonempty-IsArgument : (t : Text) → IsArgument (nonempty t)
nonempty-IsArgument [] = tt
nonempty-IsArgument (c ∷ cs) = refl

words_from-nonempty : (word s : Text) → All (λ w. is_empty w ≡ false) (words_from word s)
unfolding words_from
words_from-nonempty [] [] = tt
words_from-nonempty (w ∷ ws) [] = (refl, tt)
words_from-nonempty [] (c ∷ cs) = elim (Bool-cases (is_whitespace c)) [
  | inl y ↦ rw y (words_from-nonempty [] cs)
  | inr n ↦ rw n (words_from-nonempty (c ∷ []) cs)
]
words_from-nonempty (w ∷ ws) (c ∷ cs) = elim (Bool-cases (is_whitespace c)) [
  | inl y ↦ rw y (refl, words_from-nonempty [] cs)
  | inr n ↦ rw n (words_from-nonempty ((w ∷ ws) ++ c ∷ []) cs)
]

if_positive-positive : (n count : ℕ) → if_positive n ≡ some count → 1 ≤ count
if_positive-positive n count h = ground arith

positive_count-positive : (value : Text) (count : ℕ) → positive_count value ≡ some count → 1 ≤ count
unfolding positive_count
positive_count-positive value count h =
    let parsed = >>=-eq-some (parse_u32 value) if_positive h in
    if_positive-positive parsed.0 count parsed.2

scope_of_count-IsScope : (count : ℕ) → 1 ≤ count → IsScope (scope_of_count count)
scope_of_count-IsScope count h = elim (Bool-cases (count == 1)) [
  | inl y ↦ rw y tt
  | inr n ↦ rw n (ground arith)
]

AreArguments : List Text → Type 0
AreArguments ts = All (λ p. is_empty p ≡ false) ts

diff_tokens-IsWellFormed :
    (scope : DiffScope) (paths tokens : List Text)
    → IsScope scope
    → AreArguments paths
    → AreArguments tokens
    → IsWellFormed (diff_command (diff_tokens scope paths tokens))
unfolding diff_tokens AreArguments
diff_tokens-IsWellFormed scope paths [] hs hp ht = (hs, hp)
diff_tokens-IsWellFormed scope paths (token ∷ []) hs hp ht =
    elim (Bool-cases (text_eq token (codes "--session") || text_eq token (codes "--all"))) [
      | inl y ↦ rw y (tt, hp)
      | inr n ↦ rw n (hs, All-append _ paths (token ∷ []) hp ht)
    ]
diff_tokens-IsWellFormed scope paths (token ∷ next ∷ tokens) hs hp ht =
    let as_path =
      diff_tokens-IsWellFormed scope (paths ++ token ∷ []) (next ∷ tokens) hs
        (All-append _ paths (token ∷ []) hp (ht.0, tt)) ht.1 in
    elim (Bool-cases (text_eq token (codes "--session") || text_eq token (codes "--all"))) [
      | inl y ↦ rw y (diff_tokens-IsWellFormed session paths (next ∷ tokens) tt hp ht.1)
      | inr n ↦ elim (Bool-cases (text_eq token (codes "--last"))) [
        | inl l ↦ elim (Option-cases (positive_count next)) [
          | inl e ↦ rw (n, l, e) as_path
          | inr (count, e) ↦
              rw (n, l, e)
                (diff_tokens-IsWellFormed (scope_of_count count) paths tokens
                  (scope_of_count-IsScope count (positive_count-positive next count e)) hp ht.1.1)
        ]
        | inr k ↦ rw (n, k) as_path
      ]
    ]

undo_turns-positive : (parts : List Text) → 1 ≤ undo_turns parts
unfolding undo_turns
undo_turns-positive [] = omega arith
undo_turns-positive (value ∷ parts) = elim (Option-cases (positive_count value)) [
  | inl e ↦ rw e (omega arith)
  | inr (count, e) ↦ rw e (positive_count-positive value count e)
]

-- What is read, if anything, is well formed.
abbrev IsRead : Option SessionCommand → Type 0
IsRead none = Unit
IsRead (some command) = IsWellFormed command

first_some-IsRead : (rs : List (Option SessionCommand)) → All IsRead rs → IsRead (first_some rs)
unfolding first_some
first_some-IsRead [] h = tt
first_some-IsRead (none ∷ rs) h = first_some-IsRead rs h.1
first_some-IsRead (some command ∷ rs) h = h.0

map_rest-IsRead :
    (f : Text → SessionCommand) (o : Option Text)
    → ((rest : Text) → IsWellFormed (f rest))
    → IsRead (map_rest f o)
map_rest-IsRead f none h = tt
map_rest-IsRead f (some rest) h = h rest

parse_diff_args-IsWellFormed : (rest : Text) → IsWellFormed (parse_diff_args rest)
unfolding parse_diff_args split_whitespace AreArguments
parse_diff_args-IsWellFormed rest =
    diff_tokens-IsWellFormed last_turn [] (words_from [] rest) tt tt (words_from-nonempty [] rest)

word_command-IsRead : (words : List Text) → IsRead (word_command words)
unfolding word_command
word_command-IsRead [] = tt
word_command-IsRead (first ∷ parts) = elim (Bool-cases (text_eq first (codes "/compact"))) [
  | inl y ↦ rw y tt
  | inr n ↦ elim (Bool-cases (text_eq first (codes "/undo"))) [
    | inl y ↦ rw (n, y) (undo_turns-positive parts)
    | inr k ↦ rw (n, k) tt
  ]
]

module _ (to_lowercase : Text → Text) where
  mode_or_prompt-IsWellFormed :
      (rest first : Text) (mode : Option ModeKind)
      → is_empty rest ≡ false
      → IsWellFormed (mode_or_prompt to_lowercase rest first mode)
  mode_or_prompt-IsWellFormed rest first none h = h
  mode_or_prompt-IsWellFormed rest first (some mode) h = tt

  plan_word-IsWellFormed :
      (rest : Text) (words : List Text)
      → is_empty rest ≡ false
      → IsWellFormed (plan_word to_lowercase rest words)
  unfolding plan_word
  plan_word-IsWellFormed rest [] h = h
  plan_word-IsWellFormed rest (first ∷ []) h =
      mode_or_prompt-IsWellFormed rest first (parse_collaboration_mode (to_lowercase first)) h
  plan_word-IsWellFormed rest (first ∷ next ∷ words) h = h

  plan_command-IsWellFormed : (rest : Text) → IsWellFormed (plan_command to_lowercase rest)
  unfolding plan_command
  plan_command-IsWellFormed rest = elim (Bool-cases (is_empty rest)) [
    | inl y ↦ rw y tt
    | inr n ↦ rw n (plan_word-IsWellFormed rest (split_whitespace rest) n)
  ]

  if_plan-IsRead :
      (b : Bool) (rest : Text) → IsRead (if b then some (plan_command to_lowercase rest) else none)
  if_plan-IsRead true rest = plan_command-IsWellFormed rest
  if_plan-IsRead false rest = tt

  readings-IsRead : (text : Text) → All IsRead (readings to_lowercase text)
  unfolding readings
  readings-IsRead text = (
    if_plan-IsRead (text_eq text (codes "/plan") || starts_with (codes "/plan ") text)
        (trim (drop 5 text)),
    (
      map_rest-IsRead (λ rest. rename (nonempty (trim rest))) (strip_prefix (codes "/rename") text)
          (λ rest. nonempty-IsArgument (trim rest)),
      (
        map_rest-IsRead (λ rest. fork (nonempty rest)) (slash_command_rest text (codes "/fork"))
            (λ rest. nonempty-IsArgument rest),
        (
          map_rest-IsRead (λ rest. review (nonempty rest))
              (slash_command_rest text (codes "/review")) (λ rest. nonempty-IsArgument rest),
          (
            map_rest-IsRead (λ rest. init (nonempty rest)) (slash_command_rest text (codes "/init"))
                (λ rest. nonempty-IsArgument rest),
            (
              map_rest-IsRead (λ rest. status (nonempty rest))
                  (slash_command_rest text (codes "/status")) (λ rest. nonempty-IsArgument rest),
              (
                map_rest-IsRead (λ rest. archive (nonempty (trim rest)))
                    (slash_command_rest text (codes "/archive"))
                    (λ rest. nonempty-IsArgument (trim rest)),
                (
                  map_rest-IsRead (λ rest. unarchive (nonempty (trim rest)))
                      (slash_command_rest text (codes "/unarchive"))
                      (λ rest. nonempty-IsArgument (trim rest)),
                  (
                    map_rest-IsRead parse_diff_args (slash_command_rest text (codes "/diff"))
                        parse_diff_args-IsWellFormed,
                    (word_command-IsRead (split_whitespace text), tt),
                  ),
                ),
              ),
            ),
          ),
        ),
      ),
    ),
  )

-- A command that is read of a prompt has the form that its handler expects, whatever the prompt
-- and the lower case of letters: an argument that is given is not empty, `/undo` takes back at
-- least one turn, `/diff` of a number of turns has a number of at least 2 and only paths that are
-- not empty, and the prompt of `/plan` is not empty.
pub parse_session_command-IsWellFormed :
    (to_lowercase : Text → Text) (prompt : List ContentBlock) (command : SessionCommand)
    → parse_session_command to_lowercase prompt ≡ some command
    → IsWellFormed command
unfolding parse_session_command
parse_session_command-IsWellFormed to_lowercase prompt command h =
    let text =
      >>=-eq-some (extract_command_text prompt) (λ t. first_some (readings to_lowercase t)) h in
    subst IsRead text.2
      (first_some-IsRead (readings to_lowercase text.0) (readings-IsRead to_lowercase text.0))
