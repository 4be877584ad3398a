-- ===== src/Thread/Turn/Completion.antt =====
-- A turn completes once, and its error is shown once.
use zed_codex_acp_cas.Common.{
  ℕ, ◌+◌, Bool, true, false, List, [], ◌∷◌, Option, none, some, ◌≡◌, refl, arith, if◌then◌else◌,
  Bool-cases, inl, inr, any,
}
use zed_codex_acp_cas.Common.Text.{Text, text_eq, text_eq_iff, trim}
use zed_codex_acp_cas.Thread.Turn.{
  TurnCompletionDisposition, accepted, duplicate, unexpected_turn_id, is_some_id,
  register_turn_completion, record_turn_error_notice,
}

-- The completions that arrive while one turn is expected, in turn.
abbrev pub dispositions : Option Text → Text → List Text → List TurnCompletionDisposition
dispositions last expected [] = []
dispositions last expected (id ∷ ids) =
    let r = register_turn_completion last expected id in r.1 ∷ dispositions r.0 expected ids

abbrev pub is_accepted : TurnCompletionDisposition → Bool
is_accepted accepted = true
is_accepted duplicate = false
is_accepted unexpected_turn_id = false

abbrev pub count_accepted : List TurnCompletionDisposition → ℕ
count_accepted [] = 0
count_accepted (d ∷ ds) = (if is_accepted d then 1 else 0) + count_accepted ds

seen-none :
    (expected : Text) (ids : List Text) (last : Option Text)
    → is_some_id last expected ≡ true
    → count_accepted (dispositions last expected ids) ≡ 0
unfolding register_turn_completion
seen-none expected [] last h = refl
seen-none expected (id ∷ ids) last h =
    ground (arith, text_eq_iff id expected, seen-none expected ids last h)

register-own :
    (last : Option Text) (expected id : Text)
    → text_eq id expected ≡ true
    → is_some_id last expected ≡ false
    → register_turn_completion last expected id ≡ (some id, accepted)
unfolding register_turn_completion
register-own last expected id same h = ground (arith, text_eq_iff id expected)

register-other :
    (last : Option Text) (expected id : Text)
    → text_eq id expected ≡ false
    → register_turn_completion last expected id ≡ (last, unexpected_turn_id)
unfolding register_turn_completion
register-other last expected id other = ground arith

-- Of all completions that arrive for an expected turn that has not completed, exactly one is
-- accepted if the turn's own id is among them, and none otherwise, whatever else arrives.
pub completion_once :
    (last : Option Text) (expected : Text) (ids : List Text)
    → is_some_id last expected ≡ false
    → count_accepted (dispositions last expected ids)
      ≡ (if any (λ id. text_eq id expected) ids then 1 else 0)
completion_once last expected [] h = refl
completion_once last expected (id ∷ ids) h = elim (Bool-cases (text_eq id expected)) [
  | inl same ↦
      rw (register-own last expected id same h, same)
        (omega (arith, seen-none expected ids (some id) same))
  | inr other ↦
      rw (register-other last expected id other, other)
        (omega (arith, completion_once last expected ids h))
]

-- The notices shown for a row of error messages of one turn.
abbrev pub notices : Option (Text × Text) → Text → List Text → List Text
notices last turn_id [] = []
notices last turn_id (m ∷ ms) =
    let r = record_turn_error_notice last turn_id m in
    elim r.1 [ none ↦ notices r.0 turn_id ms | some shown ↦ shown ∷ notices r.0 turn_id ms ]

-- No text stands next to itself.
abbrev pub HasNoRepeat : List Text → Type 0
HasNoRepeat [] = Unit
HasNoRepeat (a ∷ []) = Unit
HasNoRepeat (a ∷ b ∷ rest) = (text_eq a b ≡ false) × HasNoRepeat (b ∷ rest)

notices-repeat :
    (turn_id : Text) (ms : List Text) (shown : Text)
    → HasNoRepeat (shown ∷ notices (some (turn_id, shown)) turn_id ms)
unfolding record_turn_error_notice
notices-repeat turn_id [] shown = tt
notices-repeat turn_id (m ∷ ms) shown = ground (
  arith,
  text_eq_iff turn_id turn_id,
  notices-repeat turn_id ms shown,
  notices-repeat turn_id ms (trim m),
)

-- Of the errors of one turn none is shown twice in a row, whatever notice was shown before.
pub notices-HasNoRepeat :
    (last : Option (Text × Text)) (turn_id : Text) (ms : List Text)
    → HasNoRepeat (notices last turn_id ms)
unfolding record_turn_error_notice
notices-HasNoRepeat last turn_id [] = tt
notices-HasNoRepeat last turn_id (m ∷ ms) =
    ground (arith, notices-HasNoRepeat last turn_id ms, notices-repeat turn_id ms (trim m))
