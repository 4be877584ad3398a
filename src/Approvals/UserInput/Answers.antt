-- ===== src/Approvals/UserInput/Answers.antt =====
-- The answers that are sent are those that the user gives.
use zed_codex_acp_cas.Common.{
  ℕ, ◌+◌, if◌then◌else◌, or_else, inl, inr, List, [], ◌∷◌, Option, none, some, ◌≡◌, sym, ap, ◌∙◌,
  length, is_empty, Bool-cases, Option-cases, some-eq,
}
use zed_codex_acp_cas.Common.Text.{Text, text_eq}
use zed_codex_acp_cas.Common.Maps.{get, get-put}
use zed_codex_acp_cas.Approvals.{Outcome, cancelled, selected, other_outcome}
use zed_codex_acp_cas.Approvals.UserInput.{
  Question, answer_labels, build_request_user_input_permission_options, PermissionRequest,
  question_request, insert_answer, ask_loop, handle_tool_request_user_input,
}
use zed_codex_acp_cas.Approvals.UserInput.Options.{
  name_of, get-by_id, no_labels, or_else-none, or_else_assoc,
}

module _ (ask : ℕ → PermissionRequest → Option Outcome) (total_questions : ℕ) where
  -- What the user answers to the questions from this place on under an id: the name of the shown
  -- option that is selected, in the last question of this id at which there is one. A question that
  -- offers nothing is not asked, and behind one at which nothing is selected none is.
  unfoldable pub user_answer : ℕ → Text → List Question → Option Text
  unfolding question_request
  user_answer idx id [] = none
  user_answer idx id (q ∷ qs) =
      let request = question_request idx total_questions q in
      let later = user_answer (idx + 1) id qs in
      if is_empty (answer_labels q) then later else elim (ask idx request) [
        | none ↦ none
        | some cancelled ↦ none
        | some other_outcome ↦ none
        | some (selected option_id) ↦
            or_else later
              (if text_eq q.id id then name_of option_id request.request_options else none)
      ]

  get-insert_answer :
      (answers : List (Text × Text)) (q : Question) (chosen : Option Text) (id : Text)
      → get id (insert_answer ask total_questions answers q.id chosen)
        ≡ or_else (if text_eq q.id id then chosen else none) (get id answers)
  get-insert_answer answers q none id = elim (Bool-cases (text_eq q.id id)) [
    | inl y ↦ rw y
    | inr n ↦ rw n
  ]
  get-insert_answer answers q (some l) id = elim (Bool-cases (text_eq q.id id)) [
    | inl y ↦ rw (get-put q.id id l answers, y)
    | inr n ↦ rw (get-put q.id id l answers, n)
  ]

  get-ask_loop :
      (idx : ℕ) (answers : List (Text × Text)) (qs : List Question) (result : List (Text × Text))
      (id : Text)
      → ask_loop ask total_questions idx answers qs ≡ some result
      → get id result ≡ or_else (user_answer idx id qs) (get id answers)
  unfolding ask_loop user_answer question_request
  get-ask_loop idx answers [] result id h = ap (get id) (sym (some-eq h))
  get-ask_loop idx answers (q ∷ qs) result id h =
      let built = build_request_user_input_permission_options q in
      let request = question_request idx total_questions q in
      elim (Bool-cases (is_empty built.1)) [
        | inl y ↦ rw (← no_labels q, y) (get-ask_loop (idx + 1) answers qs result id (rw y at h))
        | inr n ↦ elim (Option-cases (ask idx request)) [
          | inl e ↦ let never : none ≡ some result = rw (n, e) at h in cc
          | inr (cancelled, e) ↦
              let same : some answers ≡ some result = rw (n, e) at h in
              rw (← no_labels q, n, e, some-eq same)
          | inr (other_outcome, e) ↦
              let same : some answers ≡ some result = rw (n, e) at h in
              rw (← no_labels q, n, e, some-eq same)
          | inr (selected option_id, e) ↦
              let chosen = get option_id built.1 in
              let run = rw (n, e) at h in
              let rest =
                get-ask_loop (idx + 1) (insert_answer ask total_questions answers q.id chosen) qs
                  result id run in
              rw
                (
                  ← no_labels q,
                  n,
                  e,
                  rest,
                  get-insert_answer answers q chosen id,
                  get-by_id q option_id,
                )
                (sym (
                  or_else_assoc (user_answer (idx + 1) id qs)
                    (if text_eq q.id id then name_of option_id built.0 else none) (get id answers)))
        ]
      ]

-- What is sent to the backend under an id is what the user answers under it: the name of the shown
-- option that the client selects, in the last question of this id at which it selects one that is
-- shown, and nothing if there is no such question. A question that offers nothing is not asked; one
-- that is cancelled or answered with an outcome that is not known gives no answer and is the last
-- that is asked.
pub get-handle_tool_request_user_input :
    (ask : ℕ → PermissionRequest → Option Outcome) (questions : List Question)
    (answers : List (Text × Text)) (id : Text)
    → handle_tool_request_user_input ask questions ≡ some answers
    → get id answers ≡ user_answer ask (length questions) 0 id questions
unfolding handle_tool_request_user_input get
get-handle_tool_request_user_input ask questions answers id h =
    get-ask_loop ask (length questions) 0 [] questions answers id h
    ∙ or_else-none (user_answer ask (length questions) 0 id questions)
