-- ===== src/Approvals/UserInput.antt =====
-- src/thread/features/approvals/user_input.rs: the questions of the backend to the user, asked one
-- after the other, with at most three answers each. What the client answers is a function of the
-- question's place; `none` is the error that ends the request.
pub mod Answers
pub mod Options
use zed_codex_acp_cas.Common.{
  ℕ, ◌+◌, Bool, true, false, ◌&&◌, List, [], ◌∷◌, ◌++◌, Option, none, some, ltb, length, take,
  if◌then◌else◌, is_empty, unwrap_or,
}
use zed_codex_acp_cas.Common.Text.{Text, codes, trim}
use zed_codex_acp_cas.Common.Decimal.{show}
use zed_codex_acp_cas.Common.Maps.{get, put}
use zed_codex_acp_cas.Common.Words.{join}
use zed_codex_acp_cas.Approvals.{
  PermissionOption, allow_once_kind, Outcome, cancelled, selected, other_outcome, none_of_the_above,
}

pub record QuestionOption : Type 0 where
  pub label : Text
  pub description : Text

pub record Question : Type 0 where
  pub id : Text
  pub header : Text
  pub question : Text
  pub is_other : Bool
  pub is_secret : Bool
  pub options : Option (List QuestionOption)

abbrev pub other_option_enabled_for_question : Question → Bool
other_option_enabled_for_question question =
    question.is_other && (if is_empty (unwrap_or question.options []) then false else true)

abbrev pub labels_of : List QuestionOption → List Text
labels_of [] = []
labels_of (o ∷ os) = o.label ∷ labels_of os

unfoldable pub option_line : QuestionOption → Text
unfolding trim
option_line o =
    if is_empty (trim o.description)
    then codes "- " ++ o.label
    else codes "- " ++ (o.label ++ (codes ": " ++ trim o.description))

unfoldable pub lines_of : List QuestionOption → List Text
unfolding option_line
lines_of [] = []
lines_of (o ∷ os) = option_line o ∷ lines_of os

-- Whether the answer that is none of the options is added.
abbrev pub adds_other : Question → Bool
adds_other question =
    other_option_enabled_for_question question
    && ltb (length (labels_of (unwrap_or question.options []))) 3

-- The labels that can be chosen; `truncate(3)` comes last.
abbrev pub answer_labels : Question → List Text
answer_labels question = take 3 (
    labels_of (unwrap_or question.options [])
    ++ (if adds_other question then none_of_the_above ∷ [] else []))

unfoldable pub option_lines : Question → List Text
unfolding lines_of
option_lines question =
    lines_of (unwrap_or question.options [])
    ++ (if adds_other question then (codes "- " ++ none_of_the_above) ∷ [] else [])

unfoldable pub option_id_at : ℕ → Text
unfolding show
option_id_at idx = codes "request-user-input-option-" ++ show (idx + 1)

-- The loop over the labels.
unfoldable pub build_loop :
    ℕ
    → List PermissionOption
    → List (Text × Text)
    → List Text
    → List PermissionOption × List (Text × Text)
unfolding option_id_at put
build_loop idx options by_id [] = (options, by_id)
build_loop idx options by_id (label ∷ labels) =
    build_loop (idx + 1)
      (options
        ++ (record { option_id = option_id_at idx; name = label; kind = allow_once_kind }) ∷ [])
      (put (option_id_at idx) label by_id) labels

unfoldable pub build_request_user_input_permission_options :
    Question → List PermissionOption × List (Text × Text)
unfolding build_loop
build_request_user_input_permission_options question = build_loop 0 [] [] (answer_labels question)

-- What the client is asked.
pub record PermissionRequest : Type 0 where
  pub title : Text
  pub content : List Text
  pub request_options : List PermissionOption

unfoldable pub question_title : ℕ → ℕ → Question → Text
unfolding trim show
question_title question_index total_questions question =
    let place = show (question_index + 1) ++ (codes "/" ++ show total_questions) in
    if is_empty (trim question.header)
    then codes "Plan input " ++ place
    else trim question.header ++ (codes " (" ++ (place ++ codes ")"))

unfoldable pub question_content : Question → List Text
unfolding trim option_lines join
question_content question =
    (if is_empty (trim question.question) then [] else question.question ∷ [])
    ++ ((if is_empty (option_lines question)
          then []
          else (codes "Options:\n" ++ join (codes "\n") (option_lines question)) ∷ [])
        ++ (if question.is_secret then codes "This answer is marked as secret." ∷ [] else []))

unfoldable pub question_request : ℕ → ℕ → Question → PermissionRequest
unfolding question_title question_content build_request_user_input_permission_options
question_request question_index total_questions question = record {
  title = question_title question_index total_questions question;
  content = question_content question;
  request_options = (build_request_user_input_permission_options question).0;
}

module _ (ask : ℕ → PermissionRequest → Option Outcome) (total_questions : ℕ) where
  -- A label that is known is kept as the answer of the question.
  abbrev pub insert_answer : List (Text × Text) → Text → Option Text → List (Text × Text)
  insert_answer answers id none = answers
  insert_answer answers id (some label) = put id label answers

  -- The loop over the questions; `none` is an error of the client.
  unfoldable pub ask_loop : ℕ → List (Text × Text) → List Question → Option (List (Text × Text))
  unfolding build_request_user_input_permission_options question_request get put
  ask_loop question_index answers [] = some answers
  ask_loop question_index answers (question ∷ questions) =
      let by_id = (build_request_user_input_permission_options question).1 in
      let skipped = ask_loop (question_index + 1) answers questions in
      if is_empty by_id
      then skipped
      else elim (ask question_index (question_request question_index total_questions question)) [
        | none ↦ none
        | some cancelled ↦ some answers
        | some other_outcome ↦ some answers
        | some (selected option_id) ↦
            ask_loop (question_index + 1) (insert_answer answers question.id (get option_id by_id))
              questions
      ]

-- The answers that are sent to the backend.
unfoldable pub handle_tool_request_user_input :
    (ℕ → PermissionRequest → Option Outcome) → List Question → Option (List (Text × Text))
unfolding ask_loop
handle_tool_request_user_input ask questions = ask_loop ask (length questions) 0 [] questions
