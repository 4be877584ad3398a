-- ===== src/Approvals/UserInput/Options.antt =====
-- The options of a question, and the labels that their ids stand for.
use zed_codex_acp_cas.Common.{
  ℕ, ◌+◌, ◌<◌, false, if◌then◌else◌, or_else, inl, inr, List, [], ◌∷◌, ◌++◌, Option, none, some,
  ◌≡◌, refl, sym, ap, ◌∙◌, drop, is_empty, All, All-append, arith, Bool-cases,
}
use zed_codex_acp_cas.Common.Text.{Text, text_eq, text_eq_iff}
use zed_codex_acp_cas.Common.Decimal.{show, value_from, value-show}
use zed_codex_acp_cas.Common.Maps.{get, put, get-put}
use zed_codex_acp_cas.Approvals.{PermissionOption, allow_once_kind}
use zed_codex_acp_cas.Approvals.UserInput.{
  Question, answer_labels, option_id_at, build_loop, build_request_user_input_permission_options,
}

option_id_at-eq : (i j : ℕ) → option_id_at i ≡ option_id_at j → i ≡ j
unfolding option_id_at
option_id_at-eq i j h =
    let shown : show (i + 1) ≡ show (j + 1) = ap (drop 26) h in
    let same : i + 1 ≡ j + 1 =
      sym (value-show (i + 1)) ∙ (ap (value_from 0) shown ∙ value-show (j + 1)) in
    omega arith

-- An option's id stands for its label.
AreNamed : List (Text × Text) → List PermissionOption → Type 0
AreNamed by_id options = All (λ o. get o.option_id by_id ≡ some o.name) options

-- The options that there are have the ids of earlier places.
AreBelow : ℕ → List PermissionOption → Type 0
AreBelow idx options = All (λ o. (i : ℕ) × (i < idx) × (o.option_id ≡ option_id_at i)) options

AreBelow-suc : (idx : ℕ) (os : List PermissionOption) → AreBelow idx os → AreBelow (idx + 1) os
unfolding AreBelow
AreBelow-suc idx [] h = tt
AreBelow-suc idx (o ∷ os) h = ((h.0.0, omega (arith, h.0.1), h.0.2), AreBelow-suc idx os h.1)

abbrev pub names_of : List PermissionOption → List Text
names_of [] = []
names_of (o ∷ os) = o.name ∷ names_of os

put_nonempty : (k v : Text) (m : List (Text × Text)) → is_empty (put k v m) ≡ false
unfolding put
put_nonempty k v [] = refl
put_nonempty k v ((j, w) ∷ m) = ground arith

build_loop_nonempty :
    (idx : ℕ) (os : List PermissionOption) (by_id : List (Text × Text)) (labels : List Text)
    → is_empty by_id ≡ false
    → is_empty (build_loop idx os by_id labels).1 ≡ false
unfolding build_loop
build_loop_nonempty idx os by_id [] h = h
build_loop_nonempty idx os by_id (label ∷ labels) h =
    build_loop_nonempty (idx + 1) _ (put (option_id_at idx) label by_id) labels
      (put_nonempty (option_id_at idx) label by_id)

none_built : (labels : List Text) → is_empty (build_loop 0 [] [] labels).1 ≡ is_empty labels
unfolding build_loop
none_built [] = refl
none_built (label ∷ labels) =
    build_loop_nonempty 1 _ (put (option_id_at 0) label []) labels
      (put_nonempty (option_id_at 0) label [])

pub or_else-none : {A : Type 0} (o : Option A) → or_else o none ≡ o
or_else-none none = refl
or_else-none (some a) = refl

pub or_else_assoc :
    {A : Type 0} (x y z : Option A) → or_else (or_else x y) z ≡ or_else x (or_else y z)
or_else_assoc none y z = refl
or_else_assoc (some a) y z = refl

pub no_labels :
    (q : Question)
    → is_empty (build_request_user_input_permission_options q).1 ≡ is_empty (answer_labels q)
unfolding build_request_user_input_permission_options
no_labels q = none_built (answer_labels q)

-- The name of the first option with this id.
abbrev pub name_of : Text → List PermissionOption → Option Text
name_of id [] = none
name_of id (o ∷ os) =
    let rest = name_of id os in if text_eq o.option_id id then some o.name else rest

name_of-snoc :
    (id : Text) (os : List PermissionOption) (o : PermissionOption)
    → name_of id (os ++ o ∷ [])
      ≡ or_else (name_of id os) (if text_eq o.option_id id then some o.name else none)
name_of-snoc id [] o = refl
name_of-snoc id (p ∷ os) o = elim (Bool-cases (text_eq p.option_id id)) [
  | inl y ↦ rw y
  | inr n ↦ rw n (name_of-snoc id os o)
]

name_of_next :
    (idx : ℕ) (os : List PermissionOption) → AreBelow idx os → name_of (option_id_at idx) os ≡ none
unfolding AreBelow
name_of_next idx [] h = refl
name_of_next idx (o ∷ os) h = elim (Bool-cases (text_eq o.option_id (option_id_at idx))) [
  | inl y ↦
      let same = option_id_at-eq h.0.0 idx (sym h.0.2 ∙ (text_eq_iff _ _).0 y) in
      absurd (omega (arith, h.0.1))
  | inr n ↦ rw n (name_of_next idx os h.1)
]

-- The map gives each id the name of the option that is shown with it.
get-build_loop :
    (idx : ℕ) (os : List PermissionOption) (by_id : List (Text × Text)) (labels : List Text)
    (k : Text)
    → AreBelow idx os
    → get k by_id ≡ name_of k os
    → get k (build_loop idx os by_id labels).1 ≡ name_of k (build_loop idx os by_id labels).0
unfolding build_loop AreBelow
get-build_loop idx os by_id [] k b h = h
get-build_loop idx os by_id (label ∷ labels) k b h =
    let id = option_id_at idx in
    let o : PermissionOption = record { option_id = id; name = label; kind = allow_once_kind } in
    let grown : get k (put id label by_id) ≡ name_of k (os ++ o ∷ []) =
      elim (Bool-cases (text_eq id k)) [
        | inl y ↦
            let fresh : name_of k os ≡ none =
              rw (← (text_eq_iff id k).0 y) (name_of_next idx os b) in
            rw (get-put id k label by_id, name_of-snoc k os o, y, fresh)
        | inr n ↦
            rw (get-put id k label by_id, name_of-snoc k os o, n, h, or_else-none (name_of k os))
      ] in
    get-build_loop (idx + 1) (os ++ o ∷ []) (put id label by_id) labels k
      (All-append _ os (o ∷ []) (AreBelow-suc idx os b) ((idx, omega arith, refl), tt)) grown

pub get-by_id :
    (q : Question) (k : Text)
    → get k (build_request_user_input_permission_options q).1
      ≡ name_of k (build_request_user_input_permission_options q).0
unfolding build_request_user_input_permission_options AreBelow get
get-by_id q k = get-build_loop 0 [] [] (answer_labels q) k tt refl
