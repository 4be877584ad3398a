-- ===== src/TurnDiff/History.antt =====
-- The diffs of past turns: few, one for each turn, the newest always there.
use zed_codex_acp_cas.Common.{
  ℕ, zero, suc, ◌+◌, ◌-◌, ◌≤◌, true, false, List, [], ◌∷◌, ◌++◌, Option, none, some, ◌≡◌, refl,
  subst, ap, ◌∙◌, arith, if◌then◌else◌, length, length-snoc, drop, Option-cases, Bool-cases, inl,
  inr,
}
use zed_codex_acp_cas.Common.Text.{Text, text_eq, text_eq_iff}
use zed_codex_acp_cas.Thread.State.{ThreadInner, TurnDiffRecord}
use zed_codex_acp_cas.TurnDiff.{
  turn_diff_history_limit, update_existing, push_bounded, record_turn_diff,
}

-- How many entries a turn has.
abbrev pub entries : Text → List TurnDiffRecord → ℕ
entries turn_id [] = 0
entries turn_id (r ∷ rs) =
    if text_eq r.turn_id turn_id then suc (entries turn_id rs) else entries turn_id rs

-- The diff that is kept for a turn.
abbrev pub find_diff : Text → List TurnDiffRecord → Option Text
find_diff turn_id [] = none
find_diff turn_id (r ∷ rs) =
    if text_eq r.turn_id turn_id then some r.unified_diff else find_diff turn_id rs

-- Few entries, and at most one for each turn.
abbrev pub IsHistory : List TurnDiffRecord → Type 0
IsHistory h = (length h ≤ turn_diff_history_limit) × ((turn_id : Text) → entries turn_id h ≤ 1)

entries-snoc :
    (id : Text) (rs : List TurnDiffRecord) (r : TurnDiffRecord)
    → entries id (rs ++ r ∷ []) ≡ entries id rs + (if text_eq r.turn_id id then 1 else 0)
entries-snoc id [] r = ground arith
entries-snoc id (x ∷ xs) r = ground (arith, entries-snoc id xs r)

entries-drop :
    (id : Text) (n : ℕ) (rs : List TurnDiffRecord) → entries id (drop n rs) ≤ entries id rs
entries-drop id zero rs = omega arith
entries-drop id (suc n) [] = omega arith
entries-drop id (suc n) (x ∷ xs) = ground (arith, entries-drop id n xs)

length-drop_le : (n : ℕ) (rs : List TurnDiffRecord) → length (drop n rs) ≡ length rs - n
length-drop_le zero rs = omega arith
length-drop_le (suc n) [] = omega arith
length-drop_le (suc n) (x ∷ xs) = omega (arith, length-drop_le n xs)

drop-snoc :
    (n : ℕ) (rs : List TurnDiffRecord) (r : TurnDiffRecord)
    → n ≤ length rs
    → drop n (rs ++ r ∷ []) ≡ drop n rs ++ r ∷ []
drop-snoc zero rs r le = refl
drop-snoc (suc n) [] r le = absurd (omega (arith, le))
drop-snoc (suc n) (x ∷ xs) r le = drop-snoc n xs r (omega arith)

find_diff-snoc :
    (id : Text) (rs : List TurnDiffRecord) (r : TurnDiffRecord)
    → entries id rs ≡ 0
    → text_eq r.turn_id id ≡ true
    → find_diff id (rs ++ r ∷ []) ≡ some r.unified_diff
find_diff-snoc id [] r none_there own = ground arith
find_diff-snoc id (x ∷ xs) r none_there own = ground (arith, find_diff-snoc id xs r)

-- An update keeps the entries of each turn, and is found.
module _ (turn_id : Text) (now : ℕ) (diff : Text) where
  abbrev IsUpdate : List TurnDiffRecord → List TurnDiffRecord → Type 0
  IsUpdate rs us =
      (length us ≡ length rs)
      × ((id : Text) → entries id us ≡ entries id rs)
      × (find_diff turn_id us ≡ some diff)

  cons-IsUpdate :
      (x : TurnDiffRecord) (rs us : List TurnDiffRecord)
      → text_eq x.turn_id turn_id ≡ false
      → IsUpdate rs us
      → IsUpdate (x ∷ rs) (x ∷ us)
  cons-IsUpdate x rs us other (len, same, found) =
      (ap suc len, λ id. ground (arith, same id), ground arith)

  update_existing-IsUpdate :
      (rs us : List TurnDiffRecord) → update_existing turn_id now diff rs ≡ some us → IsUpdate rs us
  unfolding update_existing
  update_existing-IsUpdate [] us h = ground arith
  update_existing-IsUpdate (x ∷ xs) us h = elim (Bool-cases (text_eq x.turn_id turn_id)) [
    | inl own ↦
        let e : (record x { recorded_at = now; unified_diff = diff }) ∷ xs ≡ us = ground arith in
        subst (IsUpdate (x ∷ xs)) e (refl, λ id. refl, ground (arith, own))
    | inr other ↦ elim (Option-cases (update_existing turn_id now diff xs)) [
      | inl missing ↦ ground arith
      | inr (vs, e) ↦
          let same : x ∷ vs ≡ us = ground (arith, e, other) in
          subst (IsUpdate (x ∷ xs)) same
            (cons-IsUpdate x xs vs other (update_existing-IsUpdate xs vs e))
    ]
  ]

  update_existing-none :
      (rs : List TurnDiffRecord)
      → update_existing turn_id now diff rs ≡ none
      → entries turn_id rs ≡ 0
  unfolding update_existing
  update_existing-none [] h = refl
  update_existing-none (x ∷ xs) h = elim (Option-cases (update_existing turn_id now diff xs)) [
    | inl e ↦ ground (arith, e, update_existing-none xs e)
    | inr (vs, e) ↦ ground (arith, e)
  ]

overflow_le :
    (rs : List TurnDiffRecord) (r : TurnDiffRecord)
    → length (rs ++ r ∷ []) - turn_diff_history_limit ≤ length rs
overflow_le rs r = omega (arith, length-snoc rs r)

entries-push_bounded :
    (id : Text) (rs : List TurnDiffRecord) (r : TurnDiffRecord)
    → entries id (push_bounded rs r) ≤ entries id rs + (if text_eq r.turn_id id then 1 else 0)
entries-push_bounded id rs r = omega (
  arith,
  entries-snoc id rs r,
  entries-drop id (length (rs ++ r ∷ []) - turn_diff_history_limit) (rs ++ r ∷ []),
)

push_bounded-IsHistory :
    (rs : List TurnDiffRecord) (r : TurnDiffRecord)
    → IsHistory rs
    → entries r.turn_id rs ≡ 0
    → IsHistory (push_bounded rs r)
push_bounded-IsHistory rs r (few, once) new = (
  omega (
    arith,
    length-snoc rs r,
    length-drop_le (length (rs ++ r ∷ []) - turn_diff_history_limit) (rs ++ r ∷ []),
  ),
  λ id. ground (arith, entries-push_bounded id rs r, once id, text_eq_iff r.turn_id id, new),
)

find_diff-push_bounded :
    (rs : List TurnDiffRecord) (r : TurnDiffRecord)
    → entries r.turn_id rs ≡ 0
    → find_diff r.turn_id (push_bounded rs r) ≡ some r.unified_diff
find_diff-push_bounded rs r new =
    let n = length (rs ++ r ∷ []) - turn_diff_history_limit in
    ap (find_diff r.turn_id) (drop-snoc n rs r (overflow_le rs r))
    ∙ find_diff-snoc r.turn_id (drop n rs) r (omega (arith, entries-drop r.turn_id n rs, new))
        ((text_eq_iff r.turn_id r.turn_id).1 refl)

-- Whatever the history holds, recording the diff of a turn leaves at most 32 entries and at most
-- one for each turn if it was so before, and the entry of the turn has the diff just recorded.
pub record_turn_diff-IsHistory :
    (now : ℕ) (inner : ThreadInner) (turn_id diff : Text)
    → IsHistory inner.turn_diff_history
    → let after = (record_turn_diff now inner turn_id diff).turn_diff_history in
      IsHistory after × (find_diff turn_id after ≡ some diff)
unfolding record_turn_diff
record_turn_diff-IsHistory now inner turn_id diff h =
    let rs = inner.turn_diff_history in
    let new : TurnDiffRecord = record {
      turn_id = turn_id;
      recorded_at = now;
      unified_diff = diff;
    } in
    elim (Option-cases (update_existing turn_id now diff rs)) [
      | inl e ↦
          let missing = update_existing-none turn_id now diff rs e in
          rw e (push_bounded-IsHistory rs new h missing, find_diff-push_bounded rs new missing)
      | inr (us, e) ↦
          let (len, same, found) = update_existing-IsUpdate turn_id now diff rs us e in
          rw e ((omega (arith, len, h.0), λ id. omega (arith, same id, h.1 id)), found)
    ]
