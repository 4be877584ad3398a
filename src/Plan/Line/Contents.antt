-- ===== src/Plan/Line/Contents.antt =====
-- One line of a plan: what an entry holds, and that a marked line is read back.
use zed_codex_acp_cas.Common.{
  false, [], ◌∷◌, ◌++◌, Option, none, some, ◌≡◌, ◌≢◌, refl, subst, arith, is_empty, Bool-cases, inl,
  inr,
}
use zed_codex_acp_cas.Common.Text.{Text, codes, trim, strip_prefix}
use zed_codex_acp_cas.Common.Trim.{trim_idem, trim_mark}
use zed_codex_acp_cas.Thread.State.{PlanEntry, PlanEntryStatus, pending, in_progress, completed}
use zed_codex_acp_cas.Plan.Line.{
  ParsedPlanLineKind, checkbox, bullet, numbered, strip_any, completed_marks, pending_marks,
  in_progress_marks, bullet_marks, entry_of, strip_numbered_prefix, if_some,
  parse_plan_entry_from_line,
}

-- What is asked of the entry that a line gives, if it gives one.
abbrev Holds : Option (PlanEntry × ParsedPlanLineKind) → Type 0
Holds none = Unit
Holds (some (e, kind)) = (trim e.content ≡ e.content) × (is_empty e.content ≡ false)

entry_of-Holds :
    (raw : Text) (status : PlanEntryStatus) (kind : ParsedPlanLineKind)
    → Holds (entry_of raw status kind)
entry_of-Holds raw status kind = elim (Bool-cases (is_empty (trim raw))) [
  | inl nothing ↦ rw nothing tt
  | inr something ↦ rw something (trim_idem raw, something)
]

marks-Holds :
    (done waiting started item number : Option Text)
    → Holds (
        if_some done
          (λ c. entry_of c completed checkbox)
          (if_some waiting
            (λ c. entry_of c pending checkbox)
            (if_some started
              (λ c. entry_of c in_progress checkbox)
              (if_some item
                (λ c. entry_of c pending bullet)
                (if_some number (λ c. entry_of c pending numbered) none)))))
marks-Holds (some c) waiting started item number = entry_of-Holds c completed checkbox
marks-Holds none (some c) started item number = entry_of-Holds c pending checkbox
marks-Holds none none (some c) item number = entry_of-Holds c in_progress checkbox
marks-Holds none none none (some c) number = entry_of-Holds c pending bullet
marks-Holds none none none none (some c) = entry_of-Holds c pending numbered
marks-Holds none none none none none = tt

parse_line-Holds : (line : Text) → Holds (parse_plan_entry_from_line line)
unfolding parse_plan_entry_from_line
parse_line-Holds line = elim (Bool-cases (is_empty (trim line))) [
  | inl blank ↦ rw blank tt
  | inr solid ↦
      let t = trim line in
      rw solid (
        marks-Holds (strip_any completed_marks t) (strip_any pending_marks t)
          (strip_any in_progress_marks t) (strip_any bullet_marks t) (strip_numbered_prefix t))
]

-- The content of an entry that is read from a line is trimmed and not empty.
pub parse_line_content :
    (line : Text) (entry : PlanEntry) (kind : ParsedPlanLineKind)
    → parse_plan_entry_from_line line ≡ some (entry, kind)
    → (trim entry.content ≡ entry.content) × (entry.content ≢ [])
parse_line_content line entry kind h =
    let (trimmed, solid) = subst Holds h (parse_line-Holds line) in
    (trimmed, λ e. ground (arith, e, solid))

-- The checkbox that is written for a status.
abbrev pub mark_of : PlanEntryStatus → Text
mark_of pending = codes "- [ ] "
mark_of in_progress = codes "- [~] "
mark_of completed = codes "- [x] "

-- A step written with the checkbox of its status is read back as it is, with that status, if the
-- step is trimmed and not empty.
pub parse_line-mark :
    (status : PlanEntryStatus) (content : Text)
    → trim content ≡ content
    → content ≢ []
    → parse_plan_entry_from_line (mark_of status ++ content)
      ≡ some (record { content = content; status = status }, checkbox)
unfolding parse_plan_entry_from_line strip_any strip_prefix
parse_line-mark status [] h ne = absurd (ne refl)
parse_line-mark pending (d ∷ ds) h ne =
    let e : trim (mark_of pending ++ d ∷ ds) ≡ mark_of pending ++ d ∷ ds =
      trim_mark b'-' (codes " [ ] ") d ds refl h in
    rw e (rw h refl)
parse_line-mark in_progress (d ∷ ds) h ne =
    let e : trim (mark_of in_progress ++ d ∷ ds) ≡ mark_of in_progress ++ d ∷ ds =
      trim_mark b'-' (codes " [~] ") d ds refl h in
    rw e (rw h refl)
parse_line-mark completed (d ∷ ds) h ne =
    let e : trim (mark_of completed ++ d ∷ ds) ≡ mark_of completed ++ d ∷ ds =
      trim_mark b'-' (codes " [x] ") d ds refl h in
    rw e (rw h refl)
