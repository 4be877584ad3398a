-- ===== src/Plan/Fallback/Statuses.antt =====
-- The statuses of the entries that a phase shows.
use zed_codex_acp_cas.Common.{
  ℕ, zero, suc, ◌+◌, ◌-◌, ◌≤◌, ◌<◌, List, [], ◌∷◌, ◌++◌, Option, some, ◌≡◌, ◌≢◌, refl, ap, ap₂, ◌∙◌,
  arith, length, replicate,
}
use zed_codex_acp_cas.Common.Text.{Text}
use zed_codex_acp_cas.Thread.State.{
  PlanEntry, PlanEntryStatus, pending, in_progress, completed, FallbackPlanPhase, planning,
  implementing, verifying, summarizing, done,
}
use zed_codex_acp_cas.Plan.Fallback.{
  rank, in_progress_step_index, status_by_target, status_for_step, entries_from, labels_of,
  fallback_plan_entries_for_steps, contents,
}

abbrev pub statuses : List PlanEntry → List PlanEntryStatus
statuses [] = []
statuses (e ∷ es) = e.status ∷ statuses es

contents-entries_from :
    (phase : FallbackPlanPhase) (n i : ℕ) (labels : List Text)
    → contents (entries_from phase n i labels) ≡ labels
unfolding entries_from
contents-entries_from phase n i [] = refl
contents-entries_from phase n i (l ∷ ls) = ap (◌∷◌ l) (contents-entries_from phase n (i + 1) ls)

-- The entries are the given steps in order, or the four default steps if none are given.
pub contents-entries :
    (phase : FallbackPlanPhase) (steps : List Text)
    → contents (fallback_plan_entries_for_steps phase steps) ≡ labels_of steps
unfolding fallback_plan_entries_for_steps
contents-entries phase steps =
    contents-entries_from phase (length (labels_of steps)) 0 (labels_of steps)

statuses-done :
    (n i : ℕ) (labels : List Text)
    → statuses (entries_from done n i labels) ≡ replicate (length labels) completed
unfolding entries_from
statuses-done n i [] = refl
statuses-done n i (l ∷ ls) = ap (◌∷◌ completed) (statuses-done n (i + 1) ls)

-- What holds of a phase with a step in progress.
abbrev HasTarget : FallbackPlanPhase → ℕ → ℕ → Type 0
HasTarget phase n target = (i : ℕ) → status_for_step phase i n ≡ status_by_target (some target) i

module _ (phase : FallbackPlanPhase) (n target : ℕ) (h : HasTarget phase n target) where
  statuses-after :
      (i : ℕ) (labels : List Text)
      → target < i
      → statuses (entries_from phase n i labels) ≡ replicate (length labels) pending
  unfolding entries_from
  statuses-after i [] lt = refl
  statuses-after i (l ∷ ls) lt =
      ap₂ ◌∷◌ (h i ∙ ground arith) (statuses-after (i + 1) ls (omega arith))

  statuses-at :
      (j rest i : ℕ) (labels : List Text)
      → i + j ≡ target
      → length labels ≡ j + suc rest
      → statuses (entries_from phase n i labels)
        ≡ replicate j completed ++ in_progress ∷ replicate rest pending
  unfolding entries_from
  statuses-at j rest i [] e k = absurd (omega arith)
  statuses-at zero rest i (l ∷ ls) e k =
      ap₂ ◌∷◌ (h i ∙ ground arith) (
        statuses-after (i + 1) ls (omega arith) ∙ ap (λ (m : ℕ). replicate m pending) (omega arith))
  statuses-at (suc j) rest i (l ∷ ls) e k =
      ap₂ ◌∷◌ (h i ∙ ground arith) (statuses-at j rest (i + 1) ls (omega arith) (omega arith))

-- Each phase but the last has a step in progress, and it is one of the steps.
target_of :
    (phase : FallbackPlanPhase) (n : ℕ)
    → phase ≢ done
    → (target : ℕ) × (target < suc n) × (in_progress_step_index phase (suc n) ≡ some target)
unfolding in_progress_step_index
target_of planning zero h = (0, omega arith, refl)
target_of planning (suc n) h = (0, omega arith, refl)
target_of implementing zero h = (0, omega arith, refl)
target_of implementing (suc n) h = (_, omega arith, refl)
target_of verifying zero h = (0, omega arith, refl)
target_of verifying (suc n) h = (_, omega arith, refl)
target_of summarizing zero h = (0, omega arith, refl)
target_of summarizing (suc n) h = (_, omega arith, refl)
target_of done n h = absurd (h refl)

status-target :
    (phase : FallbackPlanPhase) (n i : ℕ)
    → phase ≢ done
    → status_for_step phase i n ≡ status_by_target (in_progress_step_index phase n) i
unfolding status_for_step
status-target planning n i h = refl
status-target implementing n i h = refl
status-target verifying n i h = refl
status-target summarizing n i h = refl
status-target done n i h = absurd (h refl)

-- A plan that is being worked on: some entries are completed, then one is in progress, and the
-- rest is pending.
abbrev pub IsUnderWay : List PlanEntryStatus → Type 0
IsUnderWay ss =
    (finished : ℕ) × (left : ℕ) × (ss
      ≡ replicate finished completed ++ in_progress ∷ replicate left pending)

under_way :
    (phase : FallbackPlanPhase) (m : ℕ) (labels : List Text)
    → phase ≢ done
    → length labels ≡ suc m
    → IsUnderWay (statuses (entries_from phase (length labels) 0 labels))
under_way phase m labels h e =
    let (target, below, is_target) = target_of phase m h in
    let has : HasTarget phase (length labels) target = λ i.
      status-target phase (length labels) i h
      ∙ ap (λ (t : Option ℕ). status_by_target t i)
          (ap (in_progress_step_index phase) e ∙ is_target) in
    (
      target,
      m - target,
      statuses-at phase (length labels) target has target (m - target) 0 labels (omega arith)
          (omega arith),
    )

-- In every phase but the last exactly one entry of the fallback plan is in progress, those before
-- it are completed and those behind it are pending.
pub fallback-IsUnderWay :
    (phase : FallbackPlanPhase) (steps : List Text)
    → phase ≢ done
    → IsUnderWay (statuses (fallback_plan_entries_for_steps phase steps))
unfolding fallback_plan_entries_for_steps
fallback-IsUnderWay phase [] h = under_way phase 3 (labels_of []) h refl
fallback-IsUnderWay phase (s ∷ ss) h = under_way phase (length ss) (s ∷ ss) h refl

-- In the last phase all entries of the fallback plan are completed.
pub fallback_done :
    (steps : List Text)
    → statuses (fallback_plan_entries_for_steps done steps)
      ≡ replicate (length (labels_of steps)) completed
unfolding fallback_plan_entries_for_steps
fallback_done [] = statuses-done 4 0 (labels_of [])
fallback_done (s ∷ ss) = statuses-done (suc (length ss)) 0 (s ∷ ss)

abbrev pub status_rank : PlanEntryStatus → ℕ
status_rank pending = 0
status_rank in_progress = 1
status_rank completed = 2

by_target_mono :
    (t u i : ℕ)
    → t ≤ u
    → status_rank (status_by_target (some t) i) ≤ status_rank (status_by_target (some u) i)
by_target_mono t u i h = ground arith

-- The step in progress only moves on from phase to phase.
target_mono :
    (p q : FallbackPlanPhase) (n t u : ℕ)
    → rank p ≤ rank q
    → in_progress_step_index p (suc n) ≡ some t
    → in_progress_step_index q (suc n) ≡ some u
    → t ≤ u
unfolding in_progress_step_index
target_mono p q zero t u h a b = ground arith
target_mono p q (suc n) t u h a b = ground arith

status_of_done : (n i : ℕ) → status_for_step done i n ≡ completed
unfolding status_for_step
status_of_done n i = refl

status_rank-le : (s : PlanEntryStatus) → status_rank s ≤ 2
status_rank-le s = ground arith

status_of_none : (p : FallbackPlanPhase) (i : ℕ) → p ≢ done → status_for_step p i 0 ≡ pending
unfolding in_progress_step_index
status_of_none p i h = status-target p 0 i h

phase-discrete : Discrete FallbackPlanPhase
phase-discrete = hlevel

rank_lt_done : (p : FallbackPlanPhase) → p ≢ done → rank p < rank done
rank_lt_done p h = ground arith

status_mono_under_way :
    (p q : FallbackPlanPhase) (n i : ℕ)
    → p ≢ done
    → q ≢ done
    → rank p ≤ rank q
    → status_rank (status_for_step p i n) ≤ status_rank (status_for_step q i n)
status_mono_under_way p q zero i hp hq h = rw (status_of_none p i hp) (omega arith)
status_mono_under_way p q (suc n) i hp hq h =
    let (t, _, is_t) = target_of p n hp in
    let (u, _, is_u) = target_of q n hq in
    rw (status-target p (suc n) i hp, status-target q (suc n) i hq, is_t, is_u)
      (by_target_mono t u i (target_mono p q n t u h is_t is_u))

-- From a phase to a later one no entry of a plan goes back: each step that was completed stays so,
-- and the one in progress does not become pending.
pub status_for_step_mono :
    (p q : FallbackPlanPhase) (n i : ℕ)
    → rank p ≤ rank q
    → status_rank (status_for_step p i n) ≤ status_rank (status_for_step q i n)
status_for_step_mono p q n i h = elim (phase-discrete q done) [
  | yes last ↦ rw (last, status_of_done n i) (status_rank-le (status_for_step p i n))
  | no hq ↦
      status_mono_under_way p q n i (λ e. absurd (omega (arith, ap rank e, rank_lt_done q hq))) hq h
]
