-- ===== src/Plan/Fallback/Phases.antt =====
-- The phases of a turn's fallback plan only go forward, and each is sent once.
use zed_codex_acp_cas.Common.{
  ℕ, ◌+◌, ◌≤◌, true, false, List, [], ◌∷◌, Option, none, some, ◌≡◌, refl, ◌∙◌, sym, arith, length,
  length-snoc, leb, ltb, take, take_all, length-take, inl, inr, Bool-cases,
}
use zed_codex_acp_cas.Common.Text.{Text, text_eq}
use zed_codex_acp_cas.Thread.State.{ThreadInner, PlanEntry, FallbackPlanState, FallbackPlanPhase}
use zed_codex_acp_cas.Plan.Fallback.{
  rank, max_visible_plan_entries, limit_plan_entries, advance, advance_current, send_plan,
  maybe_advance_fallback_plan,
}

-- At most `max_visible_plan_entries` entries are sent, and these are the first ones.
pub limit_plan_entries_lem :
    (entries : List PlanEntry)
    → (length (limit_plan_entries entries) ≤ max_visible_plan_entries)
      × (limit_plan_entries entries ≡ take max_visible_plan_entries entries)
unfolding limit_plan_entries
limit_plan_entries_lem entries = elim (Bool-cases (ltb 6 (length entries))) [
  | inl more ↦ rw more (omega (arith, length-take 6 entries), refl)
  | inr all ↦
      let few : length entries ≤ 6 = ground arith in rw all (few, sym (take_all 6 entries few))
]

abbrev pub phase_rank : Option FallbackPlanState → ℕ
phase_rank none = 0
phase_rank (some s) = rank s.phase

abbrev pub steps_of : Option FallbackPlanState → List Text
steps_of none = []
steps_of (some s) = s.steps

-- One request to advance, or several.
pub record Advanced (before after : ThreadInner) : Type 0 where
  pub forward : phase_rank before.fallback_plan ≤ phase_rank after.fallback_plan
  pub steps_kept : steps_of after.fallback_plan ≡ steps_of before.fallback_plan
  pub paid :
      length after.sent + phase_rank before.fallback_plan
      ≤ length before.sent + phase_rank after.fallback_plan

advance-stays :
    (inner : ThreadInner) (state : FallbackPlanState) (next : FallbackPlanPhase)
    → leb (rank next) (rank state.phase) ≡ true
    → inner.fallback_plan ≡ some state
    → Advanced inner (advance inner state next)
unfolding advance
advance-stays inner state next h e = ground arith

advance-moves :
    (inner : ThreadInner) (state : FallbackPlanState) (next : FallbackPlanPhase)
    → leb (rank next) (rank state.phase) ≡ false
    → inner.fallback_plan ≡ some state
    → Advanced inner (advance inner state next)
unfolding advance send_plan
advance-moves inner state next h e = grind (arith, length-snoc)

advance_current-Advanced :
    (current : Option FallbackPlanState) (inner : ThreadInner) (turn_id : Text)
    (next : FallbackPlanPhase)
    → inner.fallback_plan ≡ current
    → Advanced inner (advance_current current inner turn_id next)
advance_current-Advanced none inner turn_id next e = ground arith
advance_current-Advanced (some state) inner turn_id next e =
    elim (Bool-cases (text_eq state.turn_id turn_id)) [
      | inr other ↦
          rw other (record { forward = ground arith; steps_kept = refl; paid = ground arith })
      | inl own ↦ rw own (elim (Bool-cases (leb (rank next) (rank state.phase))) [
        | inl stays ↦ advance-stays inner state next stays e
        | inr moves ↦ advance-moves inner state next moves e
      ])
    ]

-- A row of requests, each for some turn.
abbrev pub advance_all : ThreadInner → List (Text × FallbackPlanPhase) → ThreadInner
advance_all inner [] = inner
advance_all inner ((turn_id, next) ∷ rs) =
    advance_all (maybe_advance_fallback_plan inner turn_id next) rs

advance_all-Advanced :
    (rs : List (Text × FallbackPlanPhase)) (inner : ThreadInner)
    → Advanced inner (advance_all inner rs)
unfolding maybe_advance_fallback_plan
advance_all-Advanced [] inner = ground arith
advance_all-Advanced ((turn_id, next) ∷ rs) inner =
    let one = advance_current-Advanced inner.fallback_plan inner turn_id next refl in
    let more = advance_all-Advanced rs (maybe_advance_fallback_plan inner turn_id next) in
    record {
      forward = omega (arith, one.forward, more.forward);
      steps_kept = more.steps_kept ∙ one.steps_kept;
      paid = omega (arith, one.paid, more.paid);
    }

phase_rank-le : (p : Option FallbackPlanState) → phase_rank p ≤ 4
phase_rank-le none = omega arith
phase_rank-le (some s) = ground arith

-- Whatever phases are requested, for whatever turns and in whatever order, the phase of the
-- fallback plan never goes back, its steps stay what they are, and the client is sent at most as
-- many plans as the phase has moved on, so at most four.
pub advance_all_lem :
    (rs : List (Text × FallbackPlanPhase)) (inner : ThreadInner)
    → Advanced inner (advance_all inner rs)
      × (length (advance_all inner rs).sent ≤ length inner.sent + 4)
advance_all_lem rs inner =
    let all = advance_all-Advanced rs inner in
    (all, omega (arith, all.paid, phase_rank-le (advance_all inner rs).fallback_plan))
