-- ===== src/Approvals/Command/Choices.antt =====
-- The user's choice is the decision that the backend offered.
use zed_codex_acp_cas.Common.{
  ℕ, zero, suc, ◌+◌, ◌<◌, true, false, ◌⊎◌, inl, inr, List, [], ◌∷◌, ◌++◌, some, ◌≡◌, ◌≢◌, refl,
  sym, ap, ◌∙◌, if◌then◌else◌, all, arith, Bool-cases, some-eq, get_elem?, append-nil, append_assoc,
}
use zed_codex_acp_cas.Common.Text.{Text, text_eq, text_eq_iff, is_ascii_digit}
use zed_codex_acp_cas.Common.Decimal.{show, value_from, value-show}
use zed_codex_acp_cas.Common.Decimal.Reading.{show-digits, show-is_empty}
use zed_codex_acp_cas.Common.Maps.{get, contains_key, put, get-put}
use zed_codex_acp_cas.Approvals.{PermissionOption, selected}
use zed_codex_acp_cas.Approvals.Command.{
  CommandExecutionApprovalDecision, allow, deny, accept, accept_for_session,
  accept_with_execpolicy_amendment, apply_network_policy_amendment, decline, cancel,
  CommandApprovalParams, command_approval_decision_from_outcome, command_approval_decisions,
  unique_option_id, base_presentation, command_approval_option_presentation, options_loop,
  command_approval_options,
}

-- The digits at the end of an id.
tail : Text → Text
tail [] = []
tail (c ∷ cs) = let rest = tail cs in if all is_ascii_digit (c ∷ cs) then c ∷ cs else rest

tail-digits : (ds : Text) → all is_ascii_digit ds ≡ true → tail ds ≡ ds
unfolding tail
tail-digits [] h = refl
tail-digits (d ∷ ds) h = rw h

not_all : (cs ds : Text) → all is_ascii_digit (cs ++ b'-' ∷ ds) ≡ false
not_all [] ds = refl
not_all (c ∷ cs) ds = rw (not_all cs ds) (ground arith)

tail-append : (cs ds : Text) → all is_ascii_digit ds ≡ true → tail (cs ++ b'-' ∷ ds) ≡ ds
unfolding tail
tail-append [] ds h = tail-digits ds h
tail-append (c ∷ cs) ds h = rw (not_all (c ∷ cs) ds) (tail-append cs ds h)

show-eq : (m n : ℕ) → show m ≡ show n → m ≡ n
show-eq m n h = sym (value-show m) ∙ (ap (value_from 0) h ∙ value-show n)

nonempty-show : (n : ℕ) → show n ≢ []
nonempty-show n e = let never : true ≡ false = rw e at (show-is_empty n) in cc

module _ {Amendment : Type 0} where
  tail-base : (d : CommandExecutionApprovalDecision Amendment) → tail (base_presentation d).0 ≡ []
  unfolding tail
  tail-base accept = refl
  tail-base accept_for_session = refl
  tail-base (accept_with_execpolicy_amendment a) = refl
  tail-base (apply_network_policy_amendment allow amendment) = refl
  tail-base (apply_network_policy_amendment deny amendment) = refl
  tail-base decline = refl
  tail-base cancel = refl

  -- Every id in use ends in no digits, or in an index below `index`.
  abbrev AreIndexed : ℕ → List (Text × CommandExecutionApprovalDecision Amendment) → Type 0
  AreIndexed index existing =
      (k : Text)
      → contains_key k existing ≡ true
      → (tail k ≡ []) ⊎ ((i : ℕ) × (i < index) × (tail k ≡ show i))

  -- The id of the next option, in terms of the digits at its end.
  tail-unique_option_id :
      (base : Text) (index : ℕ)
      (existing : List (Text × CommandExecutionApprovalDecision Amendment))
      → tail base ≡ []
      → (contains_key base existing ≡ false) × (unique_option_id base index existing ≡ base)
        ⊎ (tail (unique_option_id base index existing) ≡ show index)
  unfolding unique_option_id
  tail-unique_option_id base index existing h = elim (Bool-cases (contains_key base existing)) [
    | inl y ↦ inr (rw y (tail-append base (show index) (show-digits index)))
    | inr n ↦ inl (n, rw n)
  ]

  unique_option_id-fresh :
      (base : Text) (index : ℕ)
      (existing : List (Text × CommandExecutionApprovalDecision Amendment))
      → tail base ≡ []
      → AreIndexed index existing
      → contains_key (unique_option_id base index existing) existing ≡ false
  unique_option_id-fresh base index existing h inv =
      let id = unique_option_id base index existing in
      elim (Bool-cases (contains_key id existing)) [
        | inr n ↦ n
        | inl y ↦ elim (tail-unique_option_id base index existing h) [
          | inl (n, e) ↦ rw e n
          | inr e ↦ elim (inv id y) [
            | inl none_left ↦ absurd (nonempty-show index (sym e ∙ none_left))
            | inr (i, below, f) ↦ let same = show-eq index i (sym e ∙ f) in absurd (omega arith)
          ]
        ]
      ]

  contains_key-put :
      (k j : Text) (d : CommandExecutionApprovalDecision Amendment)
      (existing : List (Text × CommandExecutionApprovalDecision Amendment))
      → contains_key j (put k d existing) ≡ true
      → (k ≡ j) ⊎ (contains_key j existing ≡ true)
  unfolding contains_key
  contains_key-put k j d existing h = elim (Bool-cases (text_eq k j)) [
    | inl y ↦ inl ((text_eq_iff k j).0 y)
    | inr n ↦ inr (rw (get-put k j d existing, n) at h)
  ]

  unique_option_id-AreIndexed :
      (base : Text) (index : ℕ) (d : CommandExecutionApprovalDecision Amendment)
      (existing : List (Text × CommandExecutionApprovalDecision Amendment))
      → tail base ≡ []
      → AreIndexed index existing
      → AreIndexed (index + 1) (put (unique_option_id base index existing) d existing)
  unique_option_id-AreIndexed base index d existing h inv k c =
      elim (contains_key-put (unique_option_id base index existing) k d existing c) [
        | inl e ↦ elim (tail-unique_option_id base index existing h) [
          | inl (n, f) ↦ inl (rw (← e, f) h)
          | inr f ↦ inr (index, omega arith, rw (← e) f)
        ]
        | inr old ↦ elim (inv k old) [
          | inl none_left ↦ inl none_left
          | inr (i, below, f) ↦ inr (i, omega arith, f)
        ]
      ]

  -- The options that were made stand for the decisions that were gone through.
  abbrev AreChosen :
      List PermissionOption
      → List (CommandExecutionApprovalDecision Amendment)
      → List (Text × CommandExecutionApprovalDecision Amendment)
      → Type 0
  AreChosen [] [] existing = Unit
  AreChosen [] (d ∷ ds) existing = ⊥
  AreChosen (o ∷ os) [] existing = ⊥
  AreChosen (o ∷ os) (d ∷ ds) existing =
      (get o.option_id existing ≡ some d) × AreChosen os ds existing

  get-other :
      (k j : Text) (d e : CommandExecutionApprovalDecision Amendment)
      (existing : List (Text × CommandExecutionApprovalDecision Amendment))
      → contains_key k existing ≡ false
      → get j existing ≡ some e
      → get j (put k d existing) ≡ some e
  unfolding contains_key
  get-other k j d e existing fresh h = elim (Bool-cases (text_eq k j)) [
    | inl y ↦
        let found : get k existing ≡ some e = rw ((text_eq_iff k j).0 y) h in
        let never : true ≡ false = rw found at fresh in cc
    | inr n ↦ rw (get-put k j d existing, n) h
  ]

  AreChosen-put :
      (os : List PermissionOption) (ds : List (CommandExecutionApprovalDecision Amendment))
      (k : Text) (d : CommandExecutionApprovalDecision Amendment)
      (existing : List (Text × CommandExecutionApprovalDecision Amendment))
      → contains_key k existing ≡ false
      → AreChosen os ds existing
      → AreChosen os ds (put k d existing)
  AreChosen-put [] [] k d existing fresh h = tt
  AreChosen-put [] (e ∷ ds) k d existing fresh h = absurd h
  AreChosen-put (o ∷ os) [] k d existing fresh h = absurd h
  AreChosen-put (o ∷ os) (e ∷ ds) k d existing fresh h =
      (get-other k o.option_id d e existing fresh h.0, AreChosen-put os ds k d existing fresh h.1)

  AreChosen-snoc :
      (os : List PermissionOption) (ds : List (CommandExecutionApprovalDecision Amendment))
      (o : PermissionOption) (d : CommandExecutionApprovalDecision Amendment)
      (existing : List (Text × CommandExecutionApprovalDecision Amendment))
      → AreChosen os ds existing
      → get o.option_id existing ≡ some d
      → AreChosen (os ++ o ∷ []) (ds ++ d ∷ []) existing
  AreChosen-snoc [] [] o d existing h k = (k, tt)
  AreChosen-snoc [] (e ∷ ds) o d existing h k = absurd h
  AreChosen-snoc (p ∷ os) [] o d existing h k = absurd h
  AreChosen-snoc (p ∷ os) (e ∷ ds) o d existing h k = (h.0, AreChosen-snoc os ds o d existing h.1 k)

  options_loop-AreChosen :
      (index : ℕ) (os : List PermissionOption)
      (seen ds : List (CommandExecutionApprovalDecision Amendment))
      (existing : List (Text × CommandExecutionApprovalDecision Amendment))
      → AreIndexed index existing
      → AreChosen os seen existing
      → AreChosen
          (options_loop index os existing ds).0
          (seen ++ ds)
          (options_loop index os existing ds).1
  unfolding options_loop command_approval_option_presentation
  options_loop-AreChosen index os seen [] existing inv h = rw (append-nil seen) h
  options_loop-AreChosen index os seen (d ∷ ds) existing inv h =
      let base = (base_presentation d).0 in
      let id = unique_option_id base index existing in
      let o = command_approval_option_presentation index d existing in
      let fresh = unique_option_id-fresh base index existing (tail-base d) inv in
      let found : get id (put id d existing) ≡ some d =
        rw (get-put id id d existing, (text_eq_iff id id).1 refl) in
      rw (← append_assoc seen (d ∷ []) ds) (
        options_loop-AreChosen (index + 1) (os ++ o ∷ []) (seen ++ d ∷ []) ds (put id d existing)
          (unique_option_id-AreIndexed base index d existing (tail-base d) inv)
          (AreChosen-snoc os seen o d (put id d existing)
            (AreChosen-put os seen id d existing fresh h) found))

  AreChosen-get_elem? :
      (os : List PermissionOption) (ds : List (CommandExecutionApprovalDecision Amendment))
      (existing : List (Text × CommandExecutionApprovalDecision Amendment)) (i : ℕ)
      (o : PermissionOption) (d : CommandExecutionApprovalDecision Amendment)
      → AreChosen os ds existing
      → get_elem? os i ≡ some o
      → get_elem? ds i ≡ some d
      → get o.option_id existing ≡ some d
  AreChosen-get_elem? [] ds existing i o d h e f = cc
  AreChosen-get_elem? (p ∷ os) [] existing i o d h e f = absurd h
  AreChosen-get_elem? (p ∷ os) (c ∷ ds) existing zero o d h e f = rw (← some-eq e, ← some-eq f) h.0
  AreChosen-get_elem? (p ∷ os) (c ∷ ds) existing (suc i) o d h e f =
      AreChosen-get_elem? os ds existing i o d h.1 e f

-- The choice of an option is the decision that the backend offered in its place: whatever the
-- decisions, repeated ones and those of the same label included, the id of the option at each
-- place gives the decision at that place.
pub command_approval_decision_from_outcome-options :
    {Amendment : Type 0} (params : CommandApprovalParams Amendment) (i : ℕ) (o : PermissionOption)
    (d : CommandExecutionApprovalDecision Amendment)
    → get_elem? (command_approval_options params).0 i ≡ some o
    → get_elem? (command_approval_decisions params) i ≡ some d
    → command_approval_decision_from_outcome
        (selected o.option_id)
        (command_approval_options params).1
      ≡ d
unfolding command_approval_decision_from_outcome command_approval_options
command_approval_decision_from_outcome-options params i o d e f =
    let chosen =
      options_loop-AreChosen 0 [] [] (command_approval_decisions params) [] (λ k c. cc) tt in
    rw (AreChosen-get_elem? _ _ _ i o d chosen e f)
