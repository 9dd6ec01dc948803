-- ===== src/NextActions/Partition.antt =====
-- shared/next-actions.ts: what the envelope of `resolveNextActionEnvelope` holds.
use mathlib.Core.List.{Perm, perm_middle}
use mathlib.Core.List.Perm
use ai_knowledge_system.Common.{
  String, true, false, ◌≡◌, refl, ◌⊎◌, inl, inr, concat, or_else, Option, none, some, List, [], ◌∷◌,
  ◌++◌, map, arith, All, str_eq, eq_iff, any, Bool-cases, Option-cases, truthy, lookup,
}
use ai_knowledge_system.NextActions.Types.{
  ActionDefinition, BlockedAction, ActionEnvelope, PolicyState, Availability, ResolveInput,
}
use ai_knowledge_system.NextActions.Resolve.{
  target_reason, blocked_reason, split_actions, first_command, recommend, envelope_of, state_of,
  resolve_next_action_envelope,
}

abbrev not_offered : String → String
not_offered target =
    concat ("Target workflow '" ∷ target ∷ "' is unavailable in this executor." ∷ [])

abbrev pub IsReasonOf : (target : String) → Option String → (reason : String) → Type 0
IsReasonOf target none reason = reason ≡ not_offered target
IsReasonOf target (some given) reason = reason ≡ given

or_else-IsReasonOf :
    (target : String) (given : Option String)
    → IsReasonOf target given (or_else given (not_offered target))
or_else-IsReasonOf target none = refl
or_else-IsReasonOf target (some given) = refl

module _ (availability : Option (List (String × Availability))) where
  -- The target exists and is available, if the action has one and the executor named its targets.
  abbrev pub IsReachable : ActionDefinition → Type 0
  IsReachable candidate =
      (entries : List (String × Availability)) (target : String)
      → availability ≡ some entries
      → truthy candidate.target_workflow_id ≡ some target
      → (entry : Availability) × (lookup target entries ≡ some entry) × (entry.available ≡ true)

  -- It has a target which the executor does not offer, and the reason says so, or is the one that
  -- the executor gives.
  abbrev pub IsUnreachable : ActionDefinition → (reason : String) → Type 0
  IsUnreachable candidate reason =
      (entries : List (String × Availability)) × (target : String) × (availability ≡ some entries)
      × (truthy candidate.target_workflow_id ≡ some target)
      × (((lookup target entries ≡ none) × (reason ≡ not_offered target))
          ⊎ ((entry : Availability) × (lookup target entries ≡ some entry)
              × (entry.available ≡ false)
              × IsReasonOf target entry.reason reason))

blocked_reason-none :
    (availability : Option (List (String × Availability))) (target : Option String)
    (entries : List (String × Availability)) (id : String)
    → blocked_reason availability target ≡ none
    → availability ≡ some entries
    → target ≡ some id
    → (entry : Availability) × (lookup id entries ≡ some entry) × (entry.available ≡ true)
unfolding blocked_reason
blocked_reason-none availability target entries id e a t = elim (Option-cases (lookup id entries)) [
  | inl missing ↦ absurd (ground arith)
  | inr (entry, found) ↦ (entry, found, ground arith)
]

blocked_reason-some :
    (availability : Option (List (String × Availability))) (candidate : ActionDefinition)
    (reason : String)
    → blocked_reason availability (truthy candidate.target_workflow_id) ≡ some reason
    → IsUnreachable availability candidate reason
unfolding blocked_reason target_reason
blocked_reason-some none candidate reason e = cc
blocked_reason-some (some m) candidate reason e =
    elim (Option-cases (truthy candidate.target_workflow_id)) [
      | inl missing ↦ absurd (ground arith)
      | inr (id, found) ↦ elim (Option-cases (lookup id m)) [
        | inl unknown ↦ (m, id, refl, found, inl (unknown, ground arith))
        | inr (entry, known) ↦ elim (Bool-cases entry.available) [
          | inl on ↦ absurd (ground arith)
          | inr off ↦
              let same : or_else entry.reason (not_offered id) ≡ reason = ground arith in
              (
                m,
                id,
                refl,
                found,
                inr (entry, known, off, rw same at (or_else-IsReasonOf id entry.reason)),
              )
        ]
      ]
    ]

-- What the loop makes of a list of actions.
pub record IsPartition (availability : Option (List (String × Availability)))
    (actions available : List ActionDefinition) (blocked : List BlockedAction) : Type 0 where
  pub kept : Perm (available ++ map (λ b. b.action) blocked) actions
  pub reachable : All (IsReachable availability) available
  pub unreachable : All (λ b. IsUnreachable availability b.action b.blocked_reason) blocked

module _ (availability : Option (List (String × Availability))) where
  split_actions-IsPartition :
      (actions : List ActionDefinition)
      → IsPartition availability actions
          (split_actions availability actions).0
          (split_actions availability actions).1
  unfolding split_actions
  split_actions-IsPartition [] = record { kept = Perm.refl []; reachable = tt; unreachable = tt }
  split_actions-IsPartition (candidate ∷ rest) =
      let ih = split_actions-IsPartition rest in
      elim (Option-cases (blocked_reason availability (truthy candidate.target_workflow_id))) [
        | inl free ↦
            rw (free, split_actions)
              (record {
                kept = Perm.cons candidate ih.kept;
                reachable = (
                  λ entries id. blocked_reason-none availability _ entries id free,
                  ih.reachable,
                );
                unreachable = ih.unreachable;
              })
        | inr (reason, stopped) ↦
            rw (stopped, split_actions)
              (record {
                kept = Perm.trans (perm_middle _ _) (Perm.cons candidate ih.kept);
                reachable = ih.reachable;
                unreachable =
                    (blocked_reason-some availability candidate reason stopped, ih.unreachable);
              })
      ]

-- The recommendation is the command of an available action; there is none only if no action is
-- available.
abbrev pub IsRecommendation : Option String → List ActionDefinition → Type 0
IsRecommendation none available = available ≡ []
IsRecommendation (some command) available =
    any (λ candidate. str_eq candidate.command command) available ≡ true

first_command-IsRecommendation :
    (available : List ActionDefinition) → IsRecommendation (first_command available) available
first_command-IsRecommendation [] = refl
first_command-IsRecommendation (candidate ∷ rest) =
    ground (arith, eq_iff candidate.command candidate.command)

recommend-IsRecommendation :
    (recommended : Option String) (available : List ActionDefinition)
    → IsRecommendation (recommend recommended available) available
unfolding recommend
recommend-IsRecommendation recommended available = elim (Option-cases (truthy recommended)) [
  | inl missing ↦ rw (missing, recommend) (first_command-IsRecommendation available)
  | inr (command, given) ↦
      elim (Bool-cases (any (λ candidate. str_eq candidate.command command) available)) [
        | inl offered ↦ rw (given, recommend, offered) offered
        | inr other ↦ rw (given, recommend, other) (first_command-IsRecommendation available)
      ]
]

-- The envelope answers the request that it was resolved for.
pub record IsResolved (input : ResolveInput) (envelope : ActionEnvelope) : Type 0 where
  pub state : PolicyState
  pub chosen : state_of input ≡ some state
  pub execution : envelope.execution_id ≡ input.execution_id
  pub workflow : envelope.workflow_id ≡ input.workflow_id
  pub scope : envelope.scope_key ≡ input.scope_key
  pub partition :
      IsPartition input.target_availability state.actions envelope.available_actions
        envelope.blocked_actions
  pub recommendation : IsRecommendation envelope.recommended_action envelope.available_actions

-- An envelope that is resolved carries the request's execution, workflow and scope; its available
-- and blocked actions are together those of the policy's state, each once; an available action's
-- target is offered by the executor if the executor named its targets, a blocked one's is not, and
-- the reason is the executor's or says that the target is unavailable;
-- and the recommended command is that of an available action, or missing if there is none.
pub resolve-IsResolved :
    (now : String) (input : ResolveInput) (envelope : ActionEnvelope)
    → resolve_next_action_envelope now input ≡ some envelope
    → IsResolved input envelope
unfolding resolve_next_action_envelope
resolve-IsResolved now input envelope e = elim (Option-cases (state_of input)) [
  | inl missing ↦ absurd (ground arith)
  | inr (state, chosen) ↦
      let same : envelope_of now input state ≡ envelope = ground arith in
      rw (← same) (record {
        state = state;
        chosen = chosen;
        execution = refl;
        workflow = refl;
        scope = refl;
        partition = split_actions-IsPartition input.target_availability state.actions;
        recommendation = recommend-IsRecommendation state.recommended_action _;
      })
]
