-- ===== src/Operation/Lifecycle.antt =====
-- src/modules/bridge/operations.rs: what the transitions of an operation allow.
use im_bridge_rs.Common.{
  ℕ, ◌<◌, String, ◌≡◌, ◌↔◌, refl, subst, true, false, some, arith, match_text, match_text-named,
  arms_named,
}
use im_bridge_rs.Operation.Status.{
  BridgeOperationStatus, received, snapshot_ready, generating, generated, committing, committed,
  delivered, conflict, failed, interrupted, OperationCommitState, status_as_str, parse_status,
  operation_commit_state_as_str, parse_operation_commit_state, is_terminal, can_transition_to,
}

pub parse-status_as_str : (s : BridgeOperationStatus) → parse_status (status_as_str s) ≡ some s
unfolding parse_status status_as_str match_text
parse-status_as_str received = refl
parse-status_as_str _ = refl

status_as_str-parse :
    (t : String) {s : BridgeOperationStatus} → parse_status t ≡ some s → status_as_str s ≡ t
unfolding parse_status status_as_str arms_named
status_as_str-parse t e = match_text-named status_as_str _ t refl e

pub parse-operation_commit_state_as_str :
    (s : OperationCommitState)
    → parse_operation_commit_state (operation_commit_state_as_str s) ≡ some s
unfolding parse_operation_commit_state operation_commit_state_as_str match_text
parse-operation_commit_state_as_str OperationCommitState.unknown = refl
parse-operation_commit_state_as_str _ = refl

operation_commit_state_as_str-parse :
    (t : String) {s : OperationCommitState}
    → parse_operation_commit_state t ≡ some s
    → operation_commit_state_as_str s ≡ t
unfolding parse_operation_commit_state operation_commit_state_as_str arms_named
operation_commit_state_as_str-parse t e = match_text-named operation_commit_state_as_str _ t refl e

-- A text is the stored name of a status, or of a commit state, exactly when it is parsed to it.
status_names_roundtrip :
    ((s : BridgeOperationStatus) (t : String) → (parse_status t ≡ some s) ↔ (status_as_str s ≡ t))
    × ((s : OperationCommitState) (t : String)
        → (parse_operation_commit_state t ≡ some s) ↔ (operation_commit_state_as_str s ≡ t))
status_names_roundtrip = (
  (λ s t.
      (status_as_str-parse t, λ e. subst (λ u. parse_status u ≡ some s) e (parse-status_as_str s))),
  λ s t. (
    operation_commit_state_as_str-parse t,
    λ e.
        subst (λ u. parse_operation_commit_state u ≡ some s) e
          (parse-operation_commit_state_as_str s),
  ),
)

-- How far an operation has come; the ends are above everything else.
abbrev pub progress : BridgeOperationStatus → ℕ
progress received = 0
progress snapshot_ready = 1
progress generating = 2
progress generated = 3
progress committing = 4
progress committed = 5
progress delivered = 6
progress conflict = 6
progress failed = 6
progress interrupted = 6

-- Every transition moves the operation forward, so there is no cycle, and `is_terminal` holds of
-- exactly the statuses that no transition leaves.
pub transition_progress :
    ((s t : BridgeOperationStatus) → can_transition_to s t ≡ true → progress s < progress t)
    × ((s : BridgeOperationStatus)
        → (is_terminal s ≡ true) ↔ ((t : BridgeOperationStatus) → can_transition_to s t ≡ false))
unfolding can_transition_to is_terminal
transition_progress = (forward, λ s. (final s, stuck s))
  where
    forward : (s t : BridgeOperationStatus) → can_transition_to s t ≡ true → progress s < progress t
    forward received received h = cc
    forward _ _ h = ground arith

    final :
        (s : BridgeOperationStatus)
        → is_terminal s ≡ true
        → (t : BridgeOperationStatus) → can_transition_to s t ≡ false
    final received h t = cc
    final _ h t = ground arith

    stuck :
        (s : BridgeOperationStatus)
        → ((t : BridgeOperationStatus) → can_transition_to s t ≡ false)
        → is_terminal s ≡ true
    stuck received h = absurd (cc (h failed))
    stuck snapshot_ready h = absurd (cc (h failed))
    stuck generating h = absurd (cc (h failed))
    stuck generated h = absurd (cc (h failed))
    stuck committing h = absurd (cc (h failed))
    stuck committed h = absurd (cc (h delivered))
    stuck _ h = refl

pub can_transition_to-left :
    (s t : BridgeOperationStatus) → can_transition_to s t ≡ true → is_terminal s ≡ false
unfolding can_transition_to is_terminal
can_transition_to-left received received h = cc
can_transition_to-left _ t h = ground arith
