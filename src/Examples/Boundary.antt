-- ===== src/Examples/Boundary.antt =====
-- The theorems on the errors, the payloads and the identities at concrete values.
use im_bridge_rs.Common.{true, none, some, ◌≡◌, refl, ◌↔◌, ◌⊎◌, arith}
use im_bridge_rs.Errors.{
  StErrorStage, CommitState, new_error, StErrorFacts, timeout, map_st_error, ok,
}
use im_bridge_rs.Errors.Mapping.{ReportsApplied, map_st_error-applied}
use im_bridge_rs.St.{fence_is_valid}
use im_bridge_rs.Operation.{append, payload_fence, validate, OperationAad, aad_parts}
use im_bridge_rs.Operation.Validity.{IsOfKind, IsNamed, validate_lem}
use im_bridge_rs.Operation.Framing.{IsShort, encode-injective}
use im_bridge_rs.Examples.Data.{platform, commit_payload}

abbrev facts : StErrorFacts
facts = record {
  stage = StErrorStage.delivery;
  endpoint_class = none;
  operation_id = some "op";
  commit_state = CommitState.applied;
  attempt = 1;
  duration_ms = none;
  failure = timeout;
}

map_st_error-applied_example :
    (facts.commit_state ≡ CommitState.applied) ⊎ ReportsApplied facts.failure
unfolding map_st_error new_error
map_st_error-applied_example = map_st_error-applied platform.ids facts refl

validate_lem_example : (validate (append commit_payload) ≡ ok tt) ↔ (
    (fence_is_valid (payload_fence (append commit_payload)) ≡ true)
    × IsOfKind (append commit_payload)
    × IsNamed (append commit_payload))
validate_lem_example = validate_lem (append commit_payload)

abbrev aad : OperationAad
aad = record {
  version = 1;
  operation_id = "op";
  locator_hash = "hash";
  operation_kind = "send";
  actor_id = "actor";
  bot_id = "bot";
  runtime_fence = none;
}

aad-IsShort : IsShort aad
unfolding aad_parts
aad-IsShort = (omega arith, (omega arith, (omega arith, (omega arith, (omega arith, tt)))))

encode-injective_example : (aad.version ≡ aad.version) × (aad_parts aad ≡ aad_parts aad)
encode-injective_example =
    encode-injective aad aad (omega arith) (omega arith) aad-IsShort aad-IsShort refl
