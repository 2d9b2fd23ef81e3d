-- ===== src/Errors/Names.antt =====
-- The wire names of src/modules/bridge/errors.rs, printed and parsed.
use im_bridge_rs.Common.{
  ◌≡◌, ◌↔◌, refl, subst, some, match_text, match_text-named, arms_named, String,
}
use im_bridge_rs.Errors.Codes.{
  StErrorStage, CommitState, StErrorCode, stage_as_str, parse_stage, commit_state_as_str,
  parse_commit_state, code_as_str, parse_code,
}

parse-code_as_str : (c : StErrorCode) → parse_code (code_as_str c) ≡ some c
unfolding parse_code code_as_str match_text
parse-code_as_str StErrorCode.st_connect_failed = refl
parse-code_as_str _ = refl

code_as_str-parse : (s : String) {c : StErrorCode} → parse_code s ≡ some c → code_as_str c ≡ s
unfolding parse_code code_as_str arms_named
code_as_str-parse s e = match_text-named code_as_str _ s refl e

parse-stage_as_str : (c : StErrorStage) → parse_stage (stage_as_str c) ≡ some c
unfolding parse_stage stage_as_str match_text
parse-stage_as_str StErrorStage.control = refl
parse-stage_as_str _ = refl

stage_as_str-parse : (s : String) {c : StErrorStage} → parse_stage s ≡ some c → stage_as_str c ≡ s
unfolding parse_stage stage_as_str arms_named
stage_as_str-parse s e = match_text-named stage_as_str _ s refl e

parse-commit_state_as_str : (c : CommitState) → parse_commit_state (commit_state_as_str c) ≡ some c
unfolding parse_commit_state commit_state_as_str match_text
parse-commit_state_as_str CommitState.unknown = refl
parse-commit_state_as_str _ = refl

commit_state_as_str-parse :
    (s : String) {c : CommitState} → parse_commit_state s ≡ some c → commit_state_as_str c ≡ s
unfolding parse_commit_state commit_state_as_str arms_named
commit_state_as_str-parse s e = match_text-named commit_state_as_str _ s refl e

-- Error codes, stages and commit states: parsing the wire name of a value gives the value back,
-- and a text is parsed to a value only if it is that value's wire name.
error_names_roundtrip :
    ((c : StErrorCode) (s : String) → (parse_code s ≡ some c) ↔ (code_as_str c ≡ s))
    × ((c : StErrorStage) (s : String) → (parse_stage s ≡ some c) ↔ (stage_as_str c ≡ s))
    × ((c : CommitState) (s : String)
        → (parse_commit_state s ≡ some c) ↔ (commit_state_as_str c ≡ s))
error_names_roundtrip = (
  (λ c s. (code_as_str-parse s, λ e. subst (λ t. parse_code t ≡ some c) e (parse-code_as_str c))),
  (λ c s.
      (stage_as_str-parse s, λ e. subst (λ t. parse_stage t ≡ some c) e (parse-stage_as_str c))),
  λ c s. (
    commit_state_as_str-parse s,
    λ e. subst (λ t. parse_commit_state t ≡ some c) e (parse-commit_state_as_str c),
  ),
)
