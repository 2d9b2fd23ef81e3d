-- ===== src/Errors/Mapping.antt =====
-- src/modules/bridge/error_mapper.rs: what the mapping of a failure may say about a commit.
use im_bridge_rs.Common.{
  ℕ, String, true, not, Option, none, some, ◌≡◌, refl, ◌⊎◌, inl, inr, arith, Bool-cases,
  Option-cases, ◌==◌,
}
use im_bridge_rs.Errors.Codes.{
  StErrorStage, CommitState, StErrorCode, parse_code, parse_commit_state,
}
use im_bridge_rs.Errors.Bridge.{ErrorIds, StBridgeError, new_error}
use im_bridge_rs.Errors.Mapper.{
  JsonError, Body, StFailureFacts, http, StErrorFacts, mapped, mapped_plain, is_json_body,
  status_verdict, map_5xx, map_5xx_at, map_other_4xx, map_other_4xx_at, or_default, and_parse,
  with_code, with_error, map_upstream_st_error, map_http, map_failure, map_st_error,
}

-- The error document in a response says that the commit was applied.
abbrev pub ReportsApplied : StFailureFacts → Type 0
ReportsApplied failure =
    (status : ℕ) × (content_type : Option String) × (body : Body) × (e : JsonError) × (failure
      ≡ http status content_type (some body))
    × (is_json_body content_type body ≡ true)
    × (body.error ≡ some e)
    × (and_parse e.commit_state parse_commit_state ≡ some CommitState.applied)

map_5xx_at-applied :
    (s : StErrorStage) (f : StErrorFacts)
    → (map_5xx_at s f).3 ≡ CommitState.applied
    → f.commit_state ≡ CommitState.applied
unfolding map_5xx_at
map_5xx_at-applied StErrorStage.connect f h = h
map_5xx_at-applied _ f h = ground (arith, h)

map_other_4xx_at-applied :
    (s : StErrorStage) (f : StErrorFacts)
    → (map_other_4xx_at s f).3 ≡ CommitState.applied
    → f.commit_state ≡ CommitState.applied
unfolding map_other_4xx_at
map_other_4xx_at-applied StErrorStage.connect f h = h
map_other_4xx_at-applied _ f h = ground (arith, h)

status_verdict-applied :
    (f : StErrorFacts) (status : ℕ)
    → (status_verdict f status).3 ≡ CommitState.applied
    → f.commit_state ≡ CommitState.applied
unfolding status_verdict map_5xx map_other_4xx
status_verdict-applied f status h =
    ground (arith, h, map_5xx_at-applied f.stage f, map_other_4xx_at-applied f.stage f)

or_default-cases :
    (o : Option CommitState) (d : CommitState)
    → or_default o d ≡ CommitState.applied
    → (o ≡ some CommitState.applied) ⊎ (d ≡ CommitState.applied)
or_default-cases none d h = inr h
or_default-cases (some s) d h = inl (cc h)

with_code-applied :
    (c : Option StErrorCode) (code : String) (e : JsonError) (ids : ErrorIds) (f : StErrorFacts)
    (status : ℕ) (error : StBridgeError)
    → with_code c code e ids f status ≡ some error
    → error.commit_state ≡ CommitState.applied
    → (and_parse e.commit_state parse_commit_state ≡ some CommitState.applied)
      ⊎ (f.commit_state ≡ CommitState.applied)
unfolding mapped new_error
with_code-applied none code e ids f status error h a = absurd (cc h)
with_code-applied (some c) code e ids f status error h a =
    or_default-cases (and_parse e.commit_state parse_commit_state) f.commit_state
      (ground (arith, h, a))

with_error-applied :
    (o : Option JsonError) (ids : ErrorIds) (f : StErrorFacts) (status : ℕ) (error : StBridgeError)
    → with_error o ids f status ≡ some error
    → error.commit_state ≡ CommitState.applied
    → ((e : JsonError) × (o ≡ some e)
        × (and_parse e.commit_state parse_commit_state ≡ some CommitState.applied))
      ⊎ (f.commit_state ≡ CommitState.applied)
with_error-applied none ids f status error h a = absurd (cc h)
with_error-applied (some e) ids f status error h a = elim (Option-cases e.code) [
  | inl none_ ↦ absurd (cc (rw none_ at h))
  | inr (code, given) ↦
      elim (with_code-applied (parse_code code) code e ids f status error (rw given at h) a) [
        | inl reported ↦ inl (e, refl, reported)
        | inr before ↦ inr before
      ]
]

upstream-applied :
    (ids : ErrorIds) (f : StErrorFacts) (status : ℕ) (content_type : Option String)
    (body : Option Body) (error : StBridgeError)
    → map_upstream_st_error ids f status content_type body ≡ some error
    → error.commit_state ≡ CommitState.applied
    → (f.commit_state ≡ CommitState.applied) ⊎ ReportsApplied (http status content_type body)
unfolding map_upstream_st_error
upstream-applied ids f status content_type none error h a = absurd (cc h)
upstream-applied ids f status content_type (some body) error h a =
    elim (Bool-cases (not (is_json_body content_type body))) [
      | inl other ↦ absurd (cc (rw (other, map_upstream_st_error) at h))
      | inr json ↦
          elim (with_error-applied body.error ids f status error
            (rw (json, map_upstream_st_error) at h) a) [
              | inl (e, given, reported) ↦
                  inr (status, content_type, body, e, refl, ground (arith, json), given, reported)
              | inr before ↦ inl before
            ]
    ]

map_http-applied :
    (ids : ErrorIds) (f : StErrorFacts) (status : ℕ) (content_type : Option String)
    (body : Option Body)
    → (map_http ids f status content_type body).commit_state ≡ CommitState.applied
    → (f.commit_state ≡ CommitState.applied) ⊎ ReportsApplied (http status content_type body)
unfolding map_http mapped new_error
map_http-applied ids f status content_type body h = elim (Bool-cases (status == 0)) [
  | inl zero_ ↦ inl (rw (zero_, map_http) at h)
  | inr other ↦ elim (Option-cases (map_upstream_st_error ids f status content_type body)) [
    | inl none_ ↦ inl (status_verdict-applied f status (rw (other, none_, map_http) at h))
    | inr (error, e) ↦
        upstream-applied ids f status content_type body error e (rw (other, e, map_http) at h)
  ]
]

map_failure-applied :
    (ids : ErrorIds) (f : StErrorFacts) (failure : StFailureFacts)
    → (map_failure ids f failure).commit_state ≡ CommitState.applied
    → (f.commit_state ≡ CommitState.applied) ⊎ ReportsApplied failure
unfolding map_failure mapped_plain mapped new_error
map_failure-applied ids f (http status content_type body) h =
    map_http-applied ids f status content_type body h
map_failure-applied ids f _ h = inl h

-- A mapped error says that the commit was applied only if that was known before the failure, or the
-- failure is a JSON response whose error document says so.
pub map_st_error-applied :
    (ids : ErrorIds) (f : StErrorFacts)
    → (map_st_error ids f).commit_state ≡ CommitState.applied
    → (f.commit_state ≡ CommitState.applied) ⊎ ReportsApplied f.failure
unfolding map_st_error
map_st_error-applied ids f h = map_failure-applied ids f f.failure h
