-- ===== src/Store/Keys.antt =====
-- src/modules/bridge/operation_store.rs: the references to the wrapped key of an operation.
use im_bridge_rs.Common.{
  ℕ, pos, String, not, Option, none, some, ◌||◌, str_eq, ◌==◌, is_blank, if◌then◌else◌,
}
use im_bridge_rs.Errors.{
  AppError, AppResult, ok, err, ok_or, internal_error, bad_request_error, conflict_error,
}
use im_bridge_rs.Store.Row.{u32_try_from}
use im_bridge_rs.Store.Updates.{KeyRefRow}
use im_bridge_rs.Store.Statements.{insert_key_ref, find_key_ref}
use im_bridge_rs.Store.Effects.{M, ◌>>=◌, lift, execute, fetch}

pub record OperationKeyReference : Type 0 where
  pub wrapped_secret_id : String
  pub key_version : ℕ  -- u32

checked_version : String → Option ℕ → AppResult (Option OperationKeyReference)
checked_version secret none = err (internal_error "operation key version is invalid")
checked_version secret (some version) =
    if version == 0
    then err (internal_error "operation key version is invalid")
    else ok (some (record { wrapped_secret_id = secret; key_version = version }))

-- A row as `get_operation_key_reference` reads it.
unfoldable pub read_key_ref : Option KeyRefRow → AppResult (Option OperationKeyReference)
unfolding checked_version u32_try_from
read_key_ref none = ok none
read_key_ref (some k) =
    if is_blank k.wrapped_secret_id
    then err (internal_error "operation wrapped secret reference is invalid")
    else checked_version k.wrapped_secret_id (u32_try_from k.key_version)

-- `get_operation_key_reference`
unfoldable pub get_operation_key_reference : String → M AppError (Option OperationKeyReference)
unfolding fetch read_key_ref
get_operation_key_reference id = fetch (λ db. read_key_ref (find_key_ref id db.key_refs))

abbrev pub rows_inserted : Option KeyRefRow → ℕ
rows_inserted none = 1
rows_inserted (some old) = 0

-- The INSERT of `put_operation_key_reference`.
unfoldable pub insert_reference : String → String → ℕ → M AppError ℕ
unfolding execute
insert_reference id wrapped_secret_id key_version =
    execute
      (insert_key_ref (record {
        operation_id = id;
        wrapped_secret_id = wrapped_secret_id;
        key_version = pos key_version;
      }))
      (λ db. rows_inserted (find_key_ref id db.key_refs))

unfoldable pub same_reference : String → ℕ → OperationKeyReference → AppResult (Unit {0})
same_reference wrapped_secret_id key_version existing =
    if not (str_eq existing.wrapped_secret_id wrapped_secret_id)
      || not (existing.key_version == key_version)
    then err (
        conflict_error "PAYLOAD_KEY_REFERENCE_CONFLICT"
          "operation already has a different wrapped key reference")
    else ok tt

-- After an INSERT that met a reference of the operation.
unfoldable pub confirm_reference : String → String → ℕ → M AppError (Unit {0})
unfolding get_operation_key_reference same_reference
confirm_reference id wrapped_secret_id key_version = do
  found ← get_operation_key_reference id
  existing ←
      lift (ok_or found (internal_error "operation key reference disappeared after conflict"))
  lift (same_reference wrapped_secret_id key_version existing)

unfoldable pub after_insert : String → String → ℕ → ℕ → M AppError (Unit {0})
unfolding confirm_reference
after_insert id wrapped_secret_id key_version inserted =
    if inserted == 1 then lift (ok tt) else confirm_reference id wrapped_secret_id key_version

-- `put_operation_key_reference`
unfoldable pub put_operation_key_reference : String → String → ℕ → M AppError (Unit {0})
unfolding insert_reference after_insert
put_operation_key_reference id wrapped_secret_id key_version =
    if is_blank id || is_blank wrapped_secret_id || key_version == 0
    then lift (
        err (
          bad_request_error "PAYLOAD_KEY_REFERENCE_INVALID"
            "operation wrapped secret reference is invalid"))
    else (insert_reference id wrapped_secret_id key_version
        >>= after_insert id wrapped_secret_id key_version)
