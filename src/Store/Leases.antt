-- ===== src/Store/Leases.antt =====
-- src/modules/bridge/operation_store.rs: the execution lease of an operation.
use im_bridge_rs.Common.{
  ℕ, ◌-◌, ◌^◌, String, Bool, Option, none, some, ◌||◌, ◌==◌, ltb, is_blank, if◌then◌else◌,
}
use im_bridge_rs.Errors.{AppError, AppResult, ok, err, internal_error, bad_request_error}
use im_bridge_rs.Store.Statements.{
  LeaseRow, LeaseRequest, acquire_lease, release_lease, acquired_lease, leases_dropped,
}
use im_bridge_rs.Store.Effects.{M, ◌>>=◌, lift, execute}

pub record OperationExecutionLease : Type 0 where
  pub operation_id : String
  pub instance_id : String
  pub lease_generation : ℕ  -- u64
  pub lease_until : String

-- The returned row; the table holds no negative generation.
unfoldable pub read_lease : Option LeaseRow → AppResult (Option OperationExecutionLease)
read_lease none = ok none
read_lease (some l) =
    if l.lease_generation == 0
    then err (internal_error "operation lease generation is invalid")
    else ok (
        some (record {
          operation_id = l.operation_id;
          instance_id = l.instance_id;
          lease_generation = l.lease_generation;
          lease_until = l.lease_until;
        }))

-- `try_acquire_execution_lease`
unfoldable pub try_acquire_execution_lease :
    LeaseRequest → M AppError (Option OperationExecutionLease)
unfolding execute read_lease acquired_lease
try_acquire_execution_lease q =
    if is_blank q.operation_id
      || is_blank q.bot_id
      || is_blank q.instance_id
      || is_blank q.lease_until
    then lift (
        err (
          bad_request_error "OPERATION_LEASE_INVALID"
            "operation execution lease identity is incomplete"))
    else execute (acquire_lease q) (acquired_lease q) >>= λ row. lift (read_lease row)

-- `release_execution_lease`
unfoldable pub release_execution_lease : OperationExecutionLease → M AppError Bool
unfolding execute leases_dropped
release_execution_lease l =
    if ltb (2 ^ 63 - 1) l.lease_generation
    then lift (err (internal_error "operation lease generation is invalid"))
    else execute (release_lease l.operation_id l.instance_id l.lease_generation)
        (λ db. leases_dropped l.operation_id l.instance_id l.lease_generation db.leases)
      >>= λ dropped. lift (ok (dropped == 1))
