-- ===== src/St/Gate.antt =====
-- The write gate of src/domain/st.rs: which writes the checks let through.
use im_bridge_rs.Common.{◌≡◌, ◌↔◌, ◌⊎◌, true, arith}
use im_bridge_rs.Errors.{ok}
use im_bridge_rs.St.Mode.{
  StWriteMode, disabled, production_write, WriteFacts, allows_write, effective, check_write,
}

-- What a write in a mode needs, as a specification.
pub record MayWrite (mode : StWriteMode) (facts : WriteFacts) : Type 0 where
  pub writable : allows_write mode ≡ true
  pub handshake : facts.handshake_valid ≡ true
  pub profile : facts.profile_matches ≡ true
  pub integrity : facts.integrity_enabled ≡ true
  pub owned : facts.ownership_valid ≡ true
  pub approved : facts.approved_locator ≡ true
  pub test_only :
      (mode ≡ production_write)
      ⊎ ((facts.connector_created_test ≡ true) × (facts.test_name_prefix ≡ true))

check_write_sound :
    (mode : StWriteMode) (facts : WriteFacts) → check_write mode facts ≡ ok tt → MayWrite mode facts
unfolding check_write allows_write
check_write_sound disabled facts h = ground arith
check_write_sound _ facts h = ground arith

check_write_complete :
    (mode : StWriteMode) (facts : WriteFacts) → MayWrite mode facts → check_write mode facts ≡ ok tt
unfolding check_write allows_write
check_write_complete disabled facts h = ground arith
check_write_complete _ facts h = ground arith

effective_writes :
    (a b : StWriteMode)
    → (allows_write (effective a b) ≡ true) ↔ ((allows_write a ≡ true) × (allows_write b ≡ true))
unfolding effective allows_write
effective_writes disabled disabled = ground arith
effective_writes _ _ = ground arith

effective_production :
    (a b : StWriteMode)
    → (effective a b ≡ production_write) ↔ ((a ≡ production_write) × (b ≡ production_write))
unfolding effective
effective_production disabled disabled = ground arith
effective_production _ _ = ground arith

-- The bridge's mode `a` and the connector's mode `b` are joined by `effective`. A write then passes
-- `check_write` exactly when both modes allow writes, the five preflight facts hold, and either both
-- modes are production or the chat was created by the connector as a test and has the test prefix.
pub check_write-effective :
    (a b : StWriteMode) (facts : WriteFacts)
    → (check_write (effective a b) facts ≡ ok tt) ↔ (
        (allows_write a ≡ true)
        × (allows_write b ≡ true)
        × (facts.handshake_valid ≡ true)
        × (facts.profile_matches ≡ true)
        × (facts.integrity_enabled ≡ true)
        × (facts.ownership_valid ≡ true)
        × (facts.approved_locator ≡ true)
        × (((a ≡ production_write) × (b ≡ production_write))
            ⊎ ((facts.connector_created_test ≡ true) × (facts.test_name_prefix ≡ true))))
check_write-effective a b facts = (
  λ h. ground (
    arith,
    check_write_sound (effective a b) facts h,
    effective_writes a b,
    effective_production a b,
  ),
  λ h.
      check_write_complete (effective a b) facts
        (ground (arith, effective_writes a b, effective_production a b)),
)
