-- ===== src/Examples/Gate.antt =====
-- The write gate of src/domain/st.rs at a production bridge and a test connector.
use im_bridge_rs.Common.{◌≡◌, ◌↔◌, ◌⊎◌, true}
use im_bridge_rs.Errors.{ok}
use im_bridge_rs.St.{WriteFacts, production_write, test_write, allows_write, effective, check_write}
use im_bridge_rs.St.Gate.{check_write-effective}

abbrev facts : WriteFacts
facts = record {
  handshake_valid = true;
  profile_matches = true;
  integrity_enabled = true;
  ownership_valid = true;
  approved_locator = true;
  connector_created_test = true;
  test_name_prefix = true;
}

check_write-effective_example :
    (check_write (effective production_write test_write) facts ≡ ok tt) ↔ (
      (allows_write production_write ≡ true)
      × (allows_write test_write ≡ true)
      × (facts.handshake_valid ≡ true)
      × (facts.profile_matches ≡ true)
      × (facts.integrity_enabled ≡ true)
      × (facts.ownership_valid ≡ true)
      × (facts.approved_locator ≡ true)
      × (((production_write ≡ production_write) × (test_write ≡ production_write))
          ⊎ ((facts.connector_created_test ≡ true) × (facts.test_name_prefix ≡ true))))
check_write-effective_example = check_write-effective production_write test_write facts
