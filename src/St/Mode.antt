-- ===== src/St/Mode.antt =====
-- src/domain/st.rs: the write modes, what each allows, and the checks before a write.
use im_bridge_rs.Common.{
  ℕ, String, Bool, true, false, not, [], ◌∷◌, ◌&&◌, Option, ltb, leb, match_text, trim,
  if◌then◌else◌,
}
use im_bridge_rs.Errors.{Result, ok, err}

pub data StWriteMode : Type 0 where
  disabled read_only test_write production_write : StWriteMode

-- `#[repr(u8)]`: the derived order is that of the discriminants.
abbrev pub mode_rank : StWriteMode → ℕ
mode_rank disabled = 0
mode_rank read_only = 1
mode_rank test_write = 2
mode_rank production_write = 3

pub record WriteFacts : Type 0 where
  pub handshake_valid : Bool
  pub profile_matches : Bool
  pub integrity_enabled : Bool
  pub ownership_valid : Bool
  pub approved_locator : Bool
  pub connector_created_test : Bool
  pub test_name_prefix : Bool

unfoldable pub allows_write : StWriteMode → Bool
allows_write test_write = true
allows_write production_write = true
allows_write _ = false

unfoldable pub allows_read : StWriteMode → Bool
allows_read disabled = false
allows_read _ = true

-- `StWriteMode::parse`
unfoldable pub parse_mode : String → Option StWriteMode
parse_mode value =
    match_text
      (("disabled", disabled)
        ∷ ("read_only", read_only)
        ∷ ("test_write", test_write)
        ∷ ("production_write", production_write)
        ∷ [])
      (trim value)

-- `StWriteMode::effective`, which is `self.min(connector)`.
unfoldable pub effective : StWriteMode → StWriteMode → StWriteMode
effective mode connector = if leb (mode_rank mode) (mode_rank connector) then mode else connector

abbrev is_test_write : StWriteMode → Bool
is_test_write test_write = true
is_test_write _ = false

-- `StWriteMode::check_write`
unfoldable pub check_write : StWriteMode → WriteFacts → Result String (Unit {0})
check_write mode facts =
    if ltb (mode_rank mode) (mode_rank test_write)
    then err "ST_WRITE_NOT_READY"
    else if not (
        facts.handshake_valid && facts.profile_matches && facts.integrity_enabled
        && facts.ownership_valid && facts.approved_locator)
    then err "ST_WRITE_PREFLIGHT_REJECTED"
    else if is_test_write mode && not (facts.connector_created_test && facts.test_name_prefix)
    then err "ST_TEST_SCOPE_REQUIRED"
    else ok tt

pub data StWriteScope : Type 0 where
  test_chat production_chat : StWriteScope

-- `StWriteScope::mode`
unfoldable pub scope_mode : StWriteScope → StWriteMode
scope_mode test_chat = test_write
scope_mode production_chat = production_write

-- the derived `PartialEq`
abbrev pub scope_eq : StWriteScope → StWriteScope → Bool
scope_eq test_chat test_chat = true
scope_eq production_chat production_chat = true
scope_eq _ _ = false

pub record StCapabilities : Type 0 where
  pub mode : StWriteMode
  pub snapshot : Bool
  pub typed_mutations : Bool
  pub integrity_rotation : Bool
  pub operation_replay : Bool

pub record StStatus : Type 0 where
  pub available : Bool
  pub version : Option String
  pub handle : String
  pub capabilities : StCapabilities

-- `StStatus::write_ready`
unfoldable pub write_ready : StStatus → Bool
unfolding allows_write
write_ready s =
    allows_write c.mode
    && c.snapshot
    && c.typed_mutations
    && c.integrity_rotation
    && c.operation_replay
  where
    c : StCapabilities
    c = s.capabilities
