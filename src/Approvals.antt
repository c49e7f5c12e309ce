-- ===== src/Approvals.antt =====
-- backend/internal/platform/approvals/approvals.go and the row, audit and event parts of
-- service.go: requests that a second person decides. A time is a number of microseconds, the
-- precision of the clock of the service; a uuid is a number and uuid.Nil is 0. `P` is the payload of
-- a request and `W` the tables of the module whose action runs.
pub mod Formats
pub mod Labels
pub mod Registry
pub mod Decide
pub mod Service
pub mod Request
pub mod Batch
pub mod Sweeps
pub mod Accounts
pub mod Listing
pub mod Stored
pub mod Cancels
pub mod Names
pub mod Swept
pub mod Outcomes
pub mod Answers
pub mod Decisions
pub mod Lifecycle
pub mod Calls
pub mod Tests
use wf_all.Prelude.{
  ℕ, ◌+◌, ◌*◌, Bool, true, false, not, List, [], ◌∷◌, ◌++◌, Option, none, some, String, Text, ltb,
  codes,
}
use wf_all.Auth.{Staff, Role}

pub data Status : Type 0 where
  pending executed rejected cancelled expired failed : Status

abbrev pub is_pending : Status → Bool
is_pending pending = true
is_pending _ = false

-- A business refusal of an executor or of the initiator check. `initiator_changed` wraps `stale`;
-- `coded` carries a client code (ProblemError or Code()), `uncoded` carries none.
pub data Fault : Type 0 where
  stale initiator_changed uncoded : Fault
  coded : String → Fault

-- An error of an executor or of the check: wrapped by `Fail`, or not.
pub data ExecError : Type 0 where
  failure : Fault → ExecError
  bare : Fault → ExecError

-- The visible error of a business refusal; `none` is a breakdown.
unfoldable pub business : ExecError → Option Fault
business (failure f) = some f
business (bare stale) = some stale
business (bare initiator_changed) = some stale
business (bare (coded _)) = none
business (bare uncoded) = none

-- `errors.Is(err, ErrInitiatorChanged)`.
abbrev pub is_initiator_changed : ExecError → Bool
is_initiator_changed (failure initiator_changed) = true
is_initiator_changed (bare initiator_changed) = true
is_initiator_changed _ = false

abbrev pub text_initiator_changed : String
text_initiator_changed = "initiator_changed"

-- `errorText`; an error that wraps ErrStale has its code.
unfoldable pub error_text : Fault → String
error_text stale = "platform.approval_stale"
error_text initiator_changed = "platform.approval_stale"
error_text (coded c) = c
error_text uncoded = "execution_failed"

pub data Error : Type 0 where
  err_not_found err_self err_closed err_forbidden : Error
  err_fault : Fault → Error
  err_exec : ExecError → Error
  err_label err_no_initiator_check err_unregistered err_payload err_permit err_permission : Error
  err_comment_length err_comment_required err_no_row err_retention : Error

-- 24 hours.
abbrev pub ttl : ℕ
ttl = 24 * 3600 * 1000000

abbrev pub system_label : Text
system_label = codes "system"

-- A row of the table `approvals`.
pub record Row (P : Type 0) : Type 0 where
  pub id : ℕ
  pub action : String
  pub permission : String
  pub status : Status
  pub payload : P
  pub target_id : Option ℕ
  pub scope_city_id : Option ℕ
  pub requested_by : ℕ
  pub requested_by_label : Text
  pub requested_at : ℕ
  pub expires_at : ℕ
  pub decided_by : Option ℕ
  pub decided_by_label : Option Text
  pub decided_at : Option ℕ
  pub decision_comment : Option Text
  pub error : Option String

-- `val` and `optUUID`.
abbrev pub val : Option ℕ → ℕ
val none = 0
val (some u) = u

pub record Meta : Type 0 where
  pub ip : String
  pub user_agent : String

-- `actor`: who decided; the system where there is none.
pub record Actor : Type 0 where
  pub staff : Staff
  pub label : Text
  pub from : Meta

pub data AuditAction : Type 0 where
  requested : AuditAction
  decided : Status → AuditAction

-- An audit entry; no author, role and origin is the system's.
pub record Entry : Type 0 where
  pub actor_staff_id : Option ℕ
  pub actor_role : Option Role
  pub actor_label : Text
  pub audit_action : AuditAction
  pub object_id : ℕ
  pub entry_city : ℕ
  pub after_action : String
  pub after_permission : String
  pub after_target : Option ℕ
  pub error_code : Option String
  pub reason : Option Text
  pub origin : Option Meta

-- The event platform.approval_decided.
pub record Event : Type 0 where
  pub aggregate_id : ℕ
  pub event_action : String
  pub event_status : Status
  pub event_target : Option ℕ
  pub event_city : Option ℕ
  pub event_requested_by : ℕ
  pub event_decided_by : Option ℕ

pub record State (W P : Type 0) : Type 0 where
  pub rows : List (Row P)
  pub audit : List Entry
  pub events : List Event
  pub world : W

-- `expired`: now is not before the deadline.
unfoldable pub is_expired : {P : Type 0} → Row P → ℕ → Bool
is_expired r now = not (ltb now r.expires_at)
