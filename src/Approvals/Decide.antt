-- ===== src/Approvals/Decide.antt =====
-- service.go, decide and record: the transition of a pending request, with its audit entry and its
-- event; and the UPDATE of queries/approvals.sql (DecideApproval) under it.
use wf_all.Prelude.{
  ℕ, Bool, true, false, List, [], ◌∷◌, Option, none, some, String, Text, ◌==◌, if◌then◌else◌,
}
use wf_all.Approvals.{
  Status, expired, is_pending, Row, val, Actor, decided, Entry, Event, State, system_label,
}

-- The arguments of the UPDATE.
pub record Decision : Type 0 where
  pub to : Status
  pub by : Option ℕ
  pub label : Text
  pub at : ℕ
  pub comment : Option Text
  pub failure_text : Option String

abbrev pub staff_of : Option Actor → Option ℕ
staff_of none = none
staff_of (some a) = some a.staff.staff_id

abbrev pub label_of : Option Actor → Text
label_of none = system_label
label_of (some a) = a.label

abbrev pub is_expiry : Status → Bool
is_expiry expired = true
is_expiry _ = false

module _ {P : Type 0} where
  unfoldable pub apply : Decision → Row P → Row P
  apply d r = record r {
    status = d.to;
    decided_by = d.by;
    decided_by_label = some d.label;
    decided_at = some d.at;
    decision_comment = d.comment;
    error = d.failure_text;
  }

  -- The row of `LockApproval`.
  unfoldable pub find : ℕ → List (Row P) → Option (Row P)
  find i [] = none
  find i (r ∷ rs) = if r.id == i then some r else find i rs

  -- DecideApproval: the row of this id, the primary key, where it is pending; otherwise no row comes
  -- back.
  unfoldable pub decide_row : ℕ → Decision → List (Row P) → Option (List (Row P) × Row P)
  unfolding apply
  decide_row i d [] = none
  decide_row i d (r ∷ rs) =
      let rest = decide_row i d rs in
      if r.id == i
      then (if is_pending r.status then some (apply d r ∷ rs, apply d r) else none)
      else elim rest [ none ↦ none | some (rs', r') ↦ some (r ∷ rs', r') ]

  -- The audit entry of a decided row.
  unfoldable pub entry_of : Row P → Option Actor → Entry
  entry_of r by = record {
    actor_staff_id = staff_of by;
    actor_role = elim by [ none ↦ none | some a ↦ some a.staff.role ];
    actor_label = label_of by;
    audit_action = decided r.status;
    object_id = r.id;
    entry_city = val r.scope_city_id;
    after_action = r.action;
    after_permission = r.permission;
    after_target = r.target_id;
    error_code = r.error;
    reason = r.decision_comment;
    origin = elim by [ none ↦ none | some a ↦ some a.from ];
  }

  unfoldable pub event_of : Row P → Event
  event_of r = record {
    aggregate_id = r.id;
    event_action = r.action;
    event_status = r.status;
    event_target = r.target_id;
    event_city = r.scope_city_id;
    event_requested_by = r.requested_by;
    event_decided_by = r.decided_by;
  }

  -- `record`.
  unfoldable pub record_decision : {W : Type 0} → State W P → Row P → Option Actor → State W P
  unfolding entry_of event_of
  record_decision s r by = record s {
    audit = entry_of r by ∷ s.audit;
    events = event_of r ∷ s.events;
  }

  -- The arguments that `decide` hands to the UPDATE: an expiry is dated by its deadline.
  unfoldable pub decision_of :
      Row P → Status → Option Actor → Option Text → Option String → ℕ → Decision
  decision_of r to by comment failure now = record {
    to = to;
    by = staff_of by;
    label = label_of by;
    at = if is_expiry to then r.expires_at else now;
    comment = comment;
    failure_text = failure;
  }

  -- `decide`; `none` where the UPDATE gives no row back.
  unfoldable pub decide :
      {W : Type 0}
      → State W P
      → Row P
      → Status
      → Option Actor
      → Option Text
      → Option String
      → ℕ
      → Option (State W P × Row P)
  unfolding decide_row decision_of record_decision
  decide s r to by comment failure now =
      elim (decide_row r.id (decision_of r to by comment failure now) s.rows) [
        | none ↦ none
        | some (rows', r') ↦ some (record_decision (record s { rows = rows' }) r' by, r')
      ]
