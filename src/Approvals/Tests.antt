-- ===== src/Approvals/Tests.antt =====
-- A registry with one action, whose executor cancels the requests of member 3, a request of staff member 1 about member 3, and approver 2.
use wf_all.Prelude.{
  ℕ, ◌+◌, ◌≡◌, refl, ◌↔◌, Bool, true, false, [], ◌∷◌, Option, none, some, codes, arith, trim,
  is_space,
}
use wf_all.Prelude.Int.{pos}
use wf_all.Prelude.Drain.{Drained}
use wf_all.Auth.{decide, lookup_grant, Staff, owner, active, dual}
use wf_all.Perm
use wf_all.Approvals.{Row, State, is_expired, pending, executed, Meta}
use wf_all.Approvals.Registry.{
  Action, Registry, action, done, register, set_initiator_check, check_permission,
}
use wf_all.Approvals.Decide.{find}
use wf_all.Approvals.Service.{
  Clock, snapshot, optional_comment, is_ready, given, approve, reject, cancel, gate_row, open_row,
}
use wf_all.Approvals.Decisions.{
  Entered, approve-Approved, Rejected, reject-Rejected, Cancelled, cancel-Cancelled, actor,
}
use wf_all.Approvals.Answers.{Approved}
use wf_all.Approvals.Formats.{View, version, has_version, is_action_name, is_permission_name}
use wf_all.Approvals.Names.{Built, fresh, registered, with_check}
use wf_all.Approvals.Request.{request}
use wf_all.Approvals.Batch.{
  is_initiated, kept_from, expire_due, purge_decided, purged, is_due, is_old,
}
use wf_all.Approvals.Sweeps.{due_count, expire_due-Drained, old_count, purge_decided-Drained}
use wf_all.Approvals.Accounts.{IsConsistent}
use wf_all.Approvals.Calls.{
  call_approve, serve, serve-IsConsistent, Requested, request-Requested, start, called,
  Reach-IsConsistent,
}
use wf_all.Approvals.Listing.{
  incoming, matches, incoming_iff, matches_status, keys_of, effective, matches_status-effective,
}

abbrev invite : Action ℕ ℕ
invite = record {
  name = "staff.invite";
  permission = "staff.roles.grant";
  permit = none;
  exec =
      some (λ w p st. done (w + p) (record { initiator = 3; at = 151; locked = λ i. false } ∷ []));
  target = none;
}

abbrev reg : Registry ℕ ℕ
reg = record { actions = invite ∷ []; check = some (λ w r. none) }

abbrev waiting : Row ℕ
waiting = record {
  id = 9;
  action = "staff.invite";
  permission = "staff.roles.grant";
  status = pending;
  payload = 5;
  target_id = some 3;
  scope_city_id = none;
  requested_by = 1;
  requested_by_label = codes "Anna";
  requested_at = 100;
  expires_at = 200;
  decided_by = none;
  decided_by_label = none;
  decided_at = none;
  decision_comment = none;
  error = none;
}

abbrev approver : Staff
approver = record {
  staff_id = 2;
  session_id = 20;
  role = owner;
  city_ids = [];
  stage = active;
  reauth = false;
  grants = ("staff.roles.grant", dual) ∷ [];
}

abbrev initiator : Staff
initiator = record approver { staff_id = 1 }

abbrev before : State ℕ ℕ
before = record { rows = waiting ∷ []; audit = []; events = []; world = 40 }

abbrev from : Meta
from = record { ip = "10.0.0.1"; user_agent = "test" }

abbrev in_time : Clock
in_time = record { checked = 150; decided = 151 }

abbrev view : ℕ → View
view n = version (some (pos 1))

before-IsConsistent : IsConsistent view before
unfolding is_action_name is_permission_name has_version
before-IsConsistent = record {
  stored = (ground arith, tt);
  distinct = (refl, tt);
  accounted = (refl, tt);
}

reg-Built : Built reg
unfolding register set_initiator_check is_action_name check_permission Perm.lookup
reg-Built = with_check (registered fresh invite refl) (λ w r. none) refl

-- The executor runs once, and the request is executed.
approve_runs : (approve reg before (some approver) (codes "Boris") from 9 [] in_time).0.world ≡ 45
unfolding approve snapshot trim is_space optional_comment find decide lookup_grant is_expired action
    is_initiated
approve_runs = refl

approve-Approved_example :
    Entered before
      (is_ready approver)
      (snapshot (codes "Boris"))
      (optional_comment [])
      (approve reg before (some approver) (codes "Boris") from 9 [] in_time)
      (λ label c answer. Approved reg before (actor approver label from) 9 c in_time answer)
approve-Approved_example = approve-Approved reg before approver (codes "Boris") from 9 [] in_time

reject-Rejected_example :
    Entered before
      (is_ready approver)
      (snapshot (codes "Boris"))
      (optional_comment (codes "no"))
      (reject before (some approver) (codes "Boris") from 9 (codes "no") in_time)
      (λ label c answer. Rejected before (actor approver label from) 9 in_time c answer)
reject-Rejected_example =
    reject-Rejected before approver (codes "Boris") from 9 (codes "no") in_time

cancel-Cancelled_example :
    Entered before
      (is_ready initiator)
      (snapshot (codes "Anna"))
      (given none)
      (cancel before (some initiator) (codes "Anna") from 9 in_time)
      (λ label c answer. Cancelled before (actor initiator label from) 9 in_time answer)
cancel-Cancelled_example = cancel-Cancelled before initiator (codes "Anna") from 9 in_time

serve-IsConsistent_example :
    IsConsistent view (serve reg before (call_approve approver (codes "Boris") from 9 [] in_time))
serve-IsConsistent_example =
    serve-IsConsistent view reg before (call_approve approver (codes "Boris") from 9 [] in_time)
      before-IsConsistent

Reach-IsConsistent_example :
    IsConsistent view (serve reg before (call_approve approver (codes "Boris") from 9 [] in_time))
Reach-IsConsistent_example =
    Reach-IsConsistent reg view before
      (serve reg before (call_approve approver (codes "Boris") from 9 [] in_time)) reg-Built
      before-IsConsistent (called start (call_approve approver (codes "Boris") from 9 [] in_time))

request-Requested_example :
    Requested reg view before
      (some initiator)
      (codes "Anna")
      from
      "staff.invite"
      5
      10
      100
      (request view reg before (some initiator) (codes "Anna") from "staff.invite" 5 10 100)
request-Requested_example =
    request-Requested reg view before (codes "Anna") from "staff.invite" 5 10 100 (some initiator)

abbrev unlocked : ℕ → Bool
unlocked i = false

expire_due-Drained_example :
    Drained (λ t. due_count t unlocked 250) before (expire_due 2 before unlocked 250 100)
unfolding is_due
expire_due-Drained_example =
    expire_due-Drained 2 before unlocked 250 100 (omega arith) (omega arith)

-- One request that was decided long ago, and one that waits.
abbrev aged : State ℕ ℕ
aged = record before {
  rows =
      record waiting { id = 4; status = executed; decided_by = some 2; decided_at = some 120 }
      ∷ waiting
      ∷ [];
}

purge_decided-Drained_example :
    (o : Option (State ℕ ℕ × ℕ)) × (purge_decided 2 aged 500 (pos 300000) 100 ≡ purged o)
    × Drained (old_count 200) aged o
unfolding is_old kept_from
purge_decided-Drained_example =
    purge_decided-Drained 2 aged 500 300000 100 (omega arith) (omega arith) (omega arith)

incoming_iff_example :
    (matches approver incoming (some pending) 150 waiting ≡ true)
    ↔ (gate_row approver waiting 150 ≡ open_row waiting)
unfolding keys_of
incoming_iff_example = incoming_iff approver waiting 150 refl (refl, tt) (λ e. cc)

matches_status-effective_example :
    (matches_status (some executed) 150 waiting ≡ true)
    ↔ ((effective waiting 150).status ≡ executed)
matches_status-effective_example = matches_status-effective executed 150 waiting
