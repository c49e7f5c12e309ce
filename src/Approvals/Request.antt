-- ===== src/Approvals/Request.antt =====
-- service.go, Request and encodePayload: a new pending request in the transaction of a module.
use wf_all.Prelude.{
  ℕ, ◌+◌, Bool, true, false, not, ◌∷◌, Option, none, some, String, Text, ◌==◌, if◌then◌else◌,
}
use wf_all.Auth.{Staff, Decision, denied, decide as decide_staff}
use wf_all.Approvals.{
  pending, err_forbidden, err_label, err_unregistered, err_payload, err_permit, err_permission, ttl,
  Row, val, Meta, requested, Entry, State,
}
use wf_all.Approvals.Formats.{View, is_versioned}
use wf_all.Approvals.Registry.{Action, Registry, action, check_permission}
use wf_all.Approvals.Service.{ok, err, Answer, snapshot}

unfoldable pub opt_uuid : ℕ → Option ℕ
opt_uuid u = if u == 0 then none else some u

abbrev pub is_denied : Decision → Bool
is_denied denied = true
is_denied _ = false

module _ {P : Type 0} where
  unfoldable pub new_row : Staff → Text → String → String → P → ℕ × ℕ → ℕ → ℕ → Row P
  unfolding opt_uuid
  new_row by label name permission p (target, city) id now = record {
    id = id;
    action = name;
    permission = permission;
    status = pending;
    payload = p;
    target_id = opt_uuid target;
    scope_city_id = opt_uuid city;
    requested_by = by.staff_id;
    requested_by_label = label;
    requested_at = now;
    expires_at = now + ttl;
    decided_by = none;
    decided_by_label = none;
    decided_at = none;
    decision_comment = none;
    error = none;
  }

  unfoldable pub request_entry : Staff → Meta → Row P → Entry
  request_entry by m r = record {
    actor_staff_id = some by.staff_id;
    actor_role = some by.role;
    actor_label = r.requested_by_label;
    audit_action = requested;
    object_id = r.id;
    entry_city = val r.scope_city_id;
    after_action = r.action;
    after_permission = r.permission;
    after_target = r.target_id;
    error_code = none;
    reason = none;
    origin = some m;
  }

module _ {W P : Type 0} where
  -- The right of the request: by the payload, or the fixed one; `none` where Permit fails.
  unfoldable pub permission_of : Action W P → P → Option String
  permission_of a p = elim a.permit [ none ↦ some a.permission | some f ↦ f p ]

  unfoldable pub target_of : Action W P → P → ℕ × ℕ
  target_of a p = elim a.target [ none ↦ (0, 0) | some f ↦ f p ]

  unfoldable pub insert : State W P → Staff → Meta → Row P → Answer W P
  unfolding request_entry
  insert s by m r = (record s { rows = r ∷ s.rows; audit = request_entry by m r ∷ s.audit }, ok r)

  unfoldable pub admit_labelled :
      State W P → Staff → Option Text → Meta → String → String → P → ℕ × ℕ → ℕ → ℕ → Answer W P
  unfolding insert new_row
  admit_labelled s by none m name permission p t id now = (s, err err_label)
  admit_labelled s by (some label) m name permission p t id now =
      insert s by m (new_row by label name permission p t id now)

  -- The rest of `Request`, with the right at hand.
  unfoldable pub admit :
      State W P → Option Staff → Text → Meta → String → String → P → ℕ × ℕ → ℕ → ℕ → Answer W P
  unfolding admit_labelled
  admit s none l m name permission p t id now = (s, err err_forbidden)
  admit s (some by) l m name permission p t id now =
      if is_denied (decide_staff by permission t.1)
      then (s, err err_forbidden)
      else admit_labelled s by (snapshot l) m name permission p t id now

  unfoldable pub request_permitted :
      State W P
      → Option Staff
      → Text
      → Meta
      → String
      → P
      → ℕ
      → ℕ
      → Action W P
      → Option String
      → Answer W P
  unfolding admit target_of
  request_permitted s by l m name p id now a none = (s, err err_permit)
  request_permitted s by l m name p id now a (some permission) =
      if not (check_permission permission)
      then (s, err err_permission)
      else admit s by l m name permission p (target_of a p) id now

  unfoldable pub request_registered :
      (P → View)
      → State W P
      → Option Staff
      → Text
      → Meta
      → String
      → P
      → ℕ
      → ℕ
      → Option (Action W P)
      → Answer W P
  unfolding request_permitted permission_of
  request_registered view s by l m name p id now none = (s, err err_unregistered)
  request_registered view s by l m name p id now (some a) =
      if not (is_versioned (view p))
      then (s, err err_payload)
      else request_permitted s by l m name p id now a (permission_of a p)

  -- `Request`; `id` is the fresh uuid of id.New.
  unfoldable pub request :
      (P → View)
      → Registry W P
      → State W P
      → Option Staff
      → Text
      → Meta
      → String
      → P
      → ℕ
      → ℕ
      → Answer W P
  unfolding request_registered
  request view reg s by l m name p id now =
      request_registered view s by l m name p id now (action reg name)
