-- ===== src/Approvals/Service.antt =====
-- service.go: Request, Approve, Reject, Cancel and lockForDecision. A transaction that ends in an
-- error gives the state back that it began with (db.InTx); errors of the database itself and panics
-- do the same and are left out. The clock is read twice, at the check of the deadline and at the
-- decision.
use wf_all.Prelude.{
  ℕ, Bool, true, false, not, ◌&&◌, ◌||◌, List, [], ◌∷◌, Option, none, some, Text, ltb, ◌==◌,
  if◌then◌else◌, trim, is_empty, length,
}
use wf_all.Auth.{Staff, is_active, Decision, denied, decide as decide_staff}
use wf_all.Approvals.{
  executed, rejected, cancelled, expired, failed, is_pending, stale, ExecError, business,
  is_initiator_changed, text_initiator_changed, error_text, Error, err_not_found, err_self,
  err_closed, err_forbidden, err_fault, err_exec, err_label, err_no_initiator_check,
  err_unregistered, err_comment_length, err_comment_required, err_no_row, Row, val, Meta, Actor,
  State, is_expired,
}
use wf_all.Approvals.Registry.{Action, Registry, Cancelling, ExecResult, done, refused, action}
use wf_all.Approvals.Batch.{cancel_by_initiator}
use wf_all.Approvals.Decide.{find, decide}

-- What a call returns: a request, an error, or both (a request that the call settled otherwise).
pub data Reply (P : Type 0) : Type 0 where
  ok : Row P → Reply P
  err : Error → Reply P
  settled : Row P → Error → Reply P

-- The clock at the check of the deadline and at the decision.
pub record Clock : Type 0 where
  pub checked : ℕ
  pub decided : ℕ

-- `active` on a session that is there.
abbrev pub is_ready : Staff → Bool
is_ready st = is_active st.stage && not st.reauth

-- `snapshot`: no space at the ends, 1 to 120 characters.
unfoldable pub snapshot : Text → Option Text
snapshot l = let t = trim l in if is_empty t || ltb 120 (length t) then none else some t

pub data Comment : Type 0 where
  too_long : Comment
  given : Option Text → Comment

-- `optionalComment`: empty is none, more than 500 characters is an error.
unfoldable pub optional_comment : Text → Comment
optional_comment c =
    let t = trim c in
    if is_empty t then given none else if ltb 500 (length t) then too_long else given (some t)

abbrev is_denied : Decision → Bool
is_denied denied = true
is_denied _ = false

abbrev pub same : Option ℕ → ℕ → Bool
same none u = false
same (some t) u = t == u

-- The answer of `lockForDecision`: an error, an expiry to commit, or the row to decide.
pub data Gate (P : Type 0) : Type 0 where
  stop : Error → Gate P
  overdue : Row P → Gate P
  open_row : Row P → Gate P

module _ {P : Type 0} where
  -- The cases of the `switch` on a row that is there.
  unfoldable pub gate_row : Staff → Row P → ℕ → Gate P
  gate_row st r now =
      if is_denied (decide_staff st r.permission (val r.scope_city_id))
      then stop err_forbidden
      else if r.requested_by == st.staff_id || same r.target_id st.staff_id
      then stop err_self
      else if not (is_pending r.status)
      then stop err_closed
      else if is_expired r now
      then overdue r
      else open_row r

  unfoldable pub gate_found : Staff → Option (Row P) → ℕ → Gate P
  unfolding gate_row
  gate_found st none now = stop err_not_found
  gate_found st (some r) now = gate_row st r now

  unfoldable pub gate : Staff → List (Row P) → ℕ → ℕ → Gate P
  unfolding gate_found
  gate st rs i now = gate_found st (find i rs) now

abbrev pub Answer : Type 0 → Type 0 → Type 0
Answer W P = State W P × Reply P

module _ {W P : Type 0} where
  -- A committed decision; an UPDATE without a row rolls back to `s`.
  unfoldable pub commit : State W P → Option (State W P × Row P) → (Row P → Reply P) → Answer W P
  commit s none reply = (s, err err_no_row)
  commit s (some (s', r)) reply = (s', reply r)

  -- The calls of CancelByInitiator that an executor made.
  unfoldable pub cancel_all : State W P → List Cancelling → State W P
  unfolding cancel_by_initiator
  cancel_all s [] = s
  cancel_all s (c ∷ cs) = cancel_all (cancel_by_initiator s c.locked c.initiator c.at).0 cs

  -- The part of `Approve` after the check of the initiator: the executor runs under a savepoint, so
  -- what it wrote and the requests that it cancelled stay only where it succeeds.
  unfoldable pub execute : State W P → ExecResult W → Row P → Actor → Option Text → ℕ → Answer W P
  unfolding commit decide cancel_all
  execute s (done w cs) r by comment now =
      commit s
        (decide (cancel_all (record s { world = w }) cs) r executed (some by) comment none now) ok
  execute s (refused e) r by comment now = elim (business e) [
    | none ↦ (s, err (err_exec e))
    | some f ↦
        commit s
          (decide s r failed (some by) comment
            (some (if is_initiator_changed e then text_initiator_changed else error_text f)) now)
          (λ r'. settled r' (err_fault f))
  ]

  -- A refused check of the initiator.
  unfoldable pub refuse_initiator :
      State W P → ExecError → Row P → Actor → Option Text → ℕ → Answer W P
  unfolding commit decide
  refuse_initiator s e r by comment now = elim (business e) [
    | none ↦ (s, err (err_exec e))
    | some f ↦
        commit s (decide s r failed (some by) comment (some text_initiator_changed) now)
          (λ r'. settled r' (err_fault stale))
  ]

  -- `Approve` after the check of the initiator answered.
  unfoldable pub checked_row :
      State W P
      → Row P
      → Actor
      → Option Text
      → ℕ
      → Option ExecError
      → Option (W → P → Staff → ExecResult W)
      → Answer W P
  unfolding execute refuse_initiator
  checked_row s r by comment now (some e) run = refuse_initiator s e r by comment now
  checked_row s r by comment now none none = (s, err err_unregistered)
  checked_row s r by comment now none (some run) =
      execute s (run s.world r.payload by.staff) r by comment now

  -- `Approve` with what the registry has: the check of the initiator, then the action.
  unfoldable pub registered_row :
      State W P
      → Row P
      → Actor
      → Option Text
      → ℕ
      → Option (W → Row P → Option ExecError)
      → Option (Action W P)
      → Answer W P
  unfolding checked_row
  registered_row s r by comment now none a = (s, err err_no_initiator_check)
  registered_row s r by comment now (some check) none = (s, err err_unregistered)
  registered_row s r by comment now (some check) (some a) =
      checked_row s r by comment now (check s.world r) a.exec

  -- The transaction of `Approve` on an open row.
  unfoldable pub approve_row :
      Registry W P → State W P → Row P → Actor → Option Text → ℕ → Answer W P
  unfolding registered_row
  approve_row reg s r by comment now =
      registered_row s r by comment now reg.check (action reg r.action)

  -- An overdue row becomes expired, which is committed, and the answer is ErrClosed.
  unfoldable pub expire_row : State W P → Row P → ℕ → Answer W P
  unfolding commit decide
  expire_row s r now =
      commit s (decide s r expired none none none now) (λ r'. settled r' err_closed)

  -- What `lockForDecision` leads to.
  unfoldable pub through : State W P → Gate P → ℕ → (Row P → Answer W P) → Answer W P
  unfolding expire_row
  through s (stop e) now body = (s, err e)
  through s (overdue r) now body = expire_row s r now
  through s (open_row r) now body = body r

  -- The checks that come before the transaction: the session, the label, the comment.
  unfoldable pub enter :
      State W P → Bool → Option Text → Comment → (Text → Option Text → Answer W P) → Answer W P
  enter s false label comment body = (s, err err_forbidden)
  enter s true none comment body = (s, err err_label)
  enter s true (some label) too_long body = (s, err err_comment_length)
  enter s true (some label) (given comment) body = body label comment

  -- `Approve`; `st` is `none` for a nil pointer.
  unfoldable pub approve :
      Registry W P → State W P → Option Staff → Text → Meta → ℕ → Text → Clock → Answer W P
  unfolding enter through approve_row gate
  approve reg s none l m i c clock = (s, err err_forbidden)
  approve reg s (some st) l m i c clock =
      enter s (is_ready st) (snapshot l) (optional_comment c) λ label comment.
        through s (gate st s.rows i clock.checked) clock.decided λ r.
          approve_row reg s r (record { staff = st; label = label; from = m }) comment clock.decided

  -- The transaction of `Reject`; the comment is required.
  unfoldable pub reject_with : State W P → Actor → ℕ → Clock → Option Text → Answer W P
  unfolding through gate commit decide
  reject_with s by i clock none = (s, err err_comment_required)
  reject_with s by i clock (some comment) =
      through s (gate by.staff s.rows i clock.checked) clock.decided
        λ r. commit s (decide s r rejected (some by) (some comment) none clock.decided) ok

  unfoldable pub reject : State W P → Option Staff → Text → Meta → ℕ → Text → Clock → Answer W P
  unfolding enter reject_with
  reject s none l m i c clock = (s, err err_forbidden)
  reject s (some st) l m i c clock =
      enter s (is_ready st) (snapshot l) (optional_comment c) λ label comment.
        reject_with s (record { staff = st; label = label; from = m }) i clock comment

  -- The cases of `Cancel` on the row of `LockApproval`.
  unfoldable pub cancel_row : State W P → Actor → Option (Row P) → Clock → Answer W P
  unfolding commit decide expire_row
  cancel_row s by none clock = (s, err err_not_found)
  cancel_row s by (some r) clock =
      if not (r.requested_by == by.staff.staff_id)
      then (s, err err_not_found)
      else if not (is_pending r.status)
      then (s, err err_closed)
      else if is_expired r clock.checked
      then expire_row s r clock.decided
      else commit s (decide s r cancelled (some by) none none clock.decided) ok

  -- `Cancel`; it takes no comment.
  unfoldable pub cancel : State W P → Option Staff → Text → Meta → ℕ → Clock → Answer W P
  unfolding enter cancel_row find
  cancel s none l m i clock = (s, err err_forbidden)
  cancel s (some st) l m i clock = enter s (is_ready st) (snapshot l) (given none) λ label comment.
      cancel_row s (record { staff = st; label = label; from = m }) (find i s.rows) clock
