-- ===== src/Approvals/Calls.antt =====
-- The calls of the service as one step function, and what every sequence of them keeps.
use wf_all.Prelude.{
  ℕ, ◌≡◌, refl, ◌≢◌, Bool, true, false, Option, none, some, All-keep, arith, Bool-cases, inl, inr,
  String, Text,
}
use wf_all.Auth.{Staff, denied, decide as decide_staff}
use wf_all.Approvals.{State, Meta, Error}
use wf_all.Approvals.Registry.{Registry, Action, action, check_permission}
use wf_all.Approvals.Formats.{View, is_versioned, has_version, is_action_name, is_permission_name}
use wf_all.Approvals.Names.{Built, action-named, check_permission-name, versioned}
use wf_all.Approvals.Swept.{
  is_due-pending, expired_id, expired_pending, expired-IsStored, swept-IsConsistent,
  initiator-IsConsistent,
}
use wf_all.Approvals.Service.{
  Answer, Clock, err, snapshot, optional_comment, given, approve, reject, cancel, is_ready,
}
use wf_all.Approvals.Request.{
  request, insert, new_row, admit, admit_labelled, request_permitted, request_registered,
  permission_of, target_of, is_denied,
}
use wf_all.Approvals.Answers.{Approved}
use wf_all.Approvals.Decisions.{
  Rejected, Cancelled, approve-Approved, reject-Rejected, cancel-Cancelled, actor,
}
use wf_all.Approvals.Stored.{IsStored, IsLabel, snapshot-IsLabel, optional_comment-FitsComment}
use wf_all.Approvals.Batch.{
  cancel_by_initiator, expire_batch, expire_by_system, is_due, in_batch, sooner, purge_batch,
}
use wf_all.Approvals.Accounts.{events_of, has_row, IsAccounted, IsConsistent}
use wf_all.Approvals.Sweeps.{in_batch-hit}
use wf_all.Approvals.Lifecycle.{
  Approved-IsConsistent, Rejected-IsConsistent, Cancelled-IsConsistent, entered-IsConsistent,
  HasDistinctIds-keep,
}

-- A call of the service, with what its caller hands over.
pub data Call : Type 0 where
  call_approve call_reject : Staff → Text → Meta → ℕ → Text → Clock → Call
  call_cancel : Staff → Text → Meta → ℕ → Clock → Call
  call_expire : (ℕ → Bool) → ℕ → ℕ → Call
  call_purge : ℕ → ℕ → Call
  call_initiator : (ℕ → Bool) → ℕ → ℕ → Call

module _ {W P : Type 0} where
  -- The state after a call; of ExpireDue and PurgeDecided one transaction.
  unfoldable pub serve : Registry W P → State W P → Call → State W P
  serve reg s (call_approve st l m i text clock) = (approve reg s (some st) l m i text clock).0
  serve reg s (call_reject st l m i text clock) = (reject s (some st) l m i text clock).0
  serve reg s (call_cancel st l m i clock) = (cancel s (some st) l m i clock).0
  serve reg s (call_expire locked now lim) = (expire_batch s locked now lim).0
  serve reg s (call_purge before lim) = (purge_batch s before lim).0
  serve reg s (call_initiator locked by now) = (cancel_by_initiator s locked by now).0

  -- Every call, whatever it answers, leaves a consistent state: every row satisfies the CHECK
  -- constraints of its table (the formats of names and payload, two hands, the decider and the label of each decision, the comment of
  -- a rejection, the reason of a failure), ids are distinct, and exactly one event is out for each
  -- decided request and none for a pending one.
  pub serve-IsConsistent :
      (view : P → View) (reg : Registry W P) (s : State W P) (call : Call)
      → IsConsistent view s
      → IsConsistent view (serve reg s call)
  unfolding serve expire_batch purge_batch cancel_by_initiator
  serve-IsConsistent view reg s (call_approve st l m i text clock) h =
      entered-IsConsistent view s (is_ready st) l text (optional_comment text)
        (approve reg s (some st) l m i text clock)
        (λ t c a. Approved reg s (actor st t m) i c clock a)
        (approve-Approved reg s st l m i text clock)
        (λ t c label comment x.
          Approved-IsConsistent view reg s (actor st t m) i c clock
            (approve reg s (some st) l m i text clock) x (snapshot-IsLabel l t label)
            (optional_comment-FitsComment text c comment) h)
        h
  serve-IsConsistent view reg s (call_reject st l m i text clock) h =
      entered-IsConsistent view s (is_ready st) l text (optional_comment text)
        (reject s (some st) l m i text clock) (λ t c a. Rejected s (actor st t m) i clock c a)
        (reject-Rejected s st l m i text clock)
        (λ t c label comment x.
          Rejected-IsConsistent view s (actor st t m) i clock c
            (reject s (some st) l m i text clock) x (snapshot-IsLabel l t label)
            (optional_comment-FitsComment text c comment) h)
        h
  serve-IsConsistent view reg s (call_cancel st l m i clock) h =
      entered-IsConsistent view s (is_ready st) l l (given none) (cancel s (some st) l m i clock)
        (λ t c a. Cancelled s (actor st t m) i clock a) (cancel-Cancelled s st l m i clock)
        (λ t c label comment x.
          Cancelled-IsConsistent view s (actor st t m) i clock (cancel s (some st) l m i clock) x
            (snapshot-IsLabel l t label) h)
        h
  serve-IsConsistent view reg s (call_expire locked now lim) h =
      swept-IsConsistent view s (in_batch (is_due locked now) sooner lim s.rows) expire_by_system
        (λ r x.
          is_due-pending view locked now r (in_batch-hit (is_due locked now) sooner lim s.rows r x))
        (expired_id view) (expired_pending view)
        (λ r x.
          expired-IsStored view locked now r
            (in_batch-hit (is_due locked now) sooner lim s.rows r x))
        h
  serve-IsConsistent view reg s (call_purge before lim) h = record {
    stored = All-keep (IsStored view) _ s.rows h.stored;
    distinct = HasDistinctIds-keep _ s.rows h.distinct;
    accounted = All-keep (IsAccounted s.events) _ s.rows h.accounted;
  }
  serve-IsConsistent view reg s (call_initiator locked by now) h =
      initiator-IsConsistent view s locked by now h

  -- A new request: pending, with a fresh id.
  insert-IsConsistent :
      (view : P → View) (s : State W P) (by : Staff) (m : Meta) (label : Text)
      (name permission : String) (p : P) (t : ℕ × ℕ) (id now : ℕ)
      → has_row id s.rows ≡ false
      → events_of id s.events ≡ 0
      → IsLabel label
      → is_action_name name ≡ true
      → is_permission_name permission ≡ true
      → has_version (view p) ≡ true
      → IsConsistent view s
      → IsConsistent view (insert s by m (new_row by label name permission p t id now)).0
  unfolding insert new_row
  insert-IsConsistent view s by m label name permission p t id now f e l x y z h = record {
    stored = (ground arith, h.stored);
    distinct = (f, h.distinct);
    accounted = (e, h.accounted);
  }

  -- The answers of `Request`.
  pub data Requested (reg : Registry W P) (view : P → View) (s : State W P) (who : Option Staff)
      (l : Text) (m : Meta) (name : String) (p : P) (id now : ℕ) : Answer W P → Type 0 where
    not_requested : (e : Error) → Requested reg view s who l m name p id now (s, err e)
    entered :
        (by : Staff) (a : Action W P) (permission : String) (label : Text)
        → who ≡ some by
        → action reg name ≡ some a
        → is_versioned (view p) ≡ true
        → permission_of a p ≡ some permission
        → check_permission permission ≡ true
        → decide_staff by permission (target_of a p).1 ≢ denied
        → snapshot l ≡ some label
        → Requested reg view s who l m name p id now
            (insert s by m (new_row by label name permission p (target_of a p) id now))

  module _ (reg : Registry W P) (view : P → View) (s : State W P) (l : Text) (m : Meta)
      (name : String) (p : P) (id now : ℕ) where
    admit-Requested :
        (who : Option Staff) (a : Action W P) (permission : String)
        → action reg name ≡ some a
        → is_versioned (view p) ≡ true
        → permission_of a p ≡ some permission
        → check_permission permission ≡ true
        → Requested reg view s who l m name p id now
            (admit s who l m name permission p (target_of a p) id now)
    unfolding admit
    admit-Requested none a permission q v k c = not_requested _
    admit-Requested (some by) a permission q v k c =
        elim (Bool-cases (is_denied (decide_staff by permission (target_of a p).1))) [
          | inl d ↦ simp d (not_requested _)
          | inr d ↦ simp d (labelled (snapshot l) refl (λ e. ground arith))
        ]
      where
        labelled :
            (o : Option Text)
            → snapshot l ≡ o
            → decide_staff by permission (target_of a p).1 ≢ denied
            → Requested reg view s
                (some by)
                l
                m
                name
                p
                id
                now
                (admit_labelled s by o m name permission p (target_of a p) id now)
        labelled none n d = not_requested _
        labelled (some label) n d = entered by a permission label refl q v k c d n

    permitted-Requested :
        (who : Option Staff) (a : Action W P) (o : Option String)
        → action reg name ≡ some a
        → is_versioned (view p) ≡ true
        → permission_of a p ≡ o
        → Requested reg view s who l m name p id now (request_permitted s who l m name p id now a o)
    unfolding request_permitted
    permitted-Requested who a none q v k = not_requested _
    permitted-Requested who a (some permission) q v k =
        elim (Bool-cases (check_permission permission)) [
          | inr c ↦ simp c (not_requested _)
          | inl c ↦ simp c (admit-Requested who a permission q v k c)
        ]

    registered-Requested :
        (who : Option Staff) (o : Option (Action W P))
        → action reg name ≡ o
        → Requested reg view s who l m name p id now
            (request_registered view s who l m name p id now o)
    unfolding request_registered
    registered-Requested who none q = not_requested _
    registered-Requested who (some a) q = elim (Bool-cases (is_versioned (view p))) [
      | inr v ↦ simp v (not_requested _)
      | inl v ↦ simp v (permitted-Requested who a (permission_of a p) q v refl)
    ]

    -- `Request` stops with the state as it was, or enters one pending request for a registered
    -- action, with an object payload of version 1 at least; its right is the one that the action
    -- names for the payload, released by the catalogue, and held by the initiator for the city.
    pub request-Requested :
        (who : Option Staff)
        → Requested reg view s who l m name p id now (request view reg s who l m name p id now)
    unfolding request
    request-Requested who = registered-Requested who (action reg name) refl

  Requested-IsConsistent :
      (reg : Registry W P) (view : P → View) (s : State W P) (who : Option Staff) (l : Text)
      (m : Meta) (name : String) (p : P) (id now : ℕ) (a : Answer W P)
      → Built reg
      → Requested reg view s who l m name p id now a
      → has_row id s.rows ≡ false
      → events_of id s.events ≡ 0
      → IsConsistent view s
      → IsConsistent view a.0
  Requested-IsConsistent reg view s who l m name p id now a b (not_requested e) f z h = h
  Requested-IsConsistent reg view s who l m name p id now _ b
        (entered by a permission label _ q v _ k _ n) f z h =
      insert-IsConsistent view s by m label name permission p (target_of a p) id now f z
        (snapshot-IsLabel l label n) (action-named reg name a b q)
        (check_permission-name permission k) (versioned (view p) v) h

  -- The states that the service reaches: by its calls, and by requests with an id that no row and no
  -- event has (a new UUID).
  pub data Reach (reg : Registry W P) (view : P → View) (s : State W P) : State W P → Type 0 where
    start : Reach reg view s s
    called : {t : State W P} → Reach reg view s t → (c : Call) → Reach reg view s (serve reg t c)
    asked :
        {t : State W P}
        → Reach reg view s t
        → (who : Option Staff) (l : Text) (m : Meta) (name : String) (p : P) (id now : ℕ)
        → has_row id t.rows ≡ false
        → events_of id t.events ≡ 0
        → Reach reg view s (request view reg t who l m name p id now).0

  -- With a registry that NewRegistry, Register and SetInitiatorCheck made, every state that is
  -- reached from a consistent one is consistent.
  pub Reach-IsConsistent :
      (reg : Registry W P) (view : P → View) (s t : State W P)
      → Built reg
      → IsConsistent view s
      → Reach reg view s t
      → IsConsistent view t
  Reach-IsConsistent reg view s _ b h start = h
  Reach-IsConsistent reg view s _ b h (called {t = t} r c) =
      serve-IsConsistent view reg t c (Reach-IsConsistent reg view s t b h r)
  Reach-IsConsistent reg view s _ b h (asked {t = t} r who l m name p id now f z) =
      Requested-IsConsistent reg view t who l m name p id now _ b
        (request-Requested reg view t l m name p id now who) f z
        (Reach-IsConsistent reg view s t b h r)
