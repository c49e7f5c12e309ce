-- ===== src/Approvals/Decisions.antt =====
-- Approve, Reject and Cancel from their arguments on: who is turned away, and every other answer.
use wf_all.Prelude.{
  ℕ, ◌<◌, ◌≡◌, refl, sym, subst, ◌⊎◌, inl, inr, Bool, true, false, Option, none, some, Text, ◌==◌,
  arith,
}
use wf_all.Auth.{Staff}
use wf_all.Approvals.{
  pending, rejected, cancelled, expired, Error, err_closed, err_forbidden, err_label,
  err_comment_length, is_pending, is_expired, Row, Meta, Actor, State,
}
use wf_all.Approvals.Registry.{Registry}
use wf_all.Approvals.Decide.{find, decision_of}
use wf_all.Approvals.Service.{
  ok, err, settled, Answer, Clock, is_ready, snapshot, enter, reject_with, Comment, too_long, given,
  optional_comment, approve, reject, cancel_row, cancel,
}
use wf_all.Approvals.Outcomes.{expiry_of, find-id, commit-found}
use wf_all.Approvals.Answers.{
  Held, Overdue, ended, Approved, turned_away, lapsed, approve_row-Approved, through_cases,
}

abbrev pub actor : Staff → Text → Meta → Actor
actor st label m = record { staff = st; label = label; from = m }

module _ {W P : Type 0} where
  -- The call stopped before its transaction with the state as it was, or went on with a session
  -- that is ready, a label and a comment that are in order, and then `K` holds of its answer.
  abbrev pub Entered :
      State W P
      → Bool
      → Option Text
      → Comment
      → Answer W P
      → (Text → Option Text → Answer W P → Type 0)
      → Type 0
  Entered s ready label comment answer K =
      ((e : Error) × (answer ≡ (s, err e)))
      ⊎ ((l : Text) × (c : Option Text) × (ready ≡ true)
          × (label ≡ some l)
          × (comment ≡ given c)
          × K l c answer)

  enter-Entered :
      (s : State W P) (ready : Bool) (label : Option Text) (comment : Comment)
      (body : Text → Option Text → Answer W P) (K : Text → Option Text → Answer W P → Type 0)
      → ((l : Text) (c : Option Text) → K l c (body l c))
      → Entered s ready label comment (enter s ready label comment body) K
  unfolding enter
  enter-Entered s false label comment body K k = inl (err_forbidden, refl)
  enter-Entered s true none comment body K k = inl (err_label, refl)
  enter-Entered s true (some l) too_long body K k = inl (err_comment_length, refl)
  enter-Entered s true (some l) (given c) body K k = inr (l, c, refl, refl, refl, k l c)

  -- `Approve` either stops with the state as it was, before its transaction or in it; or expires an
  -- overdue request; or fails one that its caller may decide, leaving the tables of the module as
  -- they were; or carries it out. The last two happen only to a pending request before its deadline,
  -- by a caller with the right stored in it who is neither its initiator nor its target; and the
  -- last only where the check of the initiator passed and the executor succeeded, whose writes to
  -- the tables of the module are kept, and the requests that it cancelled too, of which this is none.
  pub approve-Approved :
      (reg : Registry W P) (s : State W P) (st : Staff) (l : Text) (m : Meta) (i : ℕ) (text : Text)
      (clock : Clock)
      → Entered s
          (is_ready st)
          (snapshot l)
          (optional_comment text)
          (approve reg s (some st) l m i text clock)
          (λ label c answer. Approved reg s (actor st label m) i c clock answer)
  unfolding approve
  approve-Approved reg s st l m i text clock =
      enter-Entered s (is_ready st) (snapshot l) (optional_comment text) _
        (λ label c answer. Approved reg s (actor st label m) i c clock answer)
        λ label c.
          let by = actor st label m in
          through_cases (Approved reg s by i c clock) s st i clock _ (λ e. turned_away e)
            (λ r o. lapsed r o) (λ r h. approve_row-Approved reg s by i c clock r h)

  -- The answers of `Reject`.
  pub data Rejected (s : State W P) (by : Actor) (i : ℕ) (clock : Clock)
      : Option Text → Answer W P → Type 0 where
    not_rejected : {c : Option Text} (e : Error) → Rejected s by i clock c (s, err e)
    found_late :
        {c : Option Text} (r : Row P)
        → Overdue s i clock.checked r
        → Rejected s by i clock c
            (ended s r (expiry_of r clock.decided) none (λ r'. settled r' err_closed))
    turned_down :
        (r : Row P) (comment : Text)
        → Held s by.staff i clock.checked r
        → Rejected s by i clock (some comment) (
            ended s r
              (decision_of r rejected (some by) (some comment) none clock.decided)
              (some by)
              ok)

  reject_with-Rejected :
      (s : State W P) (by : Actor) (i : ℕ) (clock : Clock) (c : Option Text)
      → Rejected s by i clock c (reject_with s by i clock c)
  unfolding reject_with
  reject_with-Rejected s by i clock none = not_rejected _
  reject_with-Rejected s by i clock (some comment) =
      through_cases (Rejected s by i clock (some comment)) s by.staff i clock _
        (λ e. not_rejected e) (λ r o. found_late r o)
        (λ r h.
          rw
            (commit-found s s r rejected (some by) (some comment) none clock.decided ok
              (subst (λ (k : ℕ). find k s.rows ≡ some r) (sym (find-id i s.rows r h.0)) h.0)
              h.1.waiting)
            (turned_down r comment h))

  -- `Reject` stops with the state as it was, expires an overdue request, or rejects, with a comment,
  -- a pending request before its deadline by a caller with the right stored in it who is neither its
  -- initiator nor its target. The tables of the module stay as they were.
  pub reject-Rejected :
      (s : State W P) (st : Staff) (l : Text) (m : Meta) (i : ℕ) (text : Text) (clock : Clock)
      → Entered s
          (is_ready st)
          (snapshot l)
          (optional_comment text)
          (reject s (some st) l m i text clock)
          (λ label c answer. Rejected s (actor st label m) i clock c answer)
  unfolding reject
  reject-Rejected s st l m i text clock =
      enter-Entered s (is_ready st) (snapshot l) (optional_comment text) _
        (λ label c answer. Rejected s (actor st label m) i clock c answer)
        λ label c. reject_with-Rejected s (actor st label m) i clock c

  -- The answers of `Cancel`.
  pub data Cancelled (s : State W P) (by : Actor) (i : ℕ) (clock : Clock)
      : Answer W P → Type 0 where
    not_cancelled : (e : Error) → Cancelled s by i clock (s, err e)
    already_late :
        (r : Row P)
        → Overdue s i clock.checked r
        → r.requested_by ≡ by.staff.staff_id
        → Cancelled s by i clock
            (ended s r (expiry_of r clock.decided) none (λ r'. settled r' err_closed))
    withdrawn :
        (r : Row P)
        → find i s.rows ≡ some r
        → r.status ≡ pending
        → clock.checked < r.expires_at
        → r.requested_by ≡ by.staff.staff_id
        → Cancelled s by i clock
            (ended s r (decision_of r cancelled (some by) none none clock.decided) (some by) ok)

  module _ (s : State W P) (by : Actor) (i : ℕ) (clock : Clock) where
    here : (r : Row P) → find i s.rows ≡ some r → find r.id s.rows ≡ some r
    here r h = subst (λ (k : ℕ). find k s.rows ≡ some r) (sym (find-id i s.rows r h)) h

    found_row-Cancelled :
        (r : Row P)
        → find i s.rows ≡ some r
        → (own late waits : Bool) → (r.requested_by == by.staff.staff_id) ≡ own
        → is_pending r.status ≡ waits
        → is_expired r clock.checked ≡ late
        → Cancelled s by i clock (cancel_row s by (some r) clock)
    unfolding cancel_row is_expired
    found_row-Cancelled r h false late waits p q t = simp p (not_cancelled _)
    found_row-Cancelled r h true late false p q t = simp (p, q) (not_cancelled _)
    found_row-Cancelled r h true true true p q t =
        simp (p, q, t)
          (subst (Cancelled s by i clock)
            (sym (
              commit-found s s r expired none none none clock.decided (λ r'. settled r' err_closed)
                (here r h) (ground arith)))
            (already_late r (record { found = h; waiting = ground arith; late = ground arith })
              (ground arith)))
    found_row-Cancelled r h true false true p q t =
        simp (p, q, t)
          (subst (Cancelled s by i clock)
            (sym (
              commit-found s s r cancelled (some by) none none clock.decided ok (here r h)
                (ground arith)))
            (withdrawn r h (ground arith) (ground arith) (ground arith)))

    row-Cancelled :
        (o : Option (Row P)) → find i s.rows ≡ o → Cancelled s by i clock (cancel_row s by o clock)
    unfolding cancel_row
    row-Cancelled none h = not_cancelled _
    row-Cancelled (some r) h = found_row-Cancelled r h _ _ _ refl refl refl

  -- `Cancel` stops with the state as it was, or acts on a pending request of the caller's own:
  -- before its deadline it is cancelled by the caller, from it on it expires. The tables of the
  -- module stay as they were.
  pub cancel-Cancelled :
      (s : State W P) (st : Staff) (l : Text) (m : Meta) (i : ℕ) (clock : Clock)
      → Entered s
          (is_ready st)
          (snapshot l)
          (given none)
          (cancel s (some st) l m i clock)
          (λ label c answer. Cancelled s (actor st label m) i clock answer)
  unfolding cancel
  cancel-Cancelled s st l m i clock =
      enter-Entered s (is_ready st) (snapshot l) (given none) _
        (λ label c answer. Cancelled s (actor st label m) i clock answer)
        λ label c. row-Cancelled s (actor st label m) i clock (find i s.rows) refl
