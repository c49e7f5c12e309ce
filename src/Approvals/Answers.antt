-- ===== src/Approvals/Answers.antt =====
-- Every answer of Approve, Reject and Cancel, with what it says of the request and of the state.
use wf_all.Prelude.{
  ℕ, ◌≤◌, ◌≡◌, refl, sym, ap, subst, List, inl, inr, Option, none, some, String, Text,
  if◌then◌else◌, Option-cases,
}
use wf_all.Auth.{Staff}
use wf_all.Approvals.{
  pending, executed, expired, failed, Fault, stale, ExecError, business, is_initiator_changed,
  text_initiator_changed, error_text, Error, err_closed, err_fault, err_no_row, Row, Actor, State,
}
use wf_all.Approvals.Registry.{Action, Registry, Cancelling, ExecResult, done, refused, action}
use wf_all.Approvals.Decide.{Decision, apply, find, decision_of}
use wf_all.Approvals.Service.{
  Reply, ok, err, settled, Answer, Clock, Gate, stop, overdue, open_row, gate_row, gate, cancel_all,
  commit, execute, refuse_initiator, checked_row, registered_row, approve_row, gate_found,
  expire_row, through,
}
use wf_all.Approvals.Outcomes.{
  Deciding, expiry_of, Gated, gate_row-Gated, find-id, after, commit-found,
}
use wf_all.Approvals.Cancels.{cancel_all-Stands, decide-gone}

module _ {W P : Type 0} where
  -- The initiator check and the executor that stand behind an executed request.
  pub record Executable (reg : Registry W P) (s : State W P) (r : Row P) (st : Staff) (w : W)
      (cs : List Cancelling) : Type 0 where
    pub checker : W → Row P → Option ExecError
    pub checks : reg.check ≡ some checker
    pub initiator_ok : checker s.world r ≡ none
    pub chosen : Action W P
    pub registered : action reg r.action ≡ some chosen
    pub run : W → P → Staff → ExecResult W
    pub runs : chosen.exec ≡ some run
    pub result : run s.world r.payload st ≡ done w cs

  -- The row is the one under the id, and `Deciding` holds of it.
  abbrev pub Held : State W P → Staff → ℕ → ℕ → Row P → Type 0
  Held s st i now r = (find i s.rows ≡ some r) × Deciding st r now

  -- The row under the id is overdue and still pending.
  pub record Overdue (s : State W P) (i now : ℕ) (r : Row P) : Type 0 where
    pub found : find i s.rows ≡ some r
    pub waiting : r.status ≡ pending
    pub late : r.expires_at ≤ now

  -- The state with what the executor wrote and without the requests that it cancelled.
  abbrev pub cancelled_by : State W P → W → List Cancelling → State W P
  cancelled_by s w cs = cancel_all (record s { world = w }) cs

  -- A decision that is committed.
  abbrev pub ended : State W P → Row P → Decision → Option Actor → (Row P → Reply P) → Answer W P
  ended s r d by reply = (after s r d by, reply (apply d r))

  -- The answers of `Approve`.
  pub data Approved (reg : Registry W P) (s : State W P) (by : Actor) (i : ℕ) (c : Option Text)
      (clock : Clock) : Answer W P → Type 0 where
    turned_away : (e : Error) → Approved reg s by i c clock (s, err e)
    lapsed :
        (r : Row P)
        → Overdue s i clock.checked r
        → Approved reg s by i c clock
            (ended s r (expiry_of r clock.decided) none (λ r'. settled r' err_closed))
    failed_with :
        (r : Row P) (text : String) (f : Fault)
        → Held s by.staff i clock.checked r
        → Approved reg s by i c clock (
            ended s r
              (decision_of r failed (some by) c (some text) clock.decided)
              (some by)
              (λ r'. settled r' (err_fault f)))
    carried_out :
        (r : Row P) (w : W) (cs : List Cancelling)
        → Held s by.staff i clock.checked r
        → Executable reg s r by.staff w cs
        → find r.id (cancelled_by s w cs).rows ≡ some r
        → Approved reg s by i c clock (
            ended
              (cancelled_by s w cs)
              r
              (decision_of r executed (some by) c none clock.decided)
              (some by)
              ok)

  module _ (reg : Registry W P) (s : State W P) (by : Actor) (i : ℕ) (c : Option Text)
      (clock : Clock) (r : Row P) (held : Held s by.staff i clock.checked r) where
    here : find r.id s.rows ≡ some r
    here = subst (λ (k : ℕ). find k s.rows ≡ some r) (sym (find-id i s.rows r held.0)) held.0

    refuse_initiator-Approved :
        (e : ExecError) → Approved reg s by i c clock (refuse_initiator s e r by c clock.decided)
    unfolding refuse_initiator
    refuse_initiator-Approved e = elim (Option-cases (business e)) [
      | inl n ↦ rw (n, refuse_initiator) (turned_away _)
      | inr (f, n) ↦
          rw (n, refuse_initiator)
            (rw
              (commit-found s s r failed (some by) c (some text_initiator_changed) clock.decided
                (λ r'. settled r' (err_fault stale)) here held.1.waiting)
              (failed_with r text_initiator_changed stale held))
    ]

    execute-Approved :
        (e : ExecResult W)
        → ((w : W) (cs : List Cancelling) → e ≡ done w cs → Executable reg s r by.staff w cs)
        → Approved reg s by i c clock (execute s e r by c clock.decided)
    unfolding execute
    execute-Approved (done w cs) x =
        let t = cancelled_by s w cs in
        elim (cancel_all-Stands (record s { world = w }) cs r.id r (inl here)) [
          | inl h ↦
              rw (commit-found s t r executed (some by) c none clock.decided ok h held.1.waiting)
                (carried_out r w cs held (x w cs refl) h)
          | inr (y, h, g) ↦
              rw
                (ap (λ o. commit s o ok)
                  (decide-gone t r y executed (some by) c none clock.decided h g))
                (turned_away err_no_row)
        ]
    execute-Approved (refused e) x = elim (Option-cases (business e)) [
      | inl n ↦ rw (n, execute) (turned_away _)
      | inr (f, n) ↦
          rw (n, execute)
            (rw
              (commit-found s s r failed (some by) c
                (some (if is_initiator_changed e then text_initiator_changed else error_text f))
                clock.decided (λ r'. settled r' (err_fault f)) here held.1.waiting)
              (failed_with r _ f held))
    ]

    checked_row-Approved :
        (e : Option ExecError) (run : Option (W → P → Staff → ExecResult W))
        → ((f : W → P → Staff → ExecResult W) (w : W) (cs : List Cancelling)
            → e ≡ none
            → run ≡ some f
            → f s.world r.payload by.staff ≡ done w cs
            → Executable reg s r by.staff w cs)
        → Approved reg s by i c clock (checked_row s r by c clock.decided e run)
    unfolding checked_row
    checked_row-Approved (some e) run x = refuse_initiator-Approved e
    checked_row-Approved none none x = turned_away _
    checked_row-Approved none (some f) x =
        execute-Approved (f s.world r.payload by.staff) (λ w cs d. x f w cs refl refl d)

    registered_row-Approved :
        (check : Option (W → Row P → Option ExecError)) (a : Option (Action W P))
        → reg.check ≡ check
        → action reg r.action ≡ a
        → Approved reg s by i c clock (registered_row s r by c clock.decided check a)
    unfolding registered_row
    registered_row-Approved none a p q = turned_away _
    registered_row-Approved (some check) none p q = turned_away _
    registered_row-Approved (some check) (some a) p q =
        checked_row-Approved (check s.world r) a.exec λ f w cs e runs result. record {
          checker = check;
          checks = p;
          initiator_ok = e;
          chosen = a;
          registered = q;
          run = f;
          runs = runs;
          result = result;
        }

    pub approve_row-Approved : Approved reg s by i c clock (approve_row reg s r by c clock.decided)
    unfolding approve_row
    approve_row-Approved = registered_row-Approved reg.check (action reg r.action) refl refl

  -- The part that `Approve` and `Reject` share: what the gate lets through reaches `body`.
  pub through_cases {ℓ} :
      (K : Answer W P → Type ℓ) (s : State W P) (st : Staff) (i : ℕ) (clock : Clock)
      (body : Row P → Answer W P)
      → ((e : Error) → K (s, err e))
      → ((r : Row P)
          → Overdue s i clock.checked r
          → K (ended s r (expiry_of r clock.decided) none (λ r'. settled r' err_closed)))
      → ((r : Row P) → Held s st i clock.checked r → K (body r))
      → K (through s (gate st s.rows i clock.checked) clock.decided body)
  unfolding gate through
  through_cases K s st i clock body e l b = found (find i s.rows) refl
    where
      expire :
          (r : Row P)
          → find i s.rows ≡ some r
          → Overdue s i clock.checked r
          → K (expire_row s r clock.decided)
      expire r h o =
          subst K
            (sym (
              commit-found s s r expired none none none clock.decided (λ r'. settled r' err_closed)
                (subst (λ (k : ℕ). find k s.rows ≡ some r) (sym (find-id i s.rows r h)) h)
                o.waiting))
            (l r o)

      row :
          (r : Row P)
          → find i s.rows ≡ some r
          → (g : Gate P) → Gated st r clock.checked g
          → K (through s g clock.decided body)
      row r h (stop x) g = e x
      row r h (overdue r') g =
          subst (λ (x : Row P). K (expire_row s x clock.decided)) (sym g.0)
            (expire r h (record { found = h; waiting = g.1; late = g.2 }))
      row r h (open_row r') g = subst (λ (x : Row P). K (body x)) (sym g.0) (b r (h, g.1))

      found :
          (o : Option (Row P))
          → find i s.rows ≡ o
          → K (through s (gate_found st o clock.checked) clock.decided body)
      found none h = e _
      found (some r) h = row r h (gate_row st r clock.checked) (gate_row-Gated st r clock.checked)
