-- ===== src/Approvals/Outcomes.antt =====
-- The row that a decision locks is the row that its UPDATE changes, as long as nothing decided it since.
use wf_all.Prelude.{
  ℕ, ◌<◌, ◌≤◌, ◌≡◌, ◌≢◌, false, List, [], ◌∷◌, Option, none, some, String, Text, ◌==◌,
  if◌then◌else◌, arith,
}
use wf_all.Auth.{Staff, denied, decide as decide_staff}
use wf_all.Approvals.{Status, pending, expired, Row, val, Actor, State, is_expired}
use wf_all.Approvals.Decide.{
  Decision, apply, find, decide_row, decision_of, record_decision, decide,
}
use wf_all.Approvals.Service.{Reply, same, Gate, stop, overdue, open_row, gate_row, commit}

module _ {P : Type 0} where
  -- The table with the first row of this id exchanged.
  unfoldable pub replace : ℕ → Row P → List (Row P) → List (Row P)
  replace i r' [] = []
  replace i r' (r ∷ rs) = if r.id == i then r' ∷ rs else r ∷ replace i r' rs

  pub find-id : (i : ℕ) (rs : List (Row P)) (r : Row P) → find i rs ≡ some r → r.id ≡ i
  unfolding find
  find-id i [] r h = cc
  find-id i (x ∷ rs) r h = ground (arith, find-id i rs r)

  -- The UPDATE meets the row that was locked.
  pub decide_row-found :
      (i : ℕ) (d : Decision) (rs : List (Row P)) (r : Row P)
      → find i rs ≡ some r
      → r.status ≡ pending
      → decide_row i d rs ≡ some (replace i (apply d r) rs, apply d r)
  unfolding find decide_row replace
  decide_row-found i d [] r h p = cc
  decide_row-found i d (x ∷ rs) r h p = ground (arith, decide_row-found i d rs r)

  pub record Deciding (st : Staff) (r : Row P) (now : ℕ) : Type 0 where
    pub entitled : decide_staff st r.permission (val r.scope_city_id) ≢ denied
    pub not_initiator : r.requested_by ≢ st.staff_id
    pub not_target : same r.target_id st.staff_id ≡ false
    pub waiting : r.status ≡ pending
    pub in_time : now < r.expires_at

  abbrev pub expiry_of : Row P → ℕ → Decision
  expiry_of r now = decision_of r expired none none none now

  -- What each answer of the gate says of the row.
  abbrev pub Gated : Staff → Row P → ℕ → Gate P → Type 0
  Gated st r now (stop e) = Unit
  Gated st r now (overdue r') = (r' ≡ r) × (r.status ≡ pending) × (r.expires_at ≤ now)
  Gated st r now (open_row r') = (r' ≡ r) × Deciding st r now

  pub gate_row-Gated : (st : Staff) (r : Row P) (now : ℕ) → Gated st r now (gate_row st r now)
  unfolding gate_row is_expired
  gate_row-Gated st r now = ground arith

module _ {W P : Type 0} where
  -- The state after a decision of a row that is there.
  unfoldable pub after : State W P → Row P → Decision → Option Actor → State W P
  after s r d by =
      record_decision (record s { rows = replace r.id (apply d r) s.rows }) (apply d r) by

  pub decide-found :
      (s : State W P) (r : Row P) (to : Status) (by : Option Actor) (c : Option Text)
      (f : Option String) (now : ℕ)
      → find r.id s.rows ≡ some r
      → r.status ≡ pending
      → decide s r to by c f now
        ≡ some (after s r (decision_of r to by c f now) by, apply (decision_of r to by c f now) r)
  unfolding decide after
  decide-found s r to by c f now h p =
      ground (arith, decide_row-found r.id (decision_of r to by c f now) s.rows r h p)

  -- The decision is committed, whatever state a failure would go back to.
  pub commit-found :
      (s0 s : State W P) (r : Row P) (to : Status) (by : Option Actor) (c : Option Text)
      (f : Option String) (now : ℕ) (reply : Row P → Reply P)
      → find r.id s.rows ≡ some r
      → r.status ≡ pending
      → let d = decision_of r to by c f now in
        commit s0 (decide s r to by c f now) reply ≡ (after s r d by, reply (apply d r))
  unfolding commit
  commit-found s0 s r to by c f now reply h p = rw (decide-found s r to by c f now h p)
