-- ===== src/Approvals/Batch.antt =====
-- service.go: CancelByInitiator, ExpireDue and PurgeDecided, with the statements of
-- queries/approvals.sql that they run. `locked` says which rows another transaction holds: SKIP
-- LOCKED passes them over. RETURNING gives the rows in the order of the table.
use wf_all.Prelude.{
  ℕ, ◌*◌, ◌/◌, ◌-◌, Bool, false, not, ◌&&◌, ◌||◌, List, [], ◌∷◌, Option, none, some, ltb, leb, ◌==◌,
  if◌then◌else◌, length, take, any, keep,
}
use wf_all.Prelude.Drain.{drain}
use wf_all.Prelude.Int.{ℤ, pos, pos_part, ltb_ℤ}
use wf_all.Approvals.{
  cancelled, expired, is_pending, Error, err_retention, text_initiator_changed, system_label, val,
  Row, State,
}
use wf_all.Approvals.Decide.{record_decision}

module _ {P : Type 0} where
  -- `UPDATE … WHERE hit`: the table, and the changed rows.
  unfoldable pub sweep :
      (Row P → Bool) → (Row P → Row P) → List (Row P) → List (Row P) × List (Row P)
  sweep hit change [] = ([], [])
  sweep hit change (r ∷ rs) =
      let (rows, changed) = sweep hit change rs in
      if hit r then (change r ∷ rows, change r ∷ changed) else (r ∷ rows, changed)

  -- The rows that CancelPendingByInitiator meets, and what it writes.
  unfoldable pub is_initiated : (ℕ → Bool) → ℕ → Row P → Bool
  is_initiated locked by r = r.requested_by == by && is_pending r.status && not (locked r.id)

  unfoldable pub cancel_by_system : ℕ → Row P → Row P
  cancel_by_system now r = record r {
    status = cancelled;
    decided_by_label = some system_label;
    decided_at = some now;
    error = some text_initiator_changed;
  }

  -- A pending row whose deadline has come.
  unfoldable pub is_due : (ℕ → Bool) → ℕ → Row P → Bool
  is_due locked now r = is_pending r.status && leb r.expires_at now && not (locked r.id)

  unfoldable pub expire_by_system : Row P → Row P
  expire_by_system r = record r {
    status = expired;
    decided_by_label = some system_label;
    decided_at = some r.expires_at;
  }

  -- ORDER BY expires_at, id.
  unfoldable pub sooner : Row P → Row P → Bool
  sooner a b = ltb a.expires_at b.expires_at || (a.expires_at == b.expires_at && leb a.id b.id)

  -- ORDER BY decided_at, id.
  unfoldable pub decided_sooner : Row P → Row P → Bool
  decided_sooner a b =
      ltb (val a.decided_at) (val b.decided_at)
      || (val a.decided_at == val b.decided_at && leb a.id b.id)

  unfoldable pub insert : (Row P → Row P → Bool) → Row P → List (Row P) → List (Row P)
  insert before r [] = r ∷ []
  insert before r (x ∷ xs) = if before r x then r ∷ x ∷ xs else x ∷ insert before r xs

  unfoldable pub sort : (Row P → Row P → Bool) → List (Row P) → List (Row P)
  unfolding insert
  sort before [] = []
  sort before (r ∷ rs) = insert before r (sort before rs)

  unfoldable pub has_id : List (Row P) → ℕ → Bool
  has_id rs i = any (λ r. r.id == i) rs

  -- WHERE id IN (SELECT … WHERE hit ORDER BY … LIMIT lim) AND hit.
  unfoldable pub in_batch :
      (Row P → Bool) → (Row P → Row P → Bool) → ℕ → List (Row P) → Row P → Bool
  unfolding sort has_id
  in_batch hit before lim rs r = hit r && has_id (take lim (sort before (keep hit rs))) r.id

  -- DELETE of the rows decided before `before`; a decision without a time is not before anything.
  unfoldable pub is_old : ℕ → Row P → Bool
  is_old before r =
      not (is_pending r.status) && (elim r.decided_at [ none ↦ false | some t ↦ ltb t before ])

pub data Purged (A : Type 0) : Type 0 where
  purged : A → Purged A
  kept_all : Error → Purged A

-- s.now().Add(-olderThan), a time.Duration in nanoseconds, as the database keeps it, in microseconds.
unfoldable pub kept_from : ℕ → ℕ → ℕ
kept_from now older_than = (now * 1000 - older_than) / 1000

module _ {W P : Type 0} where
  -- The loop over the rows that an UPDATE gave back.
  unfoldable pub record_all : State W P → List (Row P) → State W P
  unfolding record_decision
  record_all s [] = s
  record_all s (r ∷ rs) = record_all (record_decision s r none) rs

  unfoldable pub swept : State W P → (Row P → Bool) → (Row P → Row P) → State W P × ℕ
  unfolding sweep record_all
  swept s hit change =
      let (rows, changed) = sweep hit change s.rows in
      (record_all (record s { rows = rows }) changed, length changed)

  unfoldable pub cancel_by_initiator : State W P → (ℕ → Bool) → ℕ → ℕ → State W P × ℕ
  unfolding swept
  cancel_by_initiator s locked staff_id now =
      swept s (is_initiated locked staff_id) (cancel_by_system now)

  unfoldable pub expire_batch : State W P → (ℕ → Bool) → ℕ → ℕ → State W P × ℕ
  unfolding swept
  expire_batch s locked now lim =
      swept s (in_batch (is_due locked now) sooner lim s.rows) expire_by_system

  -- `ExpireDue` on fuel: one transaction for each batch, until a batch is not full.
  unfoldable pub expire_due : ℕ → State W P → (ℕ → Bool) → ℕ → ℕ → Option (State W P × ℕ)
  expire_due fuel s locked now lim = drain (λ t. expire_batch t locked now lim) lim fuel s

  unfoldable pub purge_batch : State W P → ℕ → ℕ → State W P × ℕ
  purge_batch s before lim =
      let gone = in_batch (is_old before) decided_sooner lim s.rows in
      (record s { rows = keep (λ r. not (gone r)) s.rows }, length (keep gone s.rows))

  -- `PurgeDecided`: a retention of zero or less is an error; `purged none` is the loop out of fuel.
  unfoldable pub purge_decided : ℕ → State W P → ℕ → ℤ → ℕ → Purged (Option (State W P × ℕ))
  purge_decided fuel s now older_than lim =
      if ltb_ℤ (pos 0) older_than
      then purged (drain (λ t. purge_batch t (kept_from now (pos_part older_than)) lim) lim fuel s)
      else kept_all err_retention
