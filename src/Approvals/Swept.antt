-- ===== src/Approvals/Swept.antt =====
-- A sweep of pending rows, and what an executor cancels, keep the state consistent.
use wf_all.Prelude.{
  ℕ, ◌+◌, ◌≡◌, refl, sym, ◌∙◌, subst, none, Bool, true, false, List, [], ◌∷◌, All, All-map, arith,
}
use wf_all.Approvals.{Row, State, is_pending}
use wf_all.Approvals.Formats.{View}
use wf_all.Approvals.Registry.{Cancelling}
use wf_all.Approvals.Decide.{event_of, record_decision}
use wf_all.Approvals.Service.{cancel_all}
use wf_all.Approvals.Stored.{IsStored}
use wf_all.Approvals.Batch.{
  sweep, record_all, swept, cancel_by_initiator, cancel_by_system, is_initiated, expire_by_system,
  is_due,
}
use wf_all.Approvals.Sweeps.{rows-record_all}
use wf_all.Approvals.Cancels.{cancelled_id, cancelled_pending, is_initiated-pending}
use wf_all.Approvals.Accounts.{
  SweptAccount, events_of, IsAccounted, IsConsistent, HasDistinctIds, HasDistinctIds-sweep,
  All-sweep, account-sweep, ids_of,
}

module _ {P : Type 0} (view : P → View) where
  pub is_due-pending :
      (locked : ℕ → Bool) (now : ℕ) (r : Row P)
      → is_due locked now r ≡ true
      → is_pending r.status ≡ true
  unfolding is_due
  is_due-pending locked now r h = ground arith

  pub expired_id : (r : Row P) → (expire_by_system r).id ≡ r.id
  unfolding expire_by_system
  expired_id r = refl

  pub expired_pending : (r : Row P) → is_pending (expire_by_system r).status ≡ false
  unfolding expire_by_system
  expired_pending r = refl

  pub expired-IsStored :
      (locked : ℕ → Bool) (now : ℕ) (r : Row P)
      → is_due locked now r ≡ true
      → IsStored view r
      → IsStored view (expire_by_system r)
  unfolding is_due expire_by_system
  expired-IsStored locked now r h k = ground arith

  pub cancelled-IsStored :
      (locked : ℕ → Bool) (by now : ℕ) (r : Row P)
      → is_initiated locked by r ≡ true
      → IsStored view r
      → IsStored view (cancel_by_system now r)
  unfolding is_initiated cancel_by_system
  cancelled-IsStored locked by now r h k = ground arith

module _ {W P : Type 0} (view : P → View) where
  events-record_all :
      (i : ℕ) (s : State W P) (rs : List (Row P))
      → events_of i (record_all s rs).events ≡ ids_of i rs + events_of i s.events
  unfolding record_all record_decision event_of
  events-record_all i s [] = omega arith
  events-record_all i s (r ∷ rs) = ground (arith, events-record_all i (record_decision s r none) rs)

  -- A sweep of pending rows.
  pub swept-IsConsistent :
      (s : State W P) (hit : Row P → Bool) (change : Row P → Row P)
      → ((r : Row P) → hit r ≡ true → is_pending r.status ≡ true)
      → ((r : Row P) → (change r).id ≡ r.id)
      → ((r : Row P) → is_pending (change r).status ≡ false)
      → ((r : Row P) → hit r ≡ true → IsStored view r → IsStored view (change r))
      → IsConsistent view s
      → IsConsistent view (swept s hit change).0
  unfolding swept
  swept-IsConsistent s hit change p e n k h =
      let out = sweep hit change s.rows in
      let t = record s { rows = out.0 } in
      let q = sym (rows-record_all t out.1) in
      record {
        stored =
            subst (All (IsStored view)) q
              (All-sweep hit change e (IsStored view) k s.rows h.stored);
        distinct = subst HasDistinctIds q (HasDistinctIds-sweep hit change e s.rows h.distinct);
        accounted = subst (All (IsAccounted (record_all t out.1).events)) q (
            All-map (SweptAccount hit change e s.events out.1)
              (IsAccounted (record_all t out.1).events) (λ r a. events-record_all r.id t out.1 ∙ a)
              out.0 (account-sweep hit change e p n s.events s.rows h.distinct h.accounted));
      }

  pub initiator-IsConsistent :
      (s : State W P) (locked : ℕ → Bool) (by now : ℕ)
      → IsConsistent view s
      → IsConsistent view (cancel_by_initiator s locked by now).0
  unfolding cancel_by_initiator
  initiator-IsConsistent s locked by now h =
      swept-IsConsistent s (is_initiated locked by) (cancel_by_system now)
        (is_initiated-pending locked by) (cancelled_id now) (cancelled_pending now)
        (cancelled-IsStored view locked by now) h

  pub cancel_all-IsConsistent :
      (cs : List Cancelling) (s : State W P)
      → IsConsistent view s
      → IsConsistent view (cancel_all s cs)
  unfolding cancel_all
  cancel_all-IsConsistent [] s h = h
  cancel_all-IsConsistent (c ∷ cs) s h =
      cancel_all-IsConsistent cs (cancel_by_initiator s c.locked c.initiator c.at).0
        (initiator-IsConsistent s c.locked c.initiator c.at h)
