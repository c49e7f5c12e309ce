-- ===== src/Approvals/Cancels.antt =====
-- What the requests that an executor cancels do to the row that Approve holds: it stays as it is, or is
-- pending no more and the decision finds no row.
use wf_all.Prelude.{
  ℕ, ◌≡◌, refl, sym, subst, ◌⊎◌, inl, inr, Bool, true, false, List, [], ◌∷◌, Option, none, some,
  if◌then◌else◌, Bool-cases, arith, String, Text,
}
use wf_all.Approvals.{Status, Row, State, Actor, is_pending}
use wf_all.Approvals.Registry.{Cancelling}
use wf_all.Approvals.Decide.{Decision, find, decide_row, decision_of, decide}
use wf_all.Approvals.Service.{cancel_all}
use wf_all.Approvals.Batch.{sweep, swept, cancel_by_initiator, is_initiated, cancel_by_system}
use wf_all.Approvals.Sweeps.{rows-record_all}

module _ {P : Type 0} where
  pub cancelled_id : (now : ℕ) (r : Row P) → (cancel_by_system now r).id ≡ r.id
  unfolding cancel_by_system
  cancelled_id now r = refl

  pub cancelled_pending : (now : ℕ) (r : Row P) → is_pending (cancel_by_system now r).status ≡ false
  unfolding cancel_by_system
  cancelled_pending now r = refl

  pub is_initiated-pending :
      (locked : ℕ → Bool) (by : ℕ) (r : Row P)
      → is_initiated locked by r ≡ true
      → is_pending r.status ≡ true
  unfolding is_initiated
  is_initiated-pending locked by r h = ground arith

  find-sweep_hit :
      (hit : Row P → Bool) (change : Row P → Row P) (i : ℕ) (rs : List (Row P)) (r : Row P)
      → ((x : Row P) → (change x).id ≡ x.id)
      → find i rs ≡ some r
      → find i (sweep hit change rs).0 ≡ some (if hit r then change r else r)
  unfolding find sweep
  find-sweep_hit hit change i [] r e h = cc
  find-sweep_hit hit change i (x ∷ rs) r e h =
      ground (arith, e x, find-sweep_hit hit change i rs r e)

  decide_row-gone :
      (i : ℕ) (d : Decision) (rs : List (Row P)) (r : Row P)
      → find i rs ≡ some r
      → is_pending r.status ≡ false
      → decide_row i d rs ≡ none
  unfolding find decide_row
  decide_row-gone i d [] r h g = cc
  decide_row-gone i d (x ∷ rs) r h g = ground (arith, decide_row-gone i d rs r)

module _ {W P : Type 0} where
  -- The row of an id is `r`, or it is decided.
  abbrev pub Stands : ℕ → Row P → State W P → Type 0
  Stands i r s =
      (find i s.rows ≡ some r)
      ⊎ ((x : Row P) × (find i s.rows ≡ some x) × (is_pending x.status ≡ false))

  swept_find :
      (s : State W P) (c : Cancelling) (i : ℕ) (x : Row P)
      → find i s.rows ≡ some x
      → find i (cancel_by_initiator s c.locked c.initiator c.at).0.rows
        ≡ some (if is_initiated c.locked c.initiator x then cancel_by_system c.at x else x)
  unfolding cancel_by_initiator swept
  swept_find s c i x h =
      let hit = is_initiated c.locked c.initiator in
      let out = sweep hit (cancel_by_system c.at) s.rows in
      subst (λ rs. find i rs ≡ some (if hit x then cancel_by_system c.at x else x))
        (sym (rows-record_all (record s { rows = out.0 }) out.1))
        (find-sweep_hit hit (cancel_by_system c.at) i s.rows x (cancelled_id c.at) h)

  cancel-Stands :
      (s : State W P) (c : Cancelling) (i : ℕ) (r : Row P)
      → Stands i r s
      → Stands i r (cancel_by_initiator s c.locked c.initiator c.at).0
  cancel-Stands s c i r (inl h) = elim (Bool-cases (is_initiated c.locked c.initiator r)) [
    | inl e ↦ inr (
      cancel_by_system c.at r,
      subst
          (λ b.
            find i (cancel_by_initiator s c.locked c.initiator c.at).0.rows
            ≡ some (if b then cancel_by_system c.at r else r))
          e (swept_find s c i r h),
      cancelled_pending c.at r,
    )
    | inr e ↦ inl (
        subst
          (λ b.
            find i (cancel_by_initiator s c.locked c.initiator c.at).0.rows
            ≡ some (if b then cancel_by_system c.at r else r))
          e (swept_find s c i r h))
  ]
  cancel-Stands s c i r (inr (x, h, g)) =
      let same : is_initiated c.locked c.initiator x ≡ false =
        ground (arith, g, is_initiated-pending c.locked c.initiator x) in
      inr (
        x,
        subst
            (λ b.
              find i (cancel_by_initiator s c.locked c.initiator c.at).0.rows
              ≡ some (if b then cancel_by_system c.at x else x))
            same (swept_find s c i x h),
        g,
      )

  pub cancel_all-Stands :
      (s : State W P) (cs : List Cancelling) (i : ℕ) (r : Row P)
      → Stands i r s
      → Stands i r (cancel_all s cs)
  unfolding cancel_all
  cancel_all-Stands s [] i r h = h
  cancel_all-Stands s (c ∷ cs) i r h =
      cancel_all-Stands (cancel_by_initiator s c.locked c.initiator c.at).0 cs i r
        (cancel-Stands s c i r h)

  pub decide-gone :
      (s : State W P) (r x : Row P) (to : Status) (by : Option Actor) (c : Option Text)
      (f : Option String) (now : ℕ)
      → find r.id s.rows ≡ some x
      → is_pending x.status ≡ false
      → decide s r to by c f now ≡ none
  unfolding decide
  decide-gone s r x to by c f now h g =
      ground (arith, decide_row-gone r.id (decision_of r to by c f now) s.rows x h g)
