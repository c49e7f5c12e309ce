-- ===== src/Approvals/Lifecycle.antt =====
-- Every transaction of the service keeps its state consistent, and a decision is final.
use wf_all.Prelude.{
  ℕ, ◌≡◌, refl, sym, subst, Bool, false, List, [], ◌∷◌, Option, none, some, ◌==◌, keep, All, arith,
  Bool-cases, inl, inr, Text,
}
use wf_all.Approvals.{Row, State, pending, executed, rejected, failed, is_pending, Actor}
use wf_all.Approvals.Registry.{Registry}
use wf_all.Approvals.Decide.{find, apply, Decision, decision_of, event_of, record_decision}
use wf_all.Approvals.Service.{Answer, Clock, snapshot, Comment, given}
use wf_all.Approvals.Outcomes.{after, expiry_of, find-id}
use wf_all.Approvals.Answers.{
  Overdue, Approved, turned_away, lapsed, failed_with, carried_out, cancelled_by,
}
use wf_all.Approvals.Decisions.{
  Entered, Rejected, not_rejected, found_late, turned_down, Cancelled, not_cancelled, already_late,
  withdrawn,
}
use wf_all.Approvals.Formats.{View}
use wf_all.Approvals.Swept.{cancel_all-IsConsistent}
use wf_all.Approvals.Stored.{
  IsStored, IsLabel, FitsComment, verdict-IsStored, cancel-IsStored, expiry-IsStored,
}
use wf_all.Approvals.Accounts.{
  has_row, HasDistinctIds, HasDistinctIds-replace, All-replace, IsAccounted-replace, IsConsistent,
}

module _ {P : Type 0} where
  pub find-All :
      (A : Row P → Type 0) (i : ℕ) (rs : List (Row P)) (r : Row P)
      → find i rs ≡ some r
      → All A rs
      → A r
  unfolding find
  find-All A i [] r f h = absurd (ground arith)
  find-All A i (x ∷ rs) r f h = elim (Bool-cases (x.id == i)) [
    | inl e ↦ subst A (ground arith) h.0
    | inr e ↦ find-All A i rs r (ground arith) h.1
  ]

  has_row-keep :
      (p : Row P → Bool) (i : ℕ) (rs : List (Row P))
      → has_row i rs ≡ false
      → has_row i (keep p rs) ≡ false
  has_row-keep p i [] h = refl
  has_row-keep p i (r ∷ rs) h = ground (arith, has_row-keep p i rs)

  pub HasDistinctIds-keep :
      (p : Row P → Bool) (rs : List (Row P)) → HasDistinctIds rs → HasDistinctIds (keep p rs)
  HasDistinctIds-keep p [] d = tt
  HasDistinctIds-keep p (r ∷ rs) d =
      ground (arith, HasDistinctIds-keep p rs d.1, has_row-keep p r.id rs)

module _ {W P : Type 0} (view : P → View) where
  -- One decision.
  after-IsConsistent :
      (s : State W P) (r : Row P) (d : Decision) (by : Option Actor)
      → find r.id s.rows ≡ some r
      → r.status ≡ pending
      → is_pending d.to ≡ false
      → IsStored view (apply d r)
      → IsConsistent view s
      → IsConsistent view (after s r d by)
  unfolding after record_decision apply
  after-IsConsistent s r d by f p n k h = record {
    stored = All-replace (IsStored view) r.id (apply d r) s.rows k h.stored;
    distinct = HasDistinctIds-replace r.id (apply d r) s.rows refl h.distinct;
    accounted =
        IsAccounted-replace (event_of (apply d r)) s.events r (apply d r) s.rows refl n f p
          h.distinct h.accounted;
  }

  held_here :
      (s : State W P) (i : ℕ) (r : Row P) → find i s.rows ≡ some r → find r.id s.rows ≡ some r
  held_here s i r h = subst (λ (k : ℕ). find k s.rows ≡ some r) (sym (find-id i s.rows r h)) h

  Overdue-IsConsistent :
      (s : State W P) (i at now : ℕ) (r : Row P)
      → Overdue s i at r
      → IsConsistent view s
      → IsConsistent view (after s r (expiry_of r now) none)
  unfolding decision_of
  Overdue-IsConsistent s i at now r o h =
      after-IsConsistent s r (expiry_of r now) none (held_here s i r o.found) o.waiting refl
        (expiry-IsStored view r now (find-All (IsStored view) i s.rows r o.found h.stored)) h

  pub Approved-IsConsistent :
      (reg : Registry W P) (s : State W P) (by : Actor) (i : ℕ) (c : Option Text) (clock : Clock)
      (a : Answer W P)
      → Approved reg s by i c clock a
      → IsLabel by.label
      → FitsComment c
      → IsConsistent view s
      → IsConsistent view a.0
  unfolding decision_of
  Approved-IsConsistent reg s by i c clock a (turned_away e) l k h = h
  Approved-IsConsistent reg s by i c clock a (lapsed r o) l k h =
      Overdue-IsConsistent s i clock.checked clock.decided r o h
  Approved-IsConsistent reg s by i c clock a (failed_with r text f held) l k h =
      after-IsConsistent s r _ (some by) (held_here s i r held.0) held.1.waiting refl
        (verdict-IsStored view r failed by c (some text) clock.checked clock.decided
          (find-All (IsStored view) i s.rows r held.0 h.stored) held.1 l k refl (λ e. absurd (cc))
          (λ _ e. cc) (λ n. absurd (n refl)))
        h
  Approved-IsConsistent reg s by i c clock a (carried_out r w cs held x f) l k h =
      after-IsConsistent (cancelled_by s w cs) r _ (some by) f held.1.waiting refl
        (verdict-IsStored view r executed by c none clock.checked clock.decided
          (find-All (IsStored view) i s.rows r held.0 h.stored) held.1 l k refl (λ e. absurd (cc))
          (λ e. absurd (cc)) (λ _. refl))
        (cancel_all-IsConsistent view cs (record s { world = w })
          (record { stored = h.stored; distinct = h.distinct; accounted = h.accounted }))

  pub Rejected-IsConsistent :
      (s : State W P) (by : Actor) (i : ℕ) (clock : Clock) (c : Option Text) (a : Answer W P)
      → Rejected s by i clock c a
      → IsLabel by.label
      → FitsComment c
      → IsConsistent view s
      → IsConsistent view a.0
  unfolding decision_of
  Rejected-IsConsistent s by i clock c a (not_rejected e) l k h = h
  Rejected-IsConsistent s by i clock c a (found_late r o) l k h =
      Overdue-IsConsistent s i clock.checked clock.decided r o h
  Rejected-IsConsistent s by i clock _ a (turned_down r comment held) l k h =
      after-IsConsistent s r _ (some by) (held_here s i r held.0) held.1.waiting refl
        (verdict-IsStored view r rejected by (some comment) none clock.checked clock.decided
          (find-All (IsStored view) i s.rows r held.0 h.stored) held.1 l k refl (λ _ e. cc)
          (λ e. absurd (cc)) (λ _. refl))
        h

  pub Cancelled-IsConsistent :
      (s : State W P) (by : Actor) (i : ℕ) (clock : Clock) (a : Answer W P)
      → Cancelled s by i clock a
      → IsLabel by.label
      → IsConsistent view s
      → IsConsistent view a.0
  unfolding decision_of
  Cancelled-IsConsistent s by i clock a (not_cancelled e) l h = h
  Cancelled-IsConsistent s by i clock a (already_late r o own) l h =
      Overdue-IsConsistent s i clock.checked clock.decided r o h
  Cancelled-IsConsistent s by i clock a (withdrawn r f p t own) l h =
      after-IsConsistent s r _ (some by) (held_here s i r f) p refl
        (cancel-IsStored view r by clock.decided (find-All (IsStored view) i s.rows r f h.stored)
          own l)
        h

  pub entered-IsConsistent :
      (s : State W P) (ready : Bool) (l text : Text) (comment : Comment) (a : Answer W P)
      (K : Text → Option Text → Answer W P → Type 0)
      → Entered s ready (snapshot l) comment a K
      → ((t : Text) (c : Option Text)
          → snapshot l ≡ some t
          → comment ≡ given c
          → K t c a
          → IsConsistent view a.0)
      → IsConsistent view s
      → IsConsistent view a.0
  entered-IsConsistent s ready l text comment a K (inl (e, q)) k h =
      subst (λ (x : Answer W P). IsConsistent view x.0) (sym q) h
  entered-IsConsistent s ready l text comment a K (inr (t, c, _, label, given_c, x)) k h =
      k t c label given_c x
