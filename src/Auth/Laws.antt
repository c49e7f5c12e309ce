-- ===== src/Auth/Laws.antt =====
-- What the decisions of auth.Staff and auth.SubjectFrom come to.
use wf_all.Prelude.{
  ℕ, ◌≡◌, refl, ◌≢◌, ◌↔◌, ◌⊎◌, inl, inr, true, false, Option, none, some, String, arith,
}
use wf_all.Auth.{
  allow, scoped, dual, needs_approval, active, moderator, Staff, contains, grant, in_scope, decide,
  can, Principal, Context, staff, user, Subject, subject_from,
}

-- The city is one that a scoped grant of this person covers.
abbrev pub Covers : Staff → ℕ → Type 0
Covers s city = (city ≢ 0) × ((s.role ≢ moderator) ⊎ (contains s.city_ids city ≡ true))

-- A person may act at once exactly when the session is active and not awaiting reauthentication,
-- and the grant is `allow`, or `scoped` with the object's city given and covered.
pub can_iff :
    (s : Staff) (perm : String) (city : ℕ)
    → (can s perm city ≡ true) ↔ (
        (s.stage ≡ active)
        × (s.reauth ≡ false)
        × ((grant s perm ≡ allow) ⊎ ((grant s perm ≡ scoped) × Covers s city)))
unfolding can in_scope
can_iff s perm city = (λ h. ground arith, λ h. ground arith)

-- Approval is asked for exactly when the session is active, not awaiting reauthentication, and the
-- grant is `dual`; the city plays no part.
pub needs_approval_iff :
    (s : Staff) (perm : String) (city : ℕ)
    → (decide s perm city ≡ needs_approval)
      ↔ ((s.stage ≡ active) × (s.reauth ≡ false) × (grant s perm ≡ dual))
unfolding decide
needs_approval_iff s perm city = (λ h. ground arith, λ h. ground arith)

abbrev pub IsSubjectOf : Option Staff → Option Principal → Subject → Type 0
IsSubjectOf o p sub =
    ((s : Staff) × (o ≡ some s) × (sub ≡ record { kind = staff; id = s.staff_id; device = 0 }))
    ⊎ ((q : Principal) × (o ≡ none)
        × (p ≡ some q)
        × (sub ≡ record { kind = user; id = q.user_id; device = q.device_id }))

subject-IsSubjectOf :
    (o : Option Staff) (p : Option Principal) (sub : Subject)
    → subject_from (record { staff_value = o; principal_value = p }) ≡ some sub
    → (sub.id ≢ 0) × IsSubjectOf o p sub
unfolding subject_from
subject-IsSubjectOf (some s) p sub h = (ground arith, inl (s, refl, ground arith))
subject-IsSubjectOf none (some q) sub h = (ground arith, inr (q, refl, refl, ground arith))
subject-IsSubjectOf none none sub h = absurd (ground arith)

-- A subject is never the nil uuid; it is the staff member where the context has one, with no
-- device, and the player with the device of the session where it has only a player.
pub subject_from_sound :
    (c : Context) (sub : Subject)
    → subject_from c ≡ some sub
    → (sub.id ≢ 0) × IsSubjectOf c.staff_value c.principal_value sub
subject_from_sound c sub h = subject-IsSubjectOf c.staff_value c.principal_value sub h
