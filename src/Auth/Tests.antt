-- ===== src/Auth/Tests.antt =====
-- A moderator of one city, and a request in the moderator's session.
use wf_all.Prelude.{ℕ, ◌≡◌, refl, ◌≢◌, ◌↔◌, ◌⊎◌, [], ◌∷◌, true, false, none, some}
use wf_all.Auth.{
  Staff, moderator, active, allow, scoped, dual, grant, can, decide, needs_approval, Context, staff,
  subject_from,
}
use wf_all.Auth.Laws.{Covers, can_iff, needs_approval_iff, IsSubjectOf, subject_from_sound}

abbrev city_moderator : Staff
city_moderator = record {
  staff_id = 7;
  session_id = 70;
  role = moderator;
  city_ids = 3 ∷ [];
  stage = active;
  reauth = false;
  grants = ("geo.cities.rename", scoped) ∷ ("staff.roles.grant", dual) ∷ [];
}

abbrev in_session : Context
in_session = record { staff_value = some city_moderator; principal_value = none }

can_iff_example : (can city_moderator "geo.cities.rename" 3 ≡ true) ↔ (
    (city_moderator.stage ≡ active)
    × (city_moderator.reauth ≡ false)
    × ((grant city_moderator "geo.cities.rename" ≡ allow)
        ⊎ ((grant city_moderator "geo.cities.rename" ≡ scoped) × Covers city_moderator 3)))
can_iff_example = can_iff city_moderator "geo.cities.rename" 3

needs_approval_iff_example : (decide city_moderator "staff.roles.grant" 0 ≡ needs_approval) ↔ (
    (city_moderator.stage ≡ active)
    × (city_moderator.reauth ≡ false)
    × (grant city_moderator "staff.roles.grant" ≡ dual))
needs_approval_iff_example = needs_approval_iff city_moderator "staff.roles.grant" 0

subject_from_sound_example :
    (◌≢◌ {A = ℕ} 7 0)
    × IsSubjectOf (some city_moderator) none (record { kind = staff; id = 7; device = 0 })
unfolding subject_from
subject_from_sound_example =
    subject_from_sound in_session (record { kind = staff; id = 7; device = 0 }) refl
