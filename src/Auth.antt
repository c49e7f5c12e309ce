-- ===== src/Auth.antt =====
-- backend/internal/platform/auth/grant.go, staff.go, subject.go and principal.go: what a staff
-- member may do, and who the subject of a request is. A uuid is a number and uuid.Nil is 0; a map
-- from permissions to grants is the list of its entries.
pub mod Laws
pub mod Tests
use wf_all.Prelude.{
  ℕ, Bool, true, false, not, ◌&&◌, ◌||◌, List, [], ◌∷◌, Option, none, some, String, str_eq, ◌==◌,
  if◌then◌else◌, any,
}

pub data Grant : Type 0 where
  deny allow scoped dual : Grant

pub data Decision : Type 0 where
  denied allowed needs_approval : Decision

pub data Stage : Type 0 where
  mfa_pending setup active : Stage

-- `other` is a role string that is none of the four.
pub data Role : Type 0 where
  owner admin moderator support : Role
  other : String → Role

pub record Staff : Type 0 where
  pub staff_id : ℕ
  pub session_id : ℕ
  pub role : Role
  pub city_ids : List ℕ
  pub stage : Stage
  pub reauth : Bool
  pub grants : List (String × Grant)

abbrev pub is_active : Stage → Bool
is_active active = true
is_active _ = false

abbrev pub is_moderator : Role → Bool
is_moderator moderator = true
is_moderator _ = false

-- `slices.Contains` on uuids.
abbrev pub contains : List ℕ → ℕ → Bool
contains xs a = any (λ x. x == a) xs

-- A missing key is the zero value, `deny`.
unfoldable pub lookup_grant : List (String × Grant) → String → Grant
lookup_grant [] perm = deny
lookup_grant ((key, g) ∷ rest) perm = if str_eq key perm then g else lookup_grant rest perm

unfoldable pub grant : Staff → String → Grant
grant s perm = lookup_grant s.grants perm

unfoldable pub in_scope : Staff → ℕ → Bool
in_scope s city =
    if not (is_moderator s.role) then true else not (city == 0) && contains s.city_ids city

-- The `switch` of `Decide`.
decide_grant : Staff → ℕ → Grant → Decision
unfolding in_scope
decide_grant s city allow = allowed
decide_grant s city scoped = if not (city == 0) && in_scope s city then allowed else denied
decide_grant s city dual = needs_approval
decide_grant s city deny = denied

unfoldable pub decide : Staff → String → ℕ → Decision
unfolding decide_grant grant
decide s perm city =
    if not (is_active s.stage) || s.reauth then denied else decide_grant s city (grant s perm)

abbrev is_allowed : Decision → Bool
is_allowed allowed = true
is_allowed _ = false

unfoldable pub can : Staff → String → ℕ → Bool
unfolding decide
can s perm city = is_allowed (decide s perm city)

pub record Principal : Type 0 where
  pub user_id : ℕ
  pub principal_session : ℕ
  pub device_id : ℕ

pub data SubjectKind : Type 0 where
  user staff : SubjectKind

pub record Subject : Type 0 where
  pub kind : SubjectKind
  pub id : ℕ
  pub device : ℕ

-- What the request context carries: the values put by WithStaff and With.
pub record Context : Type 0 where
  pub staff_value : Option Staff
  pub principal_value : Option Principal

candidate : Option Staff → Option Principal → Subject
candidate (some s) _ = record { kind = staff; id = s.staff_id; device = 0 }
candidate none (some p) = record { kind = user; id = p.user_id; device = p.device_id }
candidate none none = record { kind = user; id = 0; device = 0 }

-- `none` is the result `(Subject{}, false)`.
unfoldable pub subject_from : Context → Option Subject
unfolding candidate
subject_from c =
    let sub = candidate c.staff_value c.principal_value in if sub.id == 0 then none else some sub
