-- ===== src/Approvals/Formats.antt =====
-- The formats of the CHECK constraints of approvals (backend/migrations/0020_staff.sql) and of
-- Register: names of segments with dots between, and a payload with a version.
use wf_all.Prelude.{
  ℕ, Bool, true, false, not, ◌&&◌, ◌||◌, [], ◌∷◌, Option, some, String, Text, ◌==◌, ltb, ◌-◌,
  if◌then◌else◌, codes, between,
}
use wf_all.Prelude.Int.{ℤ, pos, ltb_ℤ}

-- [a-z] and [a-z0-9_].
abbrev is_lower : ℕ → Bool
is_lower c = between 97 122 c

abbrev is_word : ℕ → Bool
is_word c = is_lower c || between 48 57 c || c == 95

-- `n` dots are to come; true at the head of a segment.
unfoldable pub dotted : Bool → ℕ → Text → Bool
dotted true n [] = false
dotted false n [] = n == 0
dotted true n (c ∷ t) = is_lower c && dotted false n t
dotted false n (c ∷ t) =
    let word = dotted false n t in
    let head = dotted true (n - 1) t in if is_word c then word else c == 46 && ltb 0 n && head

-- actionName, and the CHECKs of the action and of the permission.
unfoldable pub is_action_name : String → Bool
unfolding dotted
is_action_name s = dotted true 1 (codes s)

unfoldable pub is_permission_name : String → Bool
unfolding dotted
is_permission_name s = dotted true 2 (codes s)

-- What encoding/json says of a payload and of its field `v`; `version none` is a number that is no
-- int64.
pub data View : Type 0 where
  not_marshalled not_object no_version not_number : View
  version : Option ℤ → View

-- The checks of `encodePayload`: an object with an integer `v` that is at least 1.
unfoldable pub is_versioned : View → Bool
is_versioned (version (some v)) = not (ltb_ℤ v (pos 1))
is_versioned _ = false

-- The CHECK of the payload: an object whose `v` is a number.
unfoldable pub has_version : View → Bool
has_version (version v) = true
has_version _ = false
