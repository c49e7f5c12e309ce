-- ===== src/Approvals/Listing.antt =====
-- list.go: which requests a list shows and how, with the WHERE of ListApprovals in
-- queries/approvals.sql. The cursor and the limit of a page are those of platform/page and are not
-- modelled here.
use wf_all.Prelude.{
  ℕ, ◌≡◌, refl, sym, ◌≢◌, ◌↔◌, Bool, true, false, not, ◌&&◌, ◌||◌, List, [], ◌∷◌, Option, none,
  some, String, str_eq, str_eq_iff, leb, ltb, ◌==◌, if◌then◌else◌, any, arith,
}
use wf_all.Auth.{
  Grant, allow, deny, dual, scoped, Staff, is_moderator, contains, lookup_grant, grant, in_scope,
  decide as decide_staff,
}
use wf_all.Approvals.{
  Status, pending, executed, rejected, cancelled, expired, failed, is_pending, Row, system_label,
  is_expired,
}
use wf_all.Approvals.Service.{is_ready, same, open_row, gate_row}

pub data Box : Type 0 where
  incoming mine : Box

abbrev same_status : Status → Status → Bool
same_status pending pending = true
same_status executed executed = true
same_status rejected rejected = true
same_status cancelled cancelled = true
same_status expired expired = true
same_status failed failed = true
same_status _ _ = false

abbrev is_full : Grant → Bool
is_full allow = true
is_full dual = true
is_full _ = false

abbrev is_scoped : Grant → Bool
is_scoped scoped = true
is_scoped _ = false

-- The keys that the loop over `st.Grants` collects.
unfoldable pub keys_of : (Grant → Bool) → List (String × Grant) → List String
keys_of p [] = []
keys_of p ((k, g) ∷ rest) = if p g then k ∷ keys_of p rest else keys_of p rest

abbrev pub is_key : String → List String → Bool
is_key k ks = any (λ j. str_eq j k) ks

-- The session's grants as the keys of a Go map: none stands twice.
abbrev pub HasDistinctKeys : List (String × Grant) → Type 0
HasDistinctKeys [] = Unit
HasDistinctKeys ((k, g) ∷ rest) =
    (is_key k (keys_of (λ _. true) rest) ≡ false) × HasDistinctKeys rest

-- A city given, and in the scope of the caller.
city_matches : Staff → Option ℕ → Bool
city_matches st none = false
city_matches st (some c) = not (is_moderator st.role) || contains st.city_ids c

module _ {P : Type 0} where
  -- The first conjunct of the WHERE, `none` for no filter.
  unfoldable pub matches_status : Option Status → ℕ → Row P → Bool
  matches_status none now r = true
  matches_status (some pending) now r = is_pending r.status && ltb now r.expires_at
  matches_status (some expired) now r =
      same_status r.status expired || (is_pending r.status && leb r.expires_at now)
  matches_status (some s) now r = same_status r.status s

  -- The CASE of the WHERE, with the arguments that `List` fills in.
  unfoldable pub matches_box : Staff → Box → Row P → Bool
  unfolding city_matches keys_of
  matches_box st mine r = r.requested_by == st.staff_id
  matches_box st incoming r =
      not (r.requested_by == st.staff_id)
      && not (same r.target_id st.staff_id)
      && (is_key r.permission (keys_of is_full st.grants)
          || (is_key r.permission (keys_of is_scoped st.grants) && city_matches st r.scope_city_id))

  unfoldable pub matches : Staff → Box → Option Status → ℕ → Row P → Bool
  unfolding matches_box matches_status
  matches st box status now r = matches_status status now r && matches_box st box r

  -- `effective`.
  unfoldable pub effective : Row P → ℕ → Row P
  unfolding is_expired
  effective r now =
      if is_pending r.status && is_expired r now
      then record r {
        status = expired;
        decided_at = some r.expires_at;
        decided_by_label = some system_label;
      }
      else r

  -- A status filter picks the requests whose status, as the list shows it, is that one: an overdue
  -- pending request counts as expired, whether or not ExpireDue has come to it.
  pub matches_status-effective :
      (s : Status) (now : ℕ) (r : Row P)
      → (matches_status (some s) now r ≡ true) ↔ ((effective r now).status ≡ s)
  unfolding matches_status effective
  matches_status-effective s now r = (λ h. ground arith, λ h. ground arith)

is_key-absent :
    (p : Grant → Bool) (gs : List (String × Grant)) (k : String)
    → is_key k (keys_of (λ _. true) gs) ≡ false
    → is_key k (keys_of p gs) ≡ false
unfolding keys_of
is_key-absent p [] k h = refl
is_key-absent p ((j, g) ∷ gs) k h = ground (arith, is_key-absent p gs k)

is_key-of_lookup :
    (p : Grant → Bool) (gs : List (String × Grant)) (k : String)
    → p deny ≡ false
    → HasDistinctKeys gs
    → is_key k (keys_of p gs) ≡ p (lookup_grant gs k)
unfolding keys_of lookup_grant
is_key-of_lookup p [] k z d = sym z
is_key-of_lookup p ((j, g) ∷ gs) k z d =
    ground (arith, is_key-of_lookup p gs k z d.1, is_key-absent p gs k, str_eq_iff j k)

module _ {P : Type 0} where
  -- The pending requests of the incoming box are exactly those that the caller's Approve or Reject
  -- would get through its checks at that moment.
  pub incoming_iff :
      (st : Staff) (r : Row P) (now : ℕ)
      → is_ready st ≡ true
      → HasDistinctKeys st.grants
      → r.scope_city_id ≢ some 0
      → (matches st incoming (some pending) now r ≡ true) ↔ (gate_row st r now ≡ open_row r)
  unfolding matches gate_row is_expired decide_staff grant in_scope
  incoming_iff st r now a d c =
      let f = is_key-of_lookup is_full st.grants r.permission refl d in
      let g = is_key-of_lookup is_scoped st.grants r.permission refl d in
      (λ h. ground arith, λ h. ground arith)
