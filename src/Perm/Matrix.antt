-- ===== src/Perm/Matrix.antt =====
-- What the four roles of the catalogue may never do.
use wf_all.Prelude.{
  ◌≡◌, refl, ◌≢◌, ◌⊎◌, inl, inr, Bool, true, false, not, ◌&&◌, List, [], ◌∷◌, Option, some, String,
  str_eq, if◌then◌else◌, arith, all, Bool-cases,
}
use wf_all.Auth.{
  Grant, deny, allow, scoped, dual, Role, owner, admin, moderator, support, lookup_grant,
}
use wf_all.Perm.Laws.{find_cell, grants-of_matrix}
use wf_all.Perm.{Row, Permission, value, rows, build, grants, find_row, lookup}

-- What a grant other than `deny` says of the role and of the permission.
pub record IsSound (role : Role) (g : Grant) (p : Permission) : Type 0 where
  pub released : p.is_draft ≡ false
  pub scope : g ≡ scoped → (role ≡ moderator) × (p.city_bound ≡ true)
  pub pairs : g ≡ dual → (p.mutating ≡ true) × ((role ≡ owner) ⊎ (role ≡ admin))
  pub reads_only : role ≡ support → (p.mutating ≡ false) × (g ≡ allow)
  pub own_cities : role ≡ moderator → p.mutating ≡ true → g ≡ scoped

-- The same as a test, over a row.
is_sound : Role → Grant → Permission → Bool
is_sound _ deny p = true
is_sound owner allow p = true
is_sound owner dual p = p.mutating
is_sound admin allow p = true
is_sound admin dual p = p.mutating
is_sound moderator allow p = not p.mutating
is_sound moderator scoped p = p.city_bound
is_sound support allow p = not p.mutating
is_sound _ _ p = false

row_sound : Row → Bool
unfolding is_sound value
row_sound r =
    is_sound owner (value r owner) r.p
    && is_sound admin (value r admin) r.p
    && is_sound moderator (value r moderator) r.p
    && is_sound support (value r support) r.p

rows_sound : all row_sound rows ≡ true
unfolding row_sound rows
rows_sound = refl

is_sound-IsSound :
    (role : Role) (g : Grant) (p : Permission)
    → is_sound role g p ≡ true
    → g ≢ deny
    → p.is_draft ≡ false
    → IsSound role g p
unfolding is_sound
is_sound-IsSound role g p h n d = ground arith

row_sound-is_sound :
    (r : Row) (role : Role)
    → row_sound r ≡ true
    → value r role ≢ deny
    → is_sound role (value r role) r.p ≡ true
unfolding row_sound
row_sound-is_sound r role h n = ground arith

abbrev pub SoundCell : Role → Grant → Option Permission → Type 0
SoundCell role g o = (p : Permission) × (o ≡ some p) × IsSound role g p

here-IsSound :
    (r : Row) (role : Role)
    → row_sound r ≡ true
    → (if r.p.is_draft then deny else value r role) ≢ deny
    → SoundCell role (if r.p.is_draft then deny else value r role) (some r.p)
here-IsSound r role h n = elim (Bool-cases r.p.is_draft) [
  | inl d ↦ absurd (ground arith)
  | inr d ↦
      let s : IsSound role (value r role) r.p =
        is_sound-IsSound role (value r role) r.p (row_sound-is_sound r role h (ground arith))
          (ground arith) d in
      (r.p, refl, simp d s)
]

cell-IsSound :
    (rs : List Row) (role : Role) (key : String)
    → all row_sound rs ≡ true
    → find_cell rs key role ≢ deny
    → SoundCell role (find_cell rs key role) (find_row rs key)
unfolding find_row
cell-IsSound [] role key h n = absurd (n refl)
cell-IsSound (r ∷ rs) role key h n = elim (Bool-cases (str_eq r.p.key key)) [
  | inr e ↦ rw e (cell-IsSound rs role key (ground arith) (ground arith))
  | inl e ↦ rw e (here-IsSound r role (ground arith) (ground arith))
]

-- The loop of `build` goes through the rows of the catalogue without a panic.
rows-build : build rows ≡ some rows
unfolding build rows
rows-build = refl

-- Whatever right a role holds stands in the catalogue under its key and is no draft; a scoped right
-- is the moderator's and bound to a city; a right that wants two people changes state and is the
-- owner's or the admin's; support holds rights to read only; and what a moderator may change is
-- confined to the moderator's own cities.
pub grants-IsSound :
    (role : Role) (key : String)
    → lookup_grant (grants role) key ≢ deny
    → SoundCell role (lookup_grant (grants role) key) (lookup key)
unfolding grants lookup
grants-IsSound role key n =
    let e = grants-of_matrix rows rows role key rows-build in
    rw e (cell-IsSound rows role key rows_sound (rw e at n))
