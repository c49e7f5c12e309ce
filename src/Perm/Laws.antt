-- ===== src/Perm/Laws.antt =====
-- How the grants of a role come out of any matrix that `build` accepts.
use wf_all.Prelude.{
  ◌≡◌, refl, Bool, true, false, not, any, Bool-cases, subst, List, [], ◌∷◌, some, String, str_eq,
  str_eq_iff, if◌then◌else◌, arith, All, Option-cases, inl, inr,
}
use wf_all.Auth.{Grant, deny, Role, lookup_grant}
use wf_all.Perm.{
  Row, Permission, value, has_key, build_from, build, by_role, rows, find_row, lookup,
}

-- The cell of the row with this key; a draft and a missing row give nothing.
abbrev pub find_cell : List Row → String → Role → Grant
find_cell [] key role = deny
find_cell (r ∷ rs) key role =
    if str_eq r.p.key key
    then (if r.p.is_draft then deny else value r role)
    else find_cell rs key role

str_eq_comm : (a b : String) → str_eq a b ≡ false → str_eq b a ≡ false
str_eq_comm a b h = ground (arith, str_eq_iff a b, str_eq_iff b a)

abbrev Fresh : List Row → Row → Type 0
Fresh seen r = has_key r.p.key seen ≡ false

-- No key stands twice.
abbrev IsDistinct : List Row → Type 0
IsDistinct [] = Unit
IsDistinct (r ∷ rs) = (has_key r.p.key rs ≡ false) × IsDistinct rs

Fresh-tail : (r : Row) (seen rs : List Row) → All (Fresh (r ∷ seen)) rs → All (Fresh seen) rs
unfolding has_key
Fresh-tail r seen [] h = tt
Fresh-tail r seen (x ∷ rs) h = (ground arith, Fresh-tail r seen rs h.1)

has_key-of_Fresh :
    (r : Row) (seen rs : List Row) → All (Fresh (r ∷ seen)) rs → has_key r.p.key rs ≡ false
unfolding has_key
has_key-of_Fresh r seen [] h = refl
has_key-of_Fresh r seen (x ∷ rs) h =
    ground (arith, str_eq_comm r.p.key x.p.key, has_key-of_Fresh r seen rs h.1)

build_from-IsDistinct :
    (seen rs l : List Row) → build_from seen rs ≡ some l → All (Fresh seen) rs × IsDistinct rs
unfolding build_from
build_from-IsDistinct seen [] l h = (tt, tt)
build_from-IsDistinct seen (r ∷ rs) l h = elim (Option-cases (build_from (r ∷ seen) rs)) [
  | inl e ↦ absurd (ground arith)
  | inr (l', e) ↦
      let (fresh, distinct) = build_from-IsDistinct (r ∷ seen) rs l' e in
      ((ground arith, Fresh-tail r seen rs fresh), (has_key-of_Fresh r seen rs fresh, distinct))
]

build-IsDistinct : (rs l : List Row) → build rs ≡ some l → IsDistinct rs
unfolding build
build-IsDistinct rs l h = (build_from-IsDistinct [] rs l h).1

lookup_grant-absent :
    (rs : List Row) (role : Role) (key : String)
    → has_key key rs ≡ false
    → lookup_grant (by_role rs role) key ≡ deny
unfolding has_key by_role lookup_grant
lookup_grant-absent [] role key h = refl
lookup_grant-absent (r ∷ rs) role key h = ground (arith, lookup_grant-absent rs role key)

lookup_grant-by_role :
    (rs : List Row) (role : Role) (key : String)
    → IsDistinct rs
    → lookup_grant (by_role rs role) key ≡ find_cell rs key role
unfolding by_role lookup_grant
lookup_grant-by_role [] role key d = refl
lookup_grant-by_role (r ∷ rs) role key d = ground (
  arith,
  lookup_grant-by_role rs role key d.1,
  lookup_grant-absent rs role key,
  str_eq_iff r.p.key key,
)

-- Where the matrix has no key twice, so that `build` does not panic, the grant that a role gets for
-- a key is the role's value in the row of that key, and `deny` for a draft row or a missing one.
pub grants-of_matrix :
    (rs l : List Row) (role : Role) (key : String)
    → build rs ≡ some l
    → lookup_grant (by_role rs role) key ≡ find_cell rs key role
grants-of_matrix rs l role key h = lookup_grant-by_role rs role key (build-IsDistinct rs l h)

find_row-key :
    (f : String → Bool) (rs : List Row) (key : String) (p : Permission)
    → any (λ r. not (f r.p.key)) rs ≡ false
    → find_row rs key ≡ some p
    → f key ≡ true
unfolding find_row
find_row-key f [] key p h e = absurd (cc)
find_row-key f (r ∷ rs) key p h e = elim (Bool-cases (str_eq r.p.key key)) [
  | inl s ↦ subst (λ k. f k ≡ true) ((str_eq_iff r.p.key key).0 s) (ground arith)
  | inr s ↦ find_row-key f rs key p (ground arith) (ground arith)
]

-- A right of the catalogue has what every key of its rows has.
pub lookup-key :
    (f : String → Bool) (key : String) (p : Permission)
    → any (λ r. not (f r.p.key)) rows ≡ false
    → lookup key ≡ some p
    → f key ≡ true
unfolding lookup
lookup-key f key p h e = find_row-key f rows key p h e
