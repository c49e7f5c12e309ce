-- ===== src/Access/Entry.antt =====
-- Who LoadStaff of session.go lets in.
use wf_all.Prelude.{
  ℕ, ◌+◌, ◌≤◌, ◌≡◌, refl, Bool, true, false, not, ◌||◌, Option, none, some, ltb, if◌then◌else◌,
  Bool-cases, inl, inr, arith,
}
use wf_all.Auth.{Staff, Stage}
use wf_all.Access.{
  Account, Session, Db, before, is_null, is_disabled, same_stage, storage, idle_timeout,
}
use wf_all.Access.Tx.{Res, ok, err}
use wf_all.Access.Store.{lock_account, load_session}
use wf_all.Access.Loading.{
  Arrival, load_staff, load_cookie, load_row, load_joined, welcome, staff_of, needs_reauth,
  same_prefix,
}

abbrev pub session_of_cookie : Option ℕ → Db → Option Session
session_of_cookie none db = none
session_of_cookie (some hash) db = load_session hash db

-- The session of a token and its account let a request in.
pub record Admits (req : Arrival) (db : Db) (row : Session) (acct : Account) : Type 0 where
  pub found : session_of_cookie req.cookie db ≡ some row
  pub joined : lock_account row.staff_id db ≡ some acct
  pub alive : is_null row.revoked_at ≡ true
  pub unexpired : ltb req.clock row.expires_at ≡ true
  pub enabled : is_disabled acct.status ≡ false
  pub unlocked : before req.clock acct.locked_until ≡ false

-- The member of the staff that a session and its account make, without a second factor where the
-- session was in use within twenty minutes and on the same network.
pub record IsEntrant (req : Arrival) (row : Session) (acct : Account) (st : Staff) : Type 0 where
  pub account : st.staff_id ≡ row.staff_id
  pub same_role : st.role ≡ acct.role
  pub in_stage : st.stage ≡ row.stage
  pub near :
      same_stage st.stage Stage.active ≡ true
      → st.reauth ≡ false
      → (req.clock ≤ row.last_seen_at + idle_timeout) × (same_prefix row.ip req.peer ≡ true)

pub data Entered (req : Arrival) (db : Db) : Res Staff → Type 0 where
  refused : {e : _} → Entered req db (err e)
  entered :
      {row : Session} {acct : Account} {st : Staff}
      → Admits req db row acct
      → IsEntrant req row acct st
      → Entered req db (ok st)

near_lem :
    (row : Session) (req : Arrival)
    → same_stage row.stage Stage.active ≡ true
    → needs_reauth row req.peer req.clock ≡ false
    → (req.clock ≤ row.last_seen_at + idle_timeout) × (same_prefix row.ip req.peer ≡ true)
unfolding needs_reauth
near_lem row req h g = ground arith

staff_of-IsEntrant :
    (req : Arrival) (row : Session) (acct : Account)
    → IsEntrant req row acct (staff_of acct row (needs_reauth row req.peer req.clock))
unfolding staff_of
staff_of-IsEntrant req row acct = record {
  account = refl;
  same_role = refl;
  in_stage = refl;
  near = near_lem row req;
}

affirmed : (b : Bool) → not b ≡ false → b ≡ true
affirmed b h = ground arith

neither : (a b : Bool) → (a || b) ≡ false → (a ≡ false) × (b ≡ false)
neither a b h = ground arith

fine-Entered :
    (req : Arrival) (row : Session) (acct : Account) (db db' : Db) (fine : Bool)
    → Admits req db row acct
    → let r : Db × Res Staff =
        if fine
        then (db', ok (staff_of acct row (needs_reauth row req.peer req.clock)))
        else (db', err storage) in
      Entered req db r.1
fine-Entered req row acct db db' true h = entered h (staff_of-IsEntrant req row acct)
fine-Entered req row acct db db' false h = refused

joined-Entered :
    (req : Arrival) (row : Session) (o : Option Account) (db : Db)
    → session_of_cookie req.cookie db ≡ some row
    → lock_account row.staff_id db ≡ o
    → Entered req db (load_joined req row o db).1
unfolding load_joined welcome
joined-Entered req row none db e f = refused
joined-Entered req row (some acct) db e f = elim (Bool-cases (not (is_null row.revoked_at))) [
  | inl a ↦ rw a refused
  | inr a ↦ rw a (elim (Bool-cases (not (ltb req.clock row.expires_at))) [
    | inl b ↦
        rw b (elim (Bool-cases (req.broken 1)) [ inl c ↦ rw c refused | inr c ↦ rw c refused ])
    | inr b ↦
        rw b (elim (Bool-cases (is_disabled acct.status || before req.clock acct.locked_until)) [
          | inl c ↦ rw c refused
          | inr c ↦
              let admits : Admits req db row acct = record {
                found = e;
                joined = f;
                alive = affirmed _ a;
                unexpired = affirmed _ b;
                enabled = (neither _ _ c).0;
                unlocked = (neither _ _ c).1;
              } in
              rw c (fine-Entered req row acct db _ _ admits)
        ])
  ])
]

row-Entered :
    (req : Arrival) (o : Option Session) (db : Db)
    → session_of_cookie req.cookie db ≡ o
    → Entered req db (load_row req o db).1
unfolding load_row
row-Entered req none db e = refused
row-Entered req (some row) db e = joined-Entered req row _ db e refl

cookie-Entered :
    (req : Arrival) (cookie : Option ℕ) (db : Db)
    → req.cookie ≡ cookie
    → Entered req db (load_cookie req cookie db).1
unfolding load_cookie
cookie-Entered req none db e = refused
cookie-Entered req (some hash) db e = elim (Bool-cases (req.broken 0)) [
  | inl a ↦ rw a refused
  | inr a ↦ rw a (row-Entered req (load_session hash db) db (rw e refl))
]

-- LoadStaff lets in only a session that is not revoked and has not run out, of an account that is not
-- disabled and not locked; and it asks for no second factor of an active session only where it was
-- in use within twenty minutes and on the same network.
pub load_staff-Entered : (req : Arrival) (db : Db) → Entered req db (load_staff req db).1
unfolding load_staff
load_staff-Entered req db = cookie-Entered req req.cookie db refl
