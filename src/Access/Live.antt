-- ===== src/Access/Live.antt =====
-- lockLiveSession and checkFactor of factor.go: what they check, and that they leave the accounts and
-- the audit as they are.
use wf_all.Prelude.{
  ℕ, ◌==◌, ◌≡◌, refl, sym, subst, Bool, true, false, not, ◌&&◌, Option, none, some, Text, ltb,
  Bool-cases, inl, inr, arith, is_empty, List,
}
use wf_all.Prelude.Int.{ℤ}
use wf_all.Auth.{Staff}
use wf_all.Access.{
  Account, Session, Mfa, Db, before, is_null, is_replaced, is_active, session_invalid, was_replaced,
}
use wf_all.Access.Tx.{Res, ok, err, Tx, of_res, ◌>>=◌}
use wf_all.Access.Store.{lock_session, use_recovery_code, set_mfa_step}
use wf_all.Access.Factor.{
  Services, lock_live_session, check_factor, check_mfa, check_confirmed, check_recovery, check_totp,
  accept_step, use_recovery, spend_code,
}
use wf_all.Access.Logic.{Ends, Ends->>=, Ends-when, Ends-look}

both : (a b : Bool) → (a && b) ≡ true → (a ≡ true) × (b ≡ true)
both a b h = ground arith

negated : (a : Bool) → not a ≡ true → a ≡ false
negated a h = ground arith

-- A session that lives at a time, of an account that may act.
pub record IsLive (s : Staff) (acct : Account) (now : ℕ) (db : Db) (sess : Session) : Type 0 where
  pub found : lock_session s.session_id db ≡ some sess
  pub owned : (sess.staff_id == s.staff_id) ≡ true
  pub kept : is_null sess.revoked_reason ≡ true
  pub unexpired : ltb now sess.expires_at ≡ true
  pub may_act : is_active acct.status ≡ true
  pub unlocked : before now acct.locked_until ≡ false

-- The verdict of lockLiveSession: it lets in only a session that lives, and writes nothing.
pub lock_live_session-Ends :
    (s : Staff) (acct : Account) (now : ℕ) (db : Db)
    → Ends (λ sess db'. IsLive s acct now db sess × (db' ≡ db)) (lock_live_session s acct now db)
unfolding lock_live_session
lock_live_session-Ends s acct now db =
    Ends-look _ (lock_session s.session_id db) session_invalid _ db λ sess found.
      Ends-when _ (sess.staff_id == s.staff_id) session_invalid _ db λ owned.
        Ends-when _ (not (is_replaced sess.revoked_reason)) was_replaced _ db λ _.
          Ends-when _ (is_null sess.revoked_reason && ltb now sess.expires_at) session_invalid _ db
            λ lives.
              Ends-when _ (is_active acct.status && not (before now acct.locked_until))
                session_invalid _ db
                λ acts.
                  let (kept, unexpired) = both _ _ lives in
                  let (may_act, free) = both _ _ acts in
                  (
                    record {
                      found = found;
                      owned = owned;
                      kept = kept;
                      unexpired = unexpired;
                      may_act = may_act;
                      unlocked = negated _ free;
                    },
                    refl,
                  )

-- What follows, for a session that lives.
module _ {B : Type 0} where
  pub Ends-live :
      (Q : B → Db → Type 0) (s : Staff) (acct : Account) (now : ℕ) (k : Session → Tx B) (db : Db)
      → ((sess : Session) → IsLive s acct now db sess → Ends Q (k sess db))
      → Ends Q ((lock_live_session s acct now >>= k) db)
  Ends-live Q s acct now k db h =
      Ends->>= (λ sess db'. IsLive s acct now db sess × (db' ≡ db)) Q (lock_live_session s acct now)
        k db (lock_live_session-Ends s acct now db)
        λ sess db1 live. subst (λ d. Ends Q (k sess d)) (sym live.1) (h sess live.0)

-- What a factor's check leaves: the accounts, the audit and the sessions.
pub record Keeps (db db' : Db) : Type 0 where
  pub same_accounts : db'.accounts ≡ db.accounts
  pub same_audit : db'.audit ≡ db.audit
  pub same_sessions : db'.sessions ≡ db.sessions

Keeps-refl : (db : Db) → Keeps db db
Keeps-refl db = record { same_accounts = refl; same_audit = refl; same_sessions = refl }

module _ (sv : Services) where
  accept_step-Ends :
      (i : ℕ) (step : Option ℤ) (db : Db) → Ends (λ _. Keeps db) (accept_step sv i step db)
  unfolding accept_step set_mfa_step
  accept_step-Ends i none db = Keeps-refl db
  accept_step-Ends i (some step) db = record {
    same_accounts = refl;
    same_audit = refl;
    same_sessions = refl;
  }

  spend_code-Ends :
      (i now : ℕ) (mac : Option Text) (db : Db) → Ends (λ _. Keeps db) (spend_code sv i now mac db)
  unfolding spend_code use_recovery_code
  spend_code-Ends i now none db = Keeps-refl db
  spend_code-Ends i now (some mac) db = record {
    same_accounts = refl;
    same_audit = refl;
    same_sessions = refl;
  }

  check_totp-Ends :
      (i : ℕ) (code : Text) (now : ℕ) (m : Mfa) (secret : Option (List ℕ)) (db : Db)
      → Ends (λ _. Keeps db) (check_totp sv i code now m secret db)
  unfolding check_totp
  check_totp-Ends i code now m none db = tt
  check_totp-Ends i code now m (some secret) db = accept_step-Ends i _ db

  spent-Ends :
      (i now : ℕ) (found : Res (Option Text)) (db : Db)
      → Ends (λ _. Keeps db) ((of_res found >>= spend_code sv i now) db)
  spent-Ends i now (ok found) db = spend_code-Ends i now found db
  spent-Ends i now (err e) db = tt

  check_recovery-Ends :
      (i now : ℕ) (norm : Option Text) (db : Db)
      → Ends (λ _. Keeps db) (check_recovery sv i now norm db)
  unfolding check_recovery use_recovery
  check_recovery-Ends i now none db = Keeps-refl db
  check_recovery-Ends i now (some norm) db = spent-Ends i now _ db

  check_confirmed-Ends :
      (i : ℕ) (code recovery : Text) (now : ℕ) (m : Mfa) (db : Db)
      → Ends (λ _. Keeps db) (check_confirmed sv i code recovery now m db)
  unfolding check_confirmed
  check_confirmed-Ends i code recovery now m db = elim (Bool-cases (is_empty code)) [
    | inl e ↦ rw e (elim (Bool-cases (is_empty recovery)) [
      | inl g ↦ rw g (Keeps-refl db)
      | inr g ↦ rw g (check_recovery-Ends i now _ db)
    ])
    | inr e ↦ rw e (check_totp-Ends i code now m _ db)
  ]

  check_mfa-Ends :
      (i : ℕ) (code recovery : Text) (now : ℕ) (m : Option Mfa) (db : Db)
      → Ends (λ _. Keeps db) (check_mfa sv i code recovery now m db)
  unfolding check_mfa
  check_mfa-Ends i code recovery now none db = Keeps-refl db
  check_mfa-Ends i code recovery now (some m) db = elim (Bool-cases (is_null m.confirmed_at)) [
    | inl e ↦ rw e (Keeps-refl db)
    | inr e ↦ rw e (check_confirmed-Ends i code recovery now m db)
  ]

  -- A check of the factor writes the factor and its codes only.
  pub check_factor-Keeps :
      (i : ℕ) (code recovery : Text) (now : ℕ) (db : Db)
      → Ends (λ _. Keeps db) (check_factor sv i code recovery now db)
  unfolding check_factor
  check_factor-Keeps i code recovery now db = check_mfa-Ends i code recovery now _ db
