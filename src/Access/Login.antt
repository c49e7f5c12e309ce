-- ===== src/Access/Login.antt =====
-- login.go: the step of the password, and Logout.
use wf_all.Prelude.{
  ℕ, ◌+◌, Bool, true, false, not, ◌&&◌, List, [], ◌∷◌, Option, none, some, Text, codes, text_eq,
  if◌then◌else◌,
}
use wf_all.Prelude.Int.{ℤ, pos}
use wf_all.Auth.{Staff, mfa_pending}
use wf_all.Ratelimit.{Policy}
use wf_all.Ratelimit.Store.{Table, Outcome, failed, done, Result, allow}
use wf_all.Ratelimit.Store as Limiter
use wf_all.Ratelimit.Keys.{email_key}
use wf_all.Access.{
  Account, Mfa, Db, logged_out, login_failed, by_anonymous, failed_password, mfa_pending_ttl,
  is_active, before, is_null, invalid_credentials, storage, mac_failed, hash_failed, login_stale,
  rate_limited,
}
use wf_all.Access.Tx.{Res, ok, err, Tx, ◌>>=◌, ◌>>◌, or_raise, guard, modify, in_tx}
use wf_all.Access.Store.{lock_account, lock_mfa, revoke_where, is_session, write_audit}
use wf_all.Access.Factor.{Env}
use wf_all.Access.Guarded.{NewSession, replace_session}

-- password.Hasher: a verdict, ErrTooLong, or another error.
pub data Verdict : Type 0 where
  matched : Bool → Verdict
  too_long broken : Verdict

-- The address in its stored form, the key of its limit and the hasher.
pub record Gate : Type 0 where
  pub normalize : Text → Option Text
  pub email_mac : Text → Option Text
  pub verify : Text → Text → Verdict
  pub verify_dummy : Text → Verdict
  pub micros : ℤ → ℕ

-- What one call meets: the limiter's clock and database; whether GetLoginAccount fails, and when it
-- is read; the transaction of the sign-in, and whether that of the audit fails.
pub record Visit : Type 0 where
  pub limiter : Limiter.Env
  pub read_fails : Bool
  pub read_at : ℕ
  pub env : Env
  pub audit_fails : Bool
  pub old : Option Staff

abbrev pub login_email_policy : Policy
login_email_policy = record { limit = pos 10; period = pos 900000000000; allowance = pos 10 }

abbrev pub class_staff_login : Text
class_staff_login = codes "staff_login"

-- What follows the step: the limits, the tables and the token with the stage mfa_pending.
abbrev pub Answer : Type 0
Answer = Table × Db × Res ℕ

-- stillUsable.
unfoldable pub still_usable : Account → Text → ℕ → Bool
still_usable a verified now =
    is_active a.status && not (before now a.locked_until) && same_hash a.password_hash verified
  where
    same_hash : Option Text → Text → Bool
    same_hash none v = false
    same_hash (some h) v = text_eq h v

-- passwordFailed.
unfoldable pub password_failed : Visit → ℕ → Text → Db → Db × Res ℕ
unfolding in_tx
password_failed v object email db =
    let (db', r) =
      in_tx v.audit_fails
        (modify (
          write_audit (record {
            actor = by_anonymous;
            action = login_failed;
            object = object;
            detail = failed_password email;
            meta = some v.env.client;
          })))
        db in
    (db', denied r)
  where
    denied : Res (Unit {0}) → Res ℕ
    denied (ok _) = err invalid_credentials
    denied (err e) = err e

abbrev pub old_session : Option Staff → ℕ
old_session none = 0
old_session (some s) = s.session_id

abbrev pub pending_session : Visit → Account → NewSession
pending_session v acct = record {
  new_staff = acct.id;
  new_stage = mfa_pending;
  created = v.env.now;
  expires = v.env.now + mfa_pending_ttl;
  new_mfa_at = none;
}

-- The transaction of the sign-in.
unfoldable pub sign_in : Visit → Account → Text → Tx ℕ
unfolding lock_account still_usable replace_session
sign_in v acct hash = do
  a ← (λ db. or_raise (lock_account acct.id db) login_stale db)
  guard (still_usable a hash v.env.now) login_stale
  replace_session v.env (old_session v.old) (pending_session v acct)

unfoldable pub signed_in : Visit → Account → Text → Db → Db × Res ℕ → Db × Res ℕ
unfolding password_failed
signed_in v acct email db (db', ok raw) = (db', ok raw)
signed_in v acct email db (db', err login_stale) = password_failed v acct.id email db'
signed_in v acct email db (db', err e) = (db', err e)

unfoldable pub verified : Visit → Account → Text → Text → Verdict → Db → Db × Res ℕ
unfolding signed_in sign_in in_tx password_failed
verified v acct email hash (matched true) db =
    signed_in v acct email db (in_tx v.env.faulty (sign_in v acct hash) db)
verified v acct email hash (matched false) db = password_failed v acct.id email db
verified v acct email hash too_long db = password_failed v acct.id email db
verified v acct email hash broken db = (db, err hash_failed)

unfoldable pub dummy_verified : Visit → ℕ → Text → Verdict → Db → Db × Res ℕ
unfolding password_failed
dummy_verified v object email broken db = (db, err hash_failed)
dummy_verified v object email _ db = password_failed v object email db

abbrev is_confirmed : Option Mfa → Bool
is_confirmed none = false
is_confirmed (some m) = not (is_null m.confirmed_at)

module _ (g : Gate) where
  -- The account that GetLoginAccount found, with the hash where it is usable.
  unfoldable pub with_hash : Visit → Text → Text → Account → Option Text → Bool → Db → Db × Res ℕ
  unfolding verified dummy_verified
  with_hash v email pw acct (some hash) true db = verified v acct email hash (g.verify pw hash) db
  with_hash v email pw acct _ _ db = dummy_verified v acct.id email (g.verify_dummy pw) db

  unfoldable pub with_account : Visit → Text → Text → Option Account → Db → Db × Res ℕ
  unfolding with_hash dummy_verified lock_mfa
  with_account v email pw none db = dummy_verified v 0 email (g.verify_dummy pw) db
  with_account v email pw (some acct) db =
      with_hash v email pw acct acct.password_hash
        (is_active acct.status
          && is_confirmed (lock_mfa acct.id db)
          && not (before v.read_at acct.locked_until))
        db

  -- GetLoginAccount, for an address that is one.
  unfoldable pub with_email : Visit → Text → Text → Option Text → Db → Db × Res ℕ
  unfolding with_account
  with_email v email pw none db = with_account v email pw none db
  with_email v email pw (some norm) db =
      if v.read_fails
      then (db, err storage)
      else with_account v email pw (find_email norm db.accounts) db
    where
      find_email : Text → List Account → Option Account
      find_email norm [] = none
      find_email norm (a ∷ rest) = if text_eq a.email norm then some a else find_email norm rest

  abbrev key_material : Text → Option Text → Text
  key_material email none = email
  key_material email (some norm) = norm

  unfoldable pub limited : Visit → Text → Text → Option Text → Outcome Result → Db → Db × Res ℕ
  unfolding with_email
  limited v email pw norm (failed e) db = with_email v (key_material email norm) pw norm db
  limited v email pw norm (done r) db =
      if not r.allowed
      then (db, err (rate_limited r.retry_after))
      else with_email v (key_material email norm) pw norm db

  unfoldable pub keyed : Visit → Text → Text → Option Text → Option Text → Table → Db → Answer
  unfolding limited allow email_key
  keyed v email pw norm none tab db = (tab, db, err mac_failed)
  keyed v email pw norm (some mac) tab db =
      let (tab', o) =
        allow g.micros v.limiter tab (email_key class_staff_login mac) login_email_policy in
      let (db', r) = limited v email pw norm o db in (tab', db', r)

  -- Login.
  unfoldable pub log_in : Visit → Text → Text → Table → Db → Answer
  unfolding keyed
  log_in v email pw tab db =
      let norm = g.normalize email in
      keyed v email pw norm (g.email_mac (key_material email norm)) tab db

-- Logout.
unfoldable pub log_out : Env → Staff → Db → Db × Res (Unit {0})
unfolding in_tx revoke_where is_session
log_out env s db =
    in_tx env.faulty (modify (revoke_where (is_session s.session_id) env.now logged_out)) db
