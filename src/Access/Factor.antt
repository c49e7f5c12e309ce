-- ===== src/Access/Factor.antt =====
-- factor.go: the second factor under the lock of the account, the count of failures and the lockout.
use wf_all.Prelude.{
  ℕ, ◌+◌, ◌-◌, ◌/◌, ◌==◌, Bool, true, false, not, ◌&&◌, List, [], ◌∷◌, Option, none, some, Text,
  is_empty, trim, text_eq, ltb, leb, if◌then◌else◌, keep, length,
}
use wf_all.Prelude.Int.{ℤ}
use wf_all.Auth.{Staff}
use wf_all.Staff.Codes.{normalize_recovery_code}
use wf_all.Staff.Totp.{verify_totp}
use wf_all.Access.{
  Account, Mfa, RecoveryCode, Session, Step, step_mfa, Method, by_totp, by_recovery, Action,
  login_failed, factor_failed, lock, by_account, by_system, failed_step, locked_to, Meta,
  AuditEntry, Detail, second, max_factor_failures, second, lock_duration, lock_notify_every,
  is_active, before, is_null, is_replaced, locked, session_invalid, was_replaced, storage, sealed,
  mac_failed,
}
use wf_all.Access.Tx.{
  Res, ok, err, Tx, ◌>>=◌, ◌>>◌, pure, raise, gets, or_raise, of_res, guard, modify,
}
use wf_all.Access.Store.{
  lock_account, lock_mfa, lock_session, add_factor_failure, lock_out, set_mfa_step,
  unused_recovery_codes, use_recovery_code, revoke_where, is_of, list_lock_recipients, write_audit,
  publish, send_mails,
}

-- HMAC of a code by a key of the ring.
pub data Mac : Type 0 where
  unknown_key broken_ring : Mac
  macd : Text → Mac

-- The ring of keys, the HMAC of TOTP and what unicode gives.
pub record Services : Type 0 where
  pub open_totp : ℕ → Text → Text → Option (List ℕ)
  pub recovery_mac : Text → ℕ → Text → Mac
  pub hmac : List ℕ → List ℕ → List ℕ
  pub nfkc : Text → Text
  pub lower : Text → Text
  pub is_cf : ℕ → Bool

-- What one call meets: the clock once it holds the account, whether the database fails it, a fresh id
-- of a session and a fresh token with its hash, and the client.
pub record Env : Type 0 where
  pub now : ℕ
  pub faulty : Bool
  pub new_id : ℕ
  pub fresh : Option (ℕ × ℕ)
  pub client : Meta

unfoldable pub attempts_left : ℕ → ℕ
attempts_left failures = max_factor_failures - failures

abbrev pub factor_method : Text → Method
factor_method code = if is_empty code then by_recovery else by_totp

-- audit.Entry by the account about itself.
unfoldable pub entry_of : Account → Action → Detail → Meta → AuditEntry
unfolding trim
entry_of acct action detail m = record {
  actor = by_account acct.id acct.role (trim acct.name);
  action = action;
  object = acct.id;
  detail = detail;
  meta = some m;
}

-- lockLiveSession.
unfoldable pub lock_live_session : Staff → Account → ℕ → Tx Session
unfolding lock_session
lock_live_session s acct now = do
  sess ← (λ db. or_raise (lock_session s.session_id db) session_invalid db)
  guard (sess.staff_id == s.staff_id) session_invalid
  guard (not (is_replaced sess.revoked_reason)) was_replaced
  guard (is_null sess.revoked_reason && ltb now sess.expires_at) session_invalid
  guard (is_active acct.status && not (before now acct.locked_until)) session_invalid
  pure sess

-- A letter is due, at most once an hour.
unfoldable pub notifies : Option ℕ → ℕ → Bool
notifies none now = true
notifies (some t) now = leb (t + lock_notify_every) now

-- lockOut.
unfoldable pub lock_out_account : Account → ℕ → ℕ → Tx (Unit {0})
unfolding lock_out lock_account revoke_where is_of list_lock_recipients notifies
lock_out_account acct session now = do
  let until = now + lock_duration
  let notify = notifies acct.lock_notified_at now
  modify (lock_out until (if notify then some now else none) acct.id)
  a ← (λ db. or_raise (lock_account acct.id db) storage db)
  modify (revoke_where (is_of acct.id) now locked)
  modify (publish (record { locked_id = acct.id; locked_version = a.version; locked_end = until }))
  modify (
      write_audit (record {
        actor = by_system;
        action = lock;
        object = acct.id;
        detail = locked_to until;
        meta = none;
      }))
  modify (λ db. send_mails session (if notify then list_lock_recipients db else []) db)

abbrev pub failure_action : Step → Action
failure_action step_mfa = login_failed
failure_action _ = factor_failed

-- The lockout of recordFailure, once the count has come to the limit.
unfoldable pub lock_if_due : Account → ℕ → ℕ → ℕ → Tx (Unit {0})
unfolding lock_out_account
lock_if_due acct failures session now =
    if leb max_factor_failures failures && not (before now acct.locked_until)
    then lock_out_account acct session now
    else pure tt

-- recordFailure: what is left of the attempts.
unfoldable pub record_failure : Account → Staff → Step → Meta → ℕ → Tx ℕ
unfolding lock_if_due add_factor_failure lock_account attempts_left entry_of
record_failure acct s step m now = do
  modify (add_factor_failure acct.id)
  a ← (λ db. or_raise (lock_account acct.id db) storage db)
  let left = attempts_left a.failures
  modify (write_audit (entry_of acct (failure_action step) (failed_step step left) m))
  lock_if_due acct a.failures s.session_id now
  pure left

module _ (sv : Services) where
  -- The loop of useRecoveryCode: the first row whose MAC is that of the code.
  unfoldable pub match_code : ℕ → Text → List RecoveryCode → Option Text → Res (Option Text)
  match_code staff norm [] found = ok found
  match_code staff norm (r ∷ rs) found = elim (sv.recovery_mac r.code_key staff norm) [
    | unknown_key ↦ match_code staff norm rs found
    | broken_ring ↦ err mac_failed
    | macd m ↦
        match_code staff norm rs
          (if text_eq m r.code_mac && is_null found then some r.code_mac else found)
  ]

  unfoldable pub spend_code : ℕ → ℕ → Option Text → Tx Bool
  unfolding use_recovery_code unused_recovery_codes
  spend_code staff now none = pure false
  spend_code staff now (some mac) = do
    let test = λ (c : RecoveryCode). text_eq c.code_mac mac
    n ← gets (λ db. length (keep test (unused_recovery_codes staff db)))
    modify (use_recovery_code now staff mac)
    pure (n == 1)

  unfoldable pub use_recovery : ℕ → Text → ℕ → Tx Bool
  unfolding match_code spend_code unused_recovery_codes
  use_recovery staff norm now = do
    rows ← gets (unused_recovery_codes staff)
    found ← of_res (match_code staff norm rows none)
    spend_code staff now found

  unfoldable pub accept_step : ℕ → Option ℤ → Tx Bool
  unfolding set_mfa_step
  accept_step staff none = pure false
  accept_step staff (some step) = modify (set_mfa_step step staff) >> pure true

  unfoldable pub check_totp : ℕ → Text → ℕ → Mfa → Option (List ℕ) → Tx Bool
  unfolding verify_totp accept_step
  check_totp staff code now m none = raise sealed
  check_totp staff code now m (some secret) =
      accept_step staff
        (verify_totp sv.hmac sv.nfkc sv.is_cf secret code (now / second) m.last_used_step)

  unfoldable pub check_recovery : ℕ → ℕ → Option Text → Tx Bool
  unfolding use_recovery
  check_recovery staff now none = pure false
  check_recovery staff now (some norm) = use_recovery staff norm now

  -- The `switch` of checkFactor, for a factor that is confirmed.
  unfoldable pub check_confirmed : ℕ → Text → Text → ℕ → Mfa → Tx Bool
  unfolding check_totp check_recovery normalize_recovery_code
  check_confirmed staff code recovery now m =
      if not (is_empty code)
      then check_totp staff code now m (sv.open_totp staff m.secret_enc m.key_id)
      else if not (is_empty recovery)
      then check_recovery staff now (normalize_recovery_code sv.nfkc sv.lower sv.is_cf recovery)
      else pure false

  unfoldable pub check_mfa : ℕ → Text → Text → ℕ → Option Mfa → Tx Bool
  unfolding check_confirmed
  check_mfa staff code recovery now none = pure false
  check_mfa staff code recovery now (some m) =
      if is_null m.confirmed_at then pure false else check_confirmed staff code recovery now m

  -- checkFactor.
  unfoldable pub check_factor : ℕ → Text → Text → ℕ → Tx Bool
  unfolding check_mfa lock_mfa
  check_factor staff code recovery now db = check_mfa staff code recovery now (lock_mfa staff db) db
