-- ===== src/Access/Password.antt =====
-- access.go: ChangePassword, with the policy and the hasher of passwords as arguments.
use wf_all.Prelude.{
  Bool, false, not, ◌&&◌, Option, none, some, Text, codes, is_empty, if◌then◌else◌,
}
use wf_all.Auth.{Staff, Stage}
use wf_all.Access.{
  Account, Db, password_changed, change_password, new_password, step_password_change, same_stage,
  password_invalid, mfa_invalid, not_active, hash_failed, field_error,
}
use wf_all.Access.Tx.{Res, err, Tx, ◌>>=◌, ◌>>◌, pure, raise, gets, guard, modify}
use wf_all.Access.Store.{
  set_password, factor_succeeded, revoke_where, count_sessions, is_other, write_audit,
}
use wf_all.Access.Factor.{Services, Env, factor_method, entry_of, lock_live_session, check_factor}
use wf_all.Access.Guarded.{Checked, success, failure, with_factor}
use wf_all.Access.Login.{Verdict, matched, too_long, broken}
use wf_all.Access.Self.{on_error}

-- password.Check.
pub data Policy : Type 0 where
  fits short_password long_password common_password : Policy

-- The policy of a new password, its hash and the check of the current one.
pub record Passwords : Type 0 where
  pub policy : Text → Policy
  pub hash : Text → Option Text
  pub verify : Text → Text → Verdict

unfoldable pub of_verdict : Verdict → Tx Bool
of_verdict (matched b) = pure b
of_verdict too_long = pure false
of_verdict broken = raise hash_failed

-- verifyCurrent.
unfoldable pub verify_current : Passwords → Text → Option Text → Tx Bool
unfolding of_verdict
verify_current pws pw none = pure false
verify_current pws pw (some h) = of_verdict (pws.verify pw h)

module _ (sv : Services) (pws : Passwords) where
  unfoldable pub change_now : Env → Staff → Text → Text → Account → Tx (Checked (Unit {0}))
  unfolding set_password factor_succeeded revoke_where count_sessions is_other entry_of
  change_now env s code hash acct = do
    let others = is_other env.now s.staff_id s.session_id
    modify (set_password hash s.staff_id)
    modify (factor_succeeded none s.staff_id)
    n ← gets (count_sessions others)
    modify (revoke_where others env.now password_changed)
    modify (
        write_audit
          (entry_of acct change_password (new_password (factor_method code) n) env.client))
    pure (success tt)

  unfoldable pub change_check :
      Env → Staff → (current code recovery hash : Text) → Account → Tx (Checked (Unit {0}))
  unfolding lock_live_session verify_current check_factor change_now
  change_check env s current code recovery hash acct = do
    sess ← lock_live_session s acct env.now
    guard (same_stage sess.stage Stage.active) not_active
    known ← verify_current pws current acct.password_hash
    if not known then pure (failure password_invalid) else do
      right ← check_factor sv s.staff_id code recovery env.now
      if right then change_now env s code hash acct else pure (failure mfa_invalid)

  unfoldable pub change_hashed :
      Env → Staff → (current code recovery : Text) → Option Text → Db → Db × Res (Unit {0})
  unfolding with_factor change_check on_error
  change_hashed env s current code recovery none db = (db, err hash_failed)
  change_hashed env s current code recovery (some hash) db =
      let (db', r) =
        with_factor env s step_password_change (change_check env s current code recovery hash) db in
      (db', on_error r)

  abbrev pub field_rule : Policy → Option Text
  field_rule fits = none
  field_rule short_password = some (codes "too_short")
  field_rule long_password = some (codes "too_long")
  field_rule common_password = some (codes "common")

  unfoldable pub change_checked :
      Env → Staff → (current code recovery next : Text) → Option Text → Db → Db × Res (Unit {0})
  unfolding change_hashed
  change_checked env s current code recovery next none db =
      change_hashed env s current code recovery (pws.hash next) db
  change_checked env s current code recovery next (some rule) db =
      (db, err (field_error (codes "body.new_password") rule))

  -- ChangePassword.
  unfoldable pub change_my_password :
      Env → Staff → (current code recovery next : Text) → Db → Db × Res (Unit {0})
  unfolding change_checked
  change_my_password env s current code recovery next db =
      if is_empty code && is_empty recovery
      then (db, err (field_error (codes "body.code") (codes "required")))
      else if not (is_empty code) && not (is_empty recovery)
      then (db, err (field_error (codes "body.code") (codes "oneOf")))
      else change_checked env s current code recovery next (field_rule (pws.policy next)) db
