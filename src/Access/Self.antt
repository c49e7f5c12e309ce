-- ===== src/Access/Self.antt =====
-- access.go: a member of the staff about himself: who he is, his sessions, his password and his
-- language.
use wf_all.Prelude.{
  ℕ, ◌==◌, Bool, not, ◌&&◌, ◌||◌, List, [], Option, none, some, String, Text, codes, text_eq,
  if◌then◌else◌,
}
use wf_all.Auth.{Staff, Role, Grant, Stage, mfa_pending, is_moderator}
use wf_all.Access.{
  Account, Session, Db, revoked, session_revoked, sessions_revoked, change_locale, ended_session,
  ended_sessions, new_locale, same_stage, Err, session_invalid, session_replaced, was_replaced,
  session_not_found, storage, field_error,
}
use wf_all.Access.Tx.{Res, ok, err, Tx, ◌>>=◌, ◌>>◌, pure, gets, or_raise, guard, modify, in_tx}
use wf_all.Access.Store.{
  lock_account, lock_session, set_locale, revoke_where, count_sessions, is_own, is_other,
  write_audit,
}
use wf_all.Access.Factor.{Env, entry_of, lock_live_session}

-- The view of GET /v1/staff/me.
pub record MeAccount : Type 0 where
  pub me_id : ℕ
  pub me_email : Text
  pub me_name : Text
  pub me_locale : Text
  pub me_role : Role

pub record MeView : Type 0 where
  pub account : Option MeAccount
  pub city_ids : List ℕ
  pub stage : Stage
  pub reauth_required : Bool
  pub permissions : List (String × Grant)
  pub session : ℕ
  pub session_end : ℕ

me_view : Staff → Account → Session → MeView
me_view s acct sess =
    let silent = same_stage s.stage mfa_pending in
    record {
      account =
          if silent
          then none
          else some (record {
            me_id = s.staff_id;
            me_email = acct.email;
            me_name = acct.name;
            me_locale = acct.locale;
            me_role = s.role;
          });
      city_ids = if not silent && is_moderator s.role then s.city_ids else [];
      stage = s.stage;
      reauth_required = s.reauth;
      permissions = if same_stage s.stage Stage.active then s.grants else [];
      session = s.session_id;
      session_end = sess.expires_at;
    }

joined : Staff → Option Session → Option Account → Res MeView
unfolding me_view
joined s (some sess) (some acct) =
    if sess.staff_id == s.staff_id then ok (me_view s acct sess) else err session_invalid
joined s _ _ = err session_invalid

-- Me.
unfoldable pub me : Bool → Staff → Db → Res MeView
unfolding joined lock_session lock_account
me fails s db =
    if fails
    then err storage
    else joined s (lock_session s.session_id db) (lock_account s.staff_id db)

-- replacedAsSession.
unfoldable pub replaced_as_session : Err → Err
replaced_as_session was_replaced = session_replaced
replaced_as_session e = e

module _ {A : Type 0} where
  unfoldable pub on_error : Res A → Res A
  unfolding replaced_as_session
  on_error (ok a) = ok a
  on_error (err e) = err (replaced_as_session e)

  unfoldable pub lift_error : Res (A × Db) → Res (A × Db)
  unfolding replaced_as_session
  lift_error (ok r) = ok r
  lift_error (err e) = err (replaced_as_session e)

-- lockSelf.
unfoldable pub lock_self : Env → Staff → Tx Account
unfolding lock_account lock_live_session lift_error
lock_self env s = do
  acct ← (λ db. or_raise (lock_account s.staff_id db) session_invalid db)
  _ ← (λ db. lift_error (lock_live_session s acct env.now db))
  pure acct

unfoldable pub revoke_my_session_tx : Env → Staff → ℕ → Tx (Unit {0})
unfolding lock_self revoke_where count_sessions is_own entry_of
revoke_my_session_tx env s session = do
  acct ← lock_self env s
  let mine = is_own env.now s.staff_id session
  n ← gets (count_sessions mine)
  modify (revoke_where mine env.now revoked)
  guard (not (n == 0)) session_not_found
  modify (
      write_audit (
        entry_of acct session_revoked (ended_session session (session == s.session_id)) env.client))

-- RevokeMySession.
unfoldable pub revoke_my_session : Env → Staff → ℕ → Db → Db × Res (Unit {0})
unfolding in_tx revoke_my_session_tx
revoke_my_session env s session db = in_tx env.faulty (revoke_my_session_tx env s session) db

unfoldable pub audit_ended : Env → Staff → Account → ℕ → Tx (Unit {0})
unfolding entry_of
audit_ended env s acct n =
    if n == 0
    then pure tt
    else modify
        (write_audit (entry_of acct sessions_revoked (ended_sessions n s.session_id) env.client))

unfoldable pub revoke_other_sessions_tx : Env → Staff → Tx ℕ
unfolding lock_self revoke_where count_sessions is_other audit_ended
revoke_other_sessions_tx env s = do
  acct ← lock_self env s
  let others = is_other env.now s.staff_id s.session_id
  n ← gets (count_sessions others)
  modify (revoke_where others env.now revoked)
  audit_ended env s acct n
  pure n

-- RevokeOtherSessions: how many ended.
unfoldable pub revoke_other_sessions : Env → Staff → Db → Db × Res ℕ
unfolding in_tx revoke_other_sessions_tx
revoke_other_sessions env s db = in_tx env.faulty (revoke_other_sessions_tx env s) db

unfoldable pub set_locale_tx : Env → Staff → Text → Tx (Unit {0})
unfolding lock_self set_locale entry_of
set_locale_tx env s l = do
  acct ← lock_self env s
  if text_eq acct.locale l
      then pure tt
      else (modify (set_locale l s.staff_id)
          >> modify
              (write_audit (entry_of acct change_locale (new_locale acct.locale l) env.client)))

-- SetLocale; i18n.Supported is ru and en.
unfoldable pub change_my_locale : Env → Staff → Text → Db → Db × Res (Unit {0})
unfolding in_tx set_locale_tx
change_my_locale env s l db =
    if not (text_eq l (codes "ru") || text_eq l (codes "en"))
    then (db, err (field_error (codes "body.locale") (codes "enum")))
    else in_tx env.faulty (set_locale_tx env s l) db
