-- ===== src/Access/Store.antt =====
-- staff/internal/store/staffdb: the statements that the scenarios run.
use wf_all.Prelude.{
  ℕ, ◌+◌, ◌==◌, Bool, true, false, not, ◌&&◌, List, [], ◌∷◌, ◌++◌, Option, none, some, Text,
  text_eq, ltb, leb, if◌then◌else◌, keep, map, length,
}
use wf_all.Prelude.Int.{ℤ}
use wf_all.Auth.{Role, owner, admin}
use wf_all.Access.{
  Account, Mfa, RecoveryCode, Session, Reason, Db, AuditEntry, LockedEvent, Ip, is_null, is_active,
}

-- `SELECT … WHERE key = i` of a table, and `UPDATE … WHERE test`.
module _ {A : Type 0} where
  unfoldable pub find : (A → ℕ) → ℕ → List A → Option A
  find key i [] = none
  find key i (x ∷ xs) = if key x == i then some x else find key i xs

  unfoldable pub update : (A → Bool) → (A → A) → List A → List A
  update test change [] = []
  update test change (x ∷ xs) = (if test x then change x else x) ∷ update test change xs

-- LockAccount, LockMFA, LockSession and GetMe's session: the row of a key.
unfoldable pub lock_account : ℕ → Db → Option Account
unfolding find
lock_account i db = find (λ a. a.id) i db.accounts

unfoldable pub lock_mfa : ℕ → Db → Option Mfa
unfolding find
lock_mfa i db = find (λ m. m.owner) i db.mfas

unfoldable pub lock_session : ℕ → Db → Option Session
unfolding find
lock_session i db = find (λ s. s.session_id) i db.sessions

unfoldable pub load_session : ℕ → Db → Option Session
unfolding find
load_session hash db = find (λ s. s.token_hash) hash db.sessions

unfoldable pub set_account : ℕ → (Account → Account) → Db → Db
unfolding update
set_account i change db = record db { accounts = update (λ a. a.id == i) change db.accounts }

unfoldable pub add_factor_failure : ℕ → Db → Db
unfolding set_account
add_factor_failure i = set_account i (λ a. record a { failures = a.failures + 1 })

-- coalesce(new, old).
abbrev pub coalesce {ℓ} : {A : Type ℓ} → Option A → Option A → Option A
coalesce none old = old
coalesce (some a) old = some a

unfoldable pub factor_succeeded : Option ℕ → ℕ → Db → Db
unfolding set_account
factor_succeeded login_at i =
    set_account i
      (λ a. record a { failures = 0; last_login_at = coalesce login_at a.last_login_at })

unfoldable pub lock_out : ℕ → Option ℕ → ℕ → Db → Db
unfolding set_account
lock_out until notified i = set_account i (λ a. record a {
  locked_until = some until;
  lock_notified_at = coalesce notified a.lock_notified_at;
  version = a.version + 1;
})

unfoldable pub set_password : Text → ℕ → Db → Db
unfolding set_account
set_password hash i = set_account i (λ a. record a { password_hash = some hash })

unfoldable pub set_locale : Text → ℕ → Db → Db
unfolding set_account
set_locale l i = set_account i (λ a. record a { locale = l })

unfoldable pub set_mfa_step : ℤ → ℕ → Db → Db
unfolding update
set_mfa_step step i db = record db {
  mfas = update (λ m. m.owner == i) (λ m. record m { last_used_step = step }) db.mfas;
}

unfoldable pub unused_recovery_codes : ℕ → Db → List RecoveryCode
unused_recovery_codes i db = keep (λ c. c.code_owner == i && is_null c.used_at) db.recovery_codes

-- UseRecoveryCode: the code is spent; (staff_id, code_mac) is the key of the table.
unfoldable pub use_recovery_code : ℕ → ℕ → Text → Db → Db
unfolding update
use_recovery_code now i mac db = record db {
  recovery_codes =
      update (λ c. c.code_owner == i && text_eq c.code_mac mac && is_null c.used_at)
        (λ c. record c { used_at = some now }) db.recovery_codes;
}

-- `SET revoked_at = now, revoked_reason = reason` where a test holds of a row that is not revoked.
unfoldable pub end_session : ℕ → Reason → Session → Session
end_session now reason s = record s { revoked_at = some now; revoked_reason = some reason }

unfoldable pub revoke_where : (Session → Bool) → ℕ → Reason → Db → Db
unfolding update end_session
revoke_where test now reason db = record db {
  sessions = update (λ s. test s && is_null s.revoked_at) (end_session now reason) db.sessions;
}

unfoldable pub count_sessions : (Session → Bool) → Db → ℕ
count_sessions test db = length (keep (λ s. test s && is_null s.revoked_at) db.sessions)

-- The tests of RevokeSession, RevokeStaffSessions, RevokeOwnSession and RevokeOtherSessions.
unfoldable pub is_session : ℕ → Session → Bool
is_session i s = s.session_id == i

unfoldable pub is_of : ℕ → Session → Bool
is_of staff s = s.staff_id == staff

unfoldable pub is_own : ℕ → ℕ → ℕ → Session → Bool
is_own now staff i s = s.session_id == i && s.staff_id == staff && ltb now s.expires_at

unfoldable pub is_other : ℕ → ℕ → ℕ → Session → Bool
is_other now staff kept s =
    s.staff_id == staff && not (s.session_id == kept) && ltb now s.expires_at

unfoldable pub insert_session : Session → Db → Db
insert_session s db = record db { sessions = s ∷ db.sessions }

unfoldable pub touch_session : ℕ → Ip → ℕ → ℕ → Db → Db
unfolding update
touch_session now seen i seen_before db = record db {
  sessions =
      update (λ s. s.session_id == i && is_null s.revoked_at && leb s.last_seen_at seen_before)
        (λ s. record s { last_seen_at = now; ip = seen }) db.sessions;
}

unfoldable pub is_recipient : Account → Bool
is_recipient a = is_active a.status && is_chief a.role
  where
    is_chief : Role → Bool
    is_chief owner = true
    is_chief admin = true
    is_chief _ = false

-- ListLockRecipients; the order by id is not modelled.
unfoldable pub list_lock_recipients : Db → List ℕ
unfolding is_recipient
list_lock_recipients db = map (λ a. a.id) (keep is_recipient db.accounts)

-- audit.Write, events.Publish and InsertTx of a mail, in the transaction.
abbrev pub write_audit : AuditEntry → Db → Db
write_audit e db = record db { audit = db.audit ++ (e ∷ []) }

abbrev pub publish : LockedEvent → Db → Db
publish e db = record db { events = db.events ++ (e ∷ []) }

abbrev pub send_mails : ℕ → List ℕ → Db → Db
send_mails session recipients db = record db {
  mails = db.mails ++ map (λ r. (session, r)) recipients;
}
