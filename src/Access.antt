-- ===== src/Access.antt =====
-- backend/internal/staff/internal/app: the accounts of the staff, their sessions and second factor as
-- the tables staff_accounts, staff_mfa, staff_recovery_codes and staff_sessions hold them, and what
-- the scenarios read and write of them. A time is a number of microseconds, the precision of the
-- database; a uuid, a token and the hash of a token are numbers, and uuid.Nil is 0. The role, which
-- the queries join from staff_roles, stands in the account, and so do the cities of a moderator.
pub mod Tx
pub mod Store
pub mod Factor
pub mod Guarded
pub mod Loading
pub mod Login
pub mod Self
pub mod Password
pub mod Logic
pub mod Rows
pub mod Tally
pub mod Live
pub mod Moves
pub mod Checks
pub mod Calls
pub mod Entry
pub mod Quiet
pub mod Signing
pub mod Lockout
pub mod Spent
pub mod Trials
pub mod Runs
mod Tests
use wf_all.Prelude.{
  ℕ, ◌+◌, ◌*◌, ◌/◌, ◌%◌, ◌==◌, Bool, true, false, not, ◌&&◌, ◌||◌, List, [], ◌∷◌, Option, none,
  some, Text, ltb, leb,
}
use wf_all.Prelude.Int.{ℤ}
use wf_all.Auth.{Role, Stage}

pub data Status : Type 0 where
  active invited disabled : Status

pub record Account : Type 0 where
  pub id : ℕ
  pub status : Status
  pub name : Text
  pub email : Text
  pub locale : Text
  pub role : Role
  pub cities : List ℕ
  pub password_hash : Option Text
  pub failures : ℕ
  pub locked_until : Option ℕ
  pub lock_notified_at : Option ℕ
  pub last_login_at : Option ℕ
  pub version : ℕ

pub record Mfa : Type 0 where
  pub owner : ℕ
  pub secret_enc : Text
  pub key_id : Text
  pub confirmed_at : Option ℕ
  pub last_used_step : ℤ

pub record RecoveryCode : Type 0 where
  pub code_owner : ℕ
  pub code_mac : Text
  pub code_key : Text
  pub used_at : Option ℕ

-- reasonLogout and the others.
pub data Reason : Type 0 where
  logged_out ran_out revoked locked password_changed replaced : Reason

-- netip.Addr without zones: none, IPv4 and IPv6.
pub data Ip : Type 0 where
  no_ip : Ip
  ip4 ip6 : ℕ → Ip

pub record Session : Type 0 where
  pub session_id : ℕ
  pub staff_id : ℕ
  pub token_hash : ℕ
  pub stage : Stage
  pub created_at : ℕ
  pub last_seen_at : ℕ
  pub mfa_at : Option ℕ
  pub expires_at : ℕ
  pub ip : Ip
  pub user_agent : Text
  pub revoked_at : Option ℕ
  pub revoked_reason : Option Reason

pub data Step : Type 0 where
  step_mfa step_unlock step_password_change : Step

pub data Method : Type 0 where
  by_totp by_recovery : Method

pub data Action : Type 0 where
  login login_failed factor_failed lock unlock session_revoked sessions_revoked change_password
        change_locale :
      Action

-- Who an audit entry is by.
pub data Actor : Type 0 where
  by_account : ℕ → Role → Text → Actor
  by_system by_anonymous : Actor

-- The before and after of an audit entry.
pub data Detail : Type 0 where
  failed_step : Step → (left : ℕ) → Detail
  locked_to : ℕ → Detail
  passed : Method → Detail
  failed_password : (email : Text) → Detail
  ended_session : ℕ → (current : Bool) → Detail
  ended_sessions : (count kept : ℕ) → Detail
  new_password : Method → (ended : ℕ) → Detail
  new_locale : (before after : Text) → Detail

pub record Meta : Type 0 where
  pub meta_ip : Ip
  pub meta_agent : Text

pub record AuditEntry : Type 0 where
  pub actor : Actor
  pub action : Action
  pub object : ℕ
  pub detail : Detail
  pub meta : Option Meta

pub record LockedEvent : Type 0 where
  pub locked_id : ℕ
  pub locked_version : ℕ
  pub locked_end : ℕ

-- The tables; `mails` are the jobs of staff.locked, by session and recipient.
pub record Db : Type 0 where
  pub accounts : List Account
  pub mfas : List Mfa
  pub recovery_codes : List RecoveryCode
  pub sessions : List Session
  pub audit : List AuditEntry
  pub events : List LockedEvent
  pub mails : List (ℕ × ℕ)

abbrev pub second : ℕ
second = 1000000

abbrev pub mfa_pending_ttl : ℕ
mfa_pending_ttl = 300000000

abbrev pub session_ttl : ℕ
session_ttl = 28800000000

abbrev pub idle_timeout : ℕ
idle_timeout = 1200000000

abbrev pub touch_every : ℕ
touch_every = 60000000

abbrev pub replaced_grace : ℕ
replaced_grace = 60000000

abbrev pub max_factor_failures : ℕ
max_factor_failures = 5

abbrev pub lock_duration : ℕ
lock_duration = 3600000000

abbrev pub lock_notify_every : ℕ
lock_notify_every = 3600000000

abbrev pub is_active : Status → Bool
is_active active = true
is_active _ = false

abbrev pub is_disabled : Status → Bool
is_disabled disabled = true
is_disabled _ = false

-- now.Before(*t) of a time that may be NULL.
abbrev pub before : ℕ → Option ℕ → Bool
before now none = false
before now (some t) = ltb now t

abbrev pub is_null {ℓ} : {A : Type ℓ} → Option A → Bool
is_null none = true
is_null (some _) = false

abbrev pub is_replaced : Option Reason → Bool
is_replaced (some replaced) = true
is_replaced _ = false

abbrev pub same_stage : Stage → Stage → Bool
same_stage Stage.mfa_pending Stage.mfa_pending = true
same_stage Stage.setup Stage.setup = true
same_stage Stage.active Stage.active = true
same_stage _ _ = false

pub data Err : Type 0 where
  session_invalid session_replaced was_replaced wrong_stage mfa_invalid password_invalid
        session_not_found invalid_credentials not_active storage sealed mac_failed hash_failed
        no_randomness login_stale :
      Err
  mfa_error : (attempts_left : ℕ) → Err → Err
  rate_limited : ℤ → Err
  field_error : (field rule : Text) → Err
