-- ===== src/Access/Tests.antt =====
-- An account with a sign-in that waits for the second factor, an hour of wrong codes, and the theorems
-- at them.
use wf_all.Prelude.{
  ℕ, ◌+◌, ◌-◌, ◌*◌, ◌≤◌, ◌≡◌, refl, true, false, List, [], ◌∷◌, none, some, codes, arith,
}
use wf_all.Prelude.Int.{pos}
use wf_all.Auth.{Staff, owner, mfa_pending}
use wf_all.Access.{Account, Status, Session, ip4, Db, step_mfa, lock_duration}
use wf_all.Access.Tx.{in_tx, settled}
use wf_all.Access.Store.{
  find, update, lock_account, lock_session, lock_mfa, add_factor_failure, set_account, lock_out,
  revoke_where,
}
use wf_all.Access.Guarded.{
  with_factor, factor_tx, pass_check, after_check, conclude, hide_replaced, pass_factor,
}
use wf_all.Staff.Totp.{verify_totp}
use wf_all.Staff.Codes.{normalize_code}
use wf_all.Access.Factor.{
  Services, Env, macd, lock_live_session, check_factor, check_mfa, check_confirmed, check_totp,
  accept_step, record_failure, lock_if_due, lock_out_account, entry_of, attempts_left,
}
use wf_all.Access.Loading.{Arrival, load_staff, staff_of}
use wf_all.Access.Login.{Gate, matched}
use wf_all.Access.Password.{Passwords, fits}
use wf_all.Access.Tally.{tally, Move}
use wf_all.Access.Entry.{Entered, load_staff-Entered}
use wf_all.Access.Logic.{Ends}
use wf_all.Access.Lockout.{AreEnded, record_failure-locks}
use wf_all.Access.Spent.{SpendsIfRight, check_factor-Spends}
use wf_all.Access.Runs.{Call, factor, serve_call, serve_all, serve_call-Moves, run-fails}

abbrev services : Services
services = record {
  open_totp = λ i enc key. some (1 ∷ []);
  recovery_mac = λ key i norm. macd norm;
  hmac = λ key msg. [];
  nfkc = λ t. t;
  lower = λ t. t;
  is_cf = λ c. false;
}

abbrev passwords : Passwords
passwords = record { policy = λ t. fits; hash = λ t. some t; verify = λ pw h. matched true }

abbrev gate : Gate
gate = record {
  normalize = λ t. some t;
  email_mac = λ t. some t;
  verify = λ pw h. matched true;
  verify_dummy = λ pw. matched false;
  micros = λ z. 0;
}

abbrev anna : Account
anna = record {
  id = 1;
  status = Status.active;
  name = codes "Anna";
  email = codes "a@b.ru";
  locale = codes "ru";
  role = owner;
  cities = [];
  password_hash = some (codes "h");
  failures = 0;
  locked_until = none;
  lock_notified_at = none;
  last_login_at = none;
  version = 1;
}

abbrev pending : Session
pending = record {
  session_id = 7;
  staff_id = 1;
  token_hash = 70;
  stage = mfa_pending;
  created_at = 0;
  last_seen_at = 0;
  mfa_at = none;
  expires_at = 300000000;
  ip = ip4 16909060;
  user_agent = [];
  revoked_at = none;
  revoked_reason = none;
}

abbrev db : Db
db = record {
  accounts = anna ∷ [];
  mfas =
      record {
        owner = 1;
        secret_enc = [];
        key_id = [];
        confirmed_at = some 0;
        last_used_step = pos 0;
      }
      ∷ [];
  recovery_codes = [];
  sessions = pending ∷ [];
  audit = [];
  events = [];
  mails = [];
}

abbrev req : Arrival
req = record {
  cookie = some 70;
  peer = ip4 16909061;
  background = false;
  clock = 5;
  broken = λ n. false;
}

abbrev staff : Staff
staff = staff_of anna pending false

abbrev env : ℕ → Env
env t = record {
  now = t;
  faulty = false;
  new_id = 8;
  fresh = some (90, 91);
  client = record { meta_ip = ip4 16909060; meta_agent = [] };
}

abbrev wrong : ℕ → Call
wrong t = factor (env t) staff (codes "12345") [] step_mfa

abbrev wrongs : List Call
wrongs = wrong 10 ∷ wrong 20 ∷ wrong 30 ∷ wrong 40 ∷ wrong 50 ∷ wrong 60 ∷ []

locked_out : (tally 1 (serve_all services passwords gate wrongs db)).fails ≡ 5
unfolding tally pass_factor with_factor in_tx settled factor_tx pass_check lock_live_session
    check_factor check_mfa check_confirmed check_totp verify_totp normalize_code accept_step
    after_check record_failure lock_if_due lock_out_account lock_account lock_session lock_mfa find
    add_factor_failure set_account update conclude entry_of attempts_left lock_out revoke_where
    hide_replaced staff_of
locked_out = refl

locked_passes : (tally 1 (serve_all services passwords gate wrongs db)).passes ≡ (tally 1 db).passes
unfolding tally pass_factor with_factor in_tx settled factor_tx pass_check lock_live_session
    check_factor check_mfa check_confirmed check_totp verify_totp normalize_code accept_step
    after_check record_failure lock_if_due lock_out_account lock_account lock_session lock_mfa find
    add_factor_failure set_account update conclude entry_of attempts_left lock_out revoke_where
    hide_replaced staff_of
locked_passes = refl

load_staff-Entered_example : Entered req db (load_staff req db).1
load_staff-Entered_example = load_staff-Entered req db

serve_call-Moves_example :
    Move 10 (tally 1 db) (tally 1 (serve_call services passwords gate (wrong 10) db))
serve_call-Moves_example = serve_call-Moves services passwords gate (wrong 10) db 1

run-fails_example :
    ((tally 1 (serve_all services passwords gate wrongs db)).fails - (tally 1 db).fails)
      * lock_duration
    ≤ (60 - 10) + 5 * lock_duration
run-fails_example = run-fails services passwords gate 1 10 60 wrongs db (ground arith) locked_passes

abbrev tired : Account
tired = record anna { failures = 4 }

abbrev db_tired : Db
db_tired = record db { accounts = tired ∷ [] }

tired_found : lock_account 1 db_tired ≡ some tired
unfolding lock_account find
tired_found = refl

record_failure-locks_example :
    Ends
      (λ left db'.
        (AreEnded 1 db' × (left ≡ 0)) × ((tally 1 db').locked_until ≡ some (10 + lock_duration)))
      (record_failure tired staff step_mfa (env 10).client 10 db_tired)
record_failure-locks_example =
    record_failure-locks tired staff step_mfa (env 10).client 10 db_tired tired_found refl refl

abbrev db_codes : Db
db_codes = record db {
  recovery_codes =
      record { code_owner = 1; code_mac = codes "abcdefghjk"; code_key = []; used_at = none } ∷ [];
}

check_factor-Spends_example :
    Ends (SpendsIfRight 1 db_codes) (check_factor services 1 [] (codes "abcde-fghjk") 5 db_codes)
check_factor-Spends_example = check_factor-Spends services 1 [] (codes "abcde-fghjk") 5 db_codes
