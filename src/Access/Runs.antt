-- ===== src/Access/Runs.antt =====
-- The calls of the accounts' scenarios one after another, in any order: each is a move, and how many
-- wrong codes and passwords they leave room for.
use wf_all.Prelude.{ℕ, ◌+◌, ◌-◌, ◌*◌, ◌≤◌, ◌≡◌, sym, ◌∙◌, List, [], ◌∷◌, Text, arith}
use wf_all.Auth.{Staff}
use wf_all.Ratelimit.Store.{Table}
use wf_all.Access.{Db, Step, lock_duration}
use wf_all.Access.Factor.{Services, Env}
use wf_all.Access.Guarded.{pass_factor}
use wf_all.Access.Loading.{Arrival, load_staff}
use wf_all.Access.Login.{Gate, Visit, log_in, log_out}
use wf_all.Access.Self.{revoke_my_session, revoke_other_sessions, change_my_locale}
use wf_all.Access.Password.{Passwords, change_my_password}
use wf_all.Access.Tally.{tally}
use wf_all.Access.Moves.{Moves, Idle-Moves}
use wf_all.Access.Calls.{pass_factor-Moves, change_my_password-Moves}
use wf_all.Access.Quiet.{
  load_staff-Idle, log_out-Idle, revoke_my_session-Idle, revoke_other_sessions-Idle,
  change_my_locale-Idle,
}
use wf_all.Access.Signing.{log_in-Idle}
use wf_all.Access.Trials.{
  IsWithin, Move-IsWithin, Move-passes, later-IsWithin, start-IsWithin, IsWithin-bound,
}

pub data Call : Type 0 where
  load : Arrival → Call
  sign : Visit → (email password : Text) → Table → Call
  leave : Env → Staff → Call
  factor : Env → Staff → (code recovery : Text) → Step → Call
  new_secret : Env → Staff → (current code recovery next : Text) → Call
  end_one : Env → Staff → ℕ → Call
  end_others : Env → Staff → Call
  speak : Env → Staff → Text → Call

abbrev pub call_time : Call → ℕ
call_time (load req) = req.clock
call_time (sign v email password tab) = v.env.now
call_time (leave env s) = env.now
call_time (factor env s code recovery step) = env.now
call_time (new_secret env s current code recovery next) = env.now
call_time (end_one env s session) = env.now
call_time (end_others env s) = env.now
call_time (speak env s l) = env.now

-- The times of calls do not go back, from the first to the last time.
abbrev pub InOrder : ℕ → ℕ → List Call → Type 0
InOrder from until [] = from ≤ until
InOrder from until (c ∷ cs) = (from ≤ call_time c) × InOrder (call_time c) until cs

module _ (sv : Services) (pws : Passwords) (g : Gate) where
  abbrev pub serve_call : Call → Db → Db
  serve_call (load req) db = (load_staff req db).0
  serve_call (sign v email password tab) db = (log_in g v email password tab db).1
  serve_call (leave env s) db = (log_out env s db).0
  serve_call (factor env s code recovery step) db = (pass_factor sv env s code recovery step db).0
  serve_call (new_secret env s current code recovery next) db =
      (change_my_password sv pws env s current code recovery next db).0
  serve_call (end_one env s session) db = (revoke_my_session env s session db).0
  serve_call (end_others env s) db = (revoke_other_sessions env s db).0
  serve_call (speak env s l) db = (change_my_locale env s l db).0

  abbrev pub serve_all : List Call → Db → Db
  serve_all [] db = db
  serve_all (c ∷ cs) db = serve_all cs (serve_call c db)

  -- A call moves the failures of every account by one move, at its time.
  pub serve_call-Moves : (c : Call) (db : Db) → Moves (call_time c) db (serve_call c db)
  serve_call-Moves (load req) db = Idle-Moves _ db _ (load_staff-Idle req db)
  serve_call-Moves (sign v email password tab) db =
      Idle-Moves _ db _ (log_in-Idle g v email password tab db)
  serve_call-Moves (leave env s) db = Idle-Moves _ db _ (log_out-Idle env s db)
  serve_call-Moves (factor env s code recovery step) db =
      pass_factor-Moves sv env s code recovery step db
  serve_call-Moves (new_secret env s current code recovery next) db =
      change_my_password-Moves sv pws env s current code recovery next db
  serve_call-Moves (end_one env s session) db =
      Idle-Moves _ db _ (revoke_my_session-Idle env s session db)
  serve_call-Moves (end_others env s) db = Idle-Moves _ db _ (revoke_other_sessions-Idle env s db)
  serve_call-Moves (speak env s l) db = Idle-Moves _ db _ (change_my_locale-Idle env s l db)

  passes_mono :
      (i : ℕ) (cs : List Call) (db : Db) → (tally i db).passes ≤ (tally i (serve_all cs db)).passes
  passes_mono i [] db = omega arith
  passes_mono i (c ∷ cs) db =
      let first =
        Move-passes (call_time c) (tally i db) (tally i (serve_call c db))
          (serve_call-Moves c db i) in
      let rest = passes_mono i cs (serve_call c db) in omega arith

  run-IsWithin :
      (i from start now until : ℕ) (cs : List Call) (db : Db)
      → InOrder now until cs
      → (tally i (serve_all cs db)).passes ≡ (tally i db).passes
      → IsWithin from start now (tally i db)
      → IsWithin from start until (tally i (serve_all cs db))
  run-IsWithin i from start now until [] db o e h =
      later-IsWithin from start now until (tally i db) o h
  run-IsWithin i from start now until (c ∷ cs) db o e h =
      let next = serve_call c db in
      let first = Move-passes (call_time c) (tally i db) (tally i next) (serve_call-Moves c db i) in
      let rest = passes_mono i cs next in
      let same : (tally i next).passes ≡ (tally i db).passes = omega arith in
      run-IsWithin i from start (call_time c) until cs next o.1 (e ∙ sym same) (
        Move-IsWithin from start (call_time c) (tally i db) (tally i next) (serve_call-Moves c db i)
          same (later-IsWithin from start now (call_time c) (tally i db) o.0 h))

  -- In any run of calls, in the order of their times, in which an account passes no check, it fails at
  -- most five times and once more for each whole hour.
  pub run-fails :
      (i from until : ℕ) (cs : List Call) (db : Db)
      → InOrder from until cs
      → (tally i (serve_all cs db)).passes ≡ (tally i db).passes
      → ((tally i (serve_all cs db)).fails - (tally i db).fails) * lock_duration
        ≤ (until - from) + 5 * lock_duration
  run-fails i from until cs db o e =
      IsWithin-bound from (tally i db).fails until (tally i (serve_all cs db)) (
        run-IsWithin i from (tally i db).fails from until cs db o e
          (start-IsWithin from (tally i db)))
