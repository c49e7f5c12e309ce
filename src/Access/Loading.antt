-- ===== src/Access/Loading.antt =====
-- session.go: LoadStaff, from the token of a cookie to the member of the staff.
use wf_all.Prelude.{
  ℕ, ◌+◌, ◌-◌, ◌/◌, ◌%◌, ◌==◌, Bool, true, false, not, ◌&&◌, ◌||◌, [], Option, none, some, ltb, leb,
  if◌then◌else◌,
}
use wf_all.Auth.{Staff, Stage, is_moderator}
use wf_all.Perm.{grants}
use wf_all.Access.{
  Account, Session, Db, Ip, no_ip, ip4, ip6, ran_out, is_disabled, before, is_null, is_replaced,
  idle_timeout, touch_every, replaced_grace, same_stage, session_invalid, session_replaced, storage,
}
use wf_all.Access.Tx.{Res, ok, err}
use wf_all.Access.Store.{lock_account, load_session, revoke_where, is_session, touch_session}

-- netip.Addr.Unmap: IPv4 within IPv6, ::ffff:0:0/96, is IPv4.
unfoldable pub unmap : Ip → Ip
unmap (ip6 n) = if n / 4294967296 == 65535 then ip4 (n % 4294967296) else ip6 n
unmap a = a

in_prefix : Ip → Ip → Bool
in_prefix (ip4 a) (ip4 b) = a / 256 == b / 256
in_prefix (ip6 a) (ip6 b) = a / 1208925819614629174706176 == b / 1208925819614629174706176
in_prefix _ _ = false

-- samePrefix: /24 of IPv4 and /48 of IPv6.
unfoldable pub same_prefix : Ip → Ip → Bool
unfolding in_prefix unmap
same_prefix a b = in_prefix (unmap a) (unmap b)

abbrev pub is_valid_ip : Ip → Bool
is_valid_ip no_ip = false
is_valid_ip _ = true

-- A request: the hash of the token of its cookie, none for an empty one, its address, and whether
-- it is in the background; the clock, and which of the two statements the database fails.
pub record Arrival : Type 0 where
  pub cookie : Option ℕ
  pub peer : Ip
  pub background : Bool
  pub clock : ℕ
  pub broken : ℕ → Bool

-- `now.Sub(*revokedAt) < replacedGrace` of a session revoked as replaced.
abbrev pub is_fresh_swap : Session → ℕ → Bool
is_fresh_swap row now = is_replaced row.revoked_reason && within row.revoked_at now
  where
    within : Option ℕ → ℕ → Bool
    within none now = false
    within (some t) now = ltb now (t + replaced_grace)

-- Idle for more than twenty minutes, or on another network; only of the stage active.
unfoldable pub needs_reauth : Session → Ip → ℕ → Bool
unfolding same_prefix
needs_reauth row peer now =
    if same_stage row.stage Stage.active
    then ltb (row.last_seen_at + idle_timeout) now || not (same_prefix row.ip peer)
    else false

unfoldable pub staff_of : Account → Session → Bool → Staff
unfolding grants
staff_of acct row reauth = record {
  staff_id = row.staff_id;
  session_id = row.session_id;
  role = acct.role;
  city_ids = if is_moderator acct.role then acct.cities else [];
  stage = row.stage;
  reauth = reauth;
  grants = grants acct.role;
}

-- What is written of a session that is in use, at most once a minute.
unfoldable pub touched : Arrival → Session → Bool → Db → Db × Bool
unfolding touch_session unmap
touched req row reauth db =
    if not reauth && not req.background && leb (row.last_seen_at + touch_every) req.clock
    then if req.broken 1 then (db, false) else (
      touch_session req.clock (unmap (if is_valid_ip req.peer then req.peer else row.ip))
          row.session_id (req.clock - touch_every) db,
      true,
    )
    else (db, true)

unfoldable pub welcome : Arrival → Account → Session → Db → Db × Res Staff
unfolding touched staff_of needs_reauth
welcome req acct row db =
    let reauth = needs_reauth row req.peer req.clock in
    let (db', fine) = touched req row reauth db in
    if fine then (db', ok (staff_of acct row reauth)) else (db', err storage)

unfoldable pub load_joined : Arrival → Session → Option Account → Db → Db × Res Staff
unfolding welcome revoke_where is_session
load_joined req row none db = (db, err session_invalid)
load_joined req row (some acct) db =
    if not (is_null row.revoked_at)
    then (db, err (if is_fresh_swap row req.clock then session_replaced else session_invalid))
    else if not (ltb req.clock row.expires_at)
    then if req.broken 1
      then (db, err storage)
      else (revoke_where (is_session row.session_id) req.clock ran_out db, err session_invalid)
    else if is_disabled acct.status || before req.clock acct.locked_until
    then (db, err session_invalid)
    else welcome req acct row db

unfoldable pub load_row : Arrival → Option Session → Db → Db × Res Staff
unfolding load_joined lock_account
load_row req none db = (db, err session_invalid)
load_row req (some row) db = load_joined req row (lock_account row.staff_id db) db

unfoldable pub load_cookie : Arrival → Option ℕ → Db → Db × Res Staff
unfolding load_row load_session
load_cookie req none db = (db, err session_invalid)
load_cookie req (some hash) db =
    if req.broken 0 then (db, err storage) else load_row req (load_session hash db) db

unfoldable pub load_staff : Arrival → Db → Db × Res Staff
unfolding load_cookie
load_staff req db = load_cookie req req.cookie db
