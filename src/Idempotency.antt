-- ===== src/Idempotency.antt =====
-- backend/internal/platform/idempotency: the keys of requests, their statements, and the claim that
-- a request makes on its key in the transaction of its action. idempotency_keys and
-- staff_idempotency_keys are two tables of this one form. A time is a number of microseconds; a text
-- of bytes, a header and a hash are texts. Codes of problems are the data type Problem.
pub mod Handler
pub mod Middleware
pub mod Single
pub mod Once
pub mod Rows
pub mod Kept
pub mod Replay
pub mod Cleanup
mod Tests
use wf_all.Prelude.Cleaning.{drain_at}
use wf_all.Prelude.{
  ℕ, ◌+◌, ◌==◌, Bool, true, false, not, ◌&&◌, ◌||◌, List, [], ◌∷◌, Option, none, some, Text,
  text_eq, ltb, leb, if◌then◌else◌, ◌-◌,
}

-- What is saved of a response; with no-store only the status.
pub record Saved : Type 0 where
  pub status : ℕ
  pub headers : Option (List (Text × Text))
  pub body : Option Text

pub record KeyRow : Type 0 where
  pub user : ℕ
  pub key : Text
  pub endpoint : Text
  pub hash : Text
  pub response : Option Saved
  pub expires_at : ℕ

abbrev pub Keys : Type 0
Keys = List KeyRow

abbrev pub key_ttl : ℕ
key_ttl = 86400000000

abbrev pub cleanup_batch : ℕ
cleanup_batch = 1000

unfoldable pub is_row : ℕ → Text → KeyRow → Bool
is_row user key r = r.user == user && text_eq r.key key

-- Get: the row of a key that has not run out.
unfoldable pub get_key : ℕ → ℕ → Text → Keys → Option KeyRow
unfolding is_row
get_key now user key [] = none
get_key now user key (r ∷ rs) =
    if is_row user key r
    then (if ltb now r.expires_at then some r else none)
    else get_key now user key rs

-- claim, less its state.
pub record Claim : Type 0 where
  pub subject : ℕ
  pub claim_key : Text
  pub claim_endpoint : Text
  pub claim_hash : Text
  pub no_store : Bool

unfoldable pub new_row : ℕ → Claim → KeyRow
new_row now c = record {
  user = c.subject;
  key = c.claim_key;
  endpoint = c.claim_endpoint;
  hash = c.claim_hash;
  response = none;
  expires_at = now + key_ttl;
}

abbrev pub add_row : KeyRow → Option Keys → Option Keys
add_row r none = none
add_row r (some rs) = some (r ∷ rs)

-- Claim: a row that has run out is used again, and one that lives gives no rows.
unfoldable pub claim_row : ℕ → Claim → Keys → Option Keys
unfolding is_row new_row
claim_row now c [] = some (new_row now c ∷ [])
claim_row now c (r ∷ rs) =
    let rest = claim_row now c rs in
    if is_row c.subject c.claim_key r
    then (if leb r.expires_at now then some (new_row now c ∷ rs) else none)
    else add_row r rest

abbrev pub is_unsaved : Option Saved → Bool
is_unsaved none = true
is_unsaved (some s) = false

-- The columns response_body and response_headers are jsonb: the bytes that a body is read back as,
-- and the map of headers that json.Unmarshal reads back where json.Marshal wrote it. `none` is a
-- document that the database refuses.
pub record Jsonb : Type 0 where
  pub as_body : Text → Option Text
  pub as_headers : List (Text × Text) → Option (List (Text × Text))

-- NULL stays NULL.
unfoldable pub nullable {ℓ} : {A : Type ℓ} → (A → Option A) → Option A → Option (Option A)
nullable f none = some none
nullable f (some a) = elim (f a) [ none ↦ none | some a' ↦ some (some a') ]

abbrev pub saved_as : ℕ → Option (Option (List (Text × Text))) → Option (Option Text) → Option Saved
saved_as status (some headers) (some body) =
    some (record { status = status; headers = headers; body = body })
saved_as _ _ _ = none

-- What is read of a response that was saved.
unfoldable pub read_back : Jsonb → Saved → Option Saved
unfolding nullable
read_back db s = saved_as s.status (nullable db.as_headers s.headers) (nullable db.as_body s.body)

-- The UPDATE of SaveResponse.
unfoldable pub set_response : Claim → Saved → Keys → Keys
unfolding is_row
set_response c s [] = []
set_response c s (r ∷ rs) =
    (if is_row c.subject c.claim_key r && text_eq r.hash c.claim_hash && is_unsaved r.response
      then record r { response = some s }
      else r)
    ∷ set_response c s rs

-- SaveResponse; a document that the database refuses is an error, and nothing is saved.
unfoldable pub save_response : Jsonb → Claim → Saved → Keys → Keys
unfolding set_response read_back
save_response db c s keys = elim (read_back db s) [ none ↦ keys | some t ↦ set_response c t keys ]

-- DeleteExpired, one batch.
unfoldable pub delete_keys : ℕ → ℕ → Keys → Keys × ℕ
delete_keys now batch [] = ([], 0)
delete_keys now batch (r ∷ rs) =
    let (rest, n) = delete_keys now batch rs in
    if leb r.expires_at now && ltb n batch then (rest, n + 1) else (r ∷ rest, n)

-- The loop of DeleteExpired, on fuel, with now() of the database anew for each batch. Errors of the
-- database, which end it, are left out.
unfoldable pub delete_all : (ℕ → ℕ) → ℕ → Keys → Option (Keys × ℕ)
unfolding drain_at delete_keys
delete_all clock fuel keys =
    drain_at (λ now. delete_keys now cleanup_batch) cleanup_batch clock fuel keys

-- What a request may be answered with in place of the response of its handler.
pub data Problem : Type 0 where
  request_invalid key_reused replay_unavailable in_progress second_tx internal database : Problem

-- The state of a claim.
pub record ClaimState : Type 0 where
  pub pending : Bool
  pub committed : Bool
  pub conflict : Option Problem

abbrev pub fresh_claim : ClaimState
fresh_claim = record { pending = false; committed = false; conflict = none }

abbrev pub is_none {ℓ} : {A : Type ℓ} → Option A → Bool
is_none none = true
is_none (some a) = false

-- What a transaction meets: its time, what other requests have done to the keys since, whether
-- BEGIN fails, whether the claim waits too long, which statement of the hook fails, and COMMIT.
pub record TxEnv : Type 0 where
  pub now : ℕ
  pub others : Keys → Keys
  pub begin_fails : Bool
  pub lock_timeout : Bool
  pub broken : ℕ → Bool
  pub commit_fails : Bool

-- The end of the hook: without a function `after`, or with it.
pub data Hooked : Type 0 where
  refused : ClaimState → Problem → Hooked
  stuck : ClaimState → Problem → Hooked
  claimed : ClaimState → Keys → Hooked

abbrev pub in_conflict : ClaimState → Problem → Hooked
in_conflict st p = refused (record st { conflict = some p }) p

-- The conflict with a request that has committed since.
unfoldable pub conflict_with : Claim → Option KeyRow → Problem
conflict_with c none = in_progress
conflict_with c (some r) = if text_eq r.hash c.claim_hash then in_progress else key_reused

unfoldable pub after_claim : TxEnv → Claim → ClaimState → Keys → Option Keys → Hooked
unfolding conflict_with get_key
after_claim env c st keys none =
    in_conflict st
      (conflict_with c (if env.broken 3 then none else get_key env.now c.subject c.claim_key keys))
after_claim env c st keys (some keys') =
    let pending = record st { pending = true } in
    if env.broken 4 then stuck pending database else claimed pending keys'

-- claim.hook.
unfoldable pub hook : TxEnv → Claim → ClaimState → Keys → Hooked
unfolding after_claim claim_row
hook env c st keys =
    if st.pending || st.committed || not (is_none st.conflict)
    then refused st second_tx
    else if env.broken 0 || env.broken 1
    then refused st database
    else if env.lock_timeout
    then in_conflict st in_progress
    else if env.broken 2
    then refused st database
    else after_claim env c st keys (claim_row env.now c keys)

-- claim.settle.
unfoldable pub settle : Bool → ClaimState → ClaimState
settle committed st = record st { pending = false; committed = committed }
