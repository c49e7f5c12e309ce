-- ===== src/Idempotency/Middleware.antt =====
-- idempotency.go: the middleware, the replay of a response and its saving.
use wf_all.Prelude.{
  ℕ, Bool, true, false, not, ◌||◌, List, [], ◌∷◌, ◌++◌, Option, none, some, Text, codes, text_eq,
  is_empty, ltb, if◌then◌else◌,
}
use wf_all.Idempotency.{
  Saved, Jsonb, KeyRow, Keys, Claim, ClaimState, fresh_claim, Problem, request_invalid, key_reused,
  replay_unavailable, internal, database, get_key, save_response,
}
use wf_all.Idempotency.Handler.{Buffer, code, Handler, run, run_plain}

pub data Method : Type 0 where
  get head options post put patch delete other_method : Method

unfoldable pub mutating : Method → Bool
mutating post = true
mutating put = true
mutating patch = true
mutating delete = true
mutating _ = false

-- A request; its body is none where the reading fails.
pub record Request : Type 0 where
  pub method : Method
  pub method_name : Text
  pub uri : Text
  pub path : Text
  pub header_key : Text
  pub sent : Option Text
  pub from : Option ℕ
  pub secret : Bool

-- What the request meets: the time of Get, whether Get and SaveResponse fail, and what others have
-- done to the keys before the response is saved.
pub record Visit : Type 0 where
  pub get_at : ℕ
  pub get_fails : Bool
  pub save_fails : Bool
  pub meanwhile : Keys → Keys

-- SHA-256 in hexadecimal, json.Valid, and the jsonb columns of the database.
pub record Services : Type 0 where
  pub sha : Text → Text
  pub is_json : Text → Bool
  pub columns : Jsonb

pub data Response : Type 0 where
  problem : Problem → Response
  reply : Buffer → Response
  replayed : (status : ℕ) → Option (List (Text × Text)) → Option Text → Response

-- The headers that are saved: Content-Type, Location and ETag, where they are not empty.
unfoldable pub saved_headers : List (Text × Text) → List (Text × Text)
saved_headers hs =
    pick (codes "Content-Type") hs (pick (codes "Location") hs (pick (codes "ETag") hs []))
  where
    pick : Text → List (Text × Text) → List (Text × Text) → List (Text × Text)
    pick name [] rest = rest
    pick name ((k, v) ∷ hs) rest =
        let more = pick name hs rest in
        if text_eq k name then (if is_empty v then rest else (k, v) ∷ rest) else more

unfoldable pub unsealed : Option Saved → Bool → Response
unsealed (some s) false = replayed s.status s.headers s.body
unsealed _ _ = problem replay_unavailable

unfoldable pub replay : KeyRow → Text → Bool → Response
unfolding unsealed
replay row hash secret =
    if not (text_eq row.hash hash) then problem key_reused else unsealed row.response secret

module _ (sv : Services) where
  -- RequestHash.
  unfoldable pub request_hash : Text → Text → Text → Text
  request_hash method uri body = sv.sha (method ++ (codes "\n" ++ (uri ++ (codes "\n" ++ body))))

  -- What is saved of a response, if anything.
  unfoldable pub to_save : Bool → Buffer → Option Saved
  unfolding code saved_headers
  to_save true b = some (record { status = code b; headers = none; body = none })
  to_save false b =
      if is_empty b.body
      then some (record { status = code b; headers = some (saved_headers b.headers); body = none })
      else if sv.is_json b.body
      then some
          (record { status = code b; headers = some (saved_headers b.headers); body = some b.body })
      else none

  unfoldable pub save_some : Visit → Claim → Option Saved → Keys → Keys
  unfolding save_response
  save_some v c none keys = keys
  save_some v c (some s) keys = if v.save_fails then keys else save_response sv.columns c s keys

  -- claim.save.
  unfoldable pub save : Visit → Claim → Buffer → Keys → Keys
  unfolding to_save save_some
  save v c b keys = save_some v c (to_save c.no_store b) keys

  unfoldable pub claim_of : Request → ℕ → Text → Claim
  unfolding request_hash
  claim_of r user body = record {
    subject = user;
    claim_key = r.header_key;
    claim_endpoint = r.path;
    claim_hash = request_hash r.method_name r.uri body;
    no_store = r.secret;
  }

  module _ {W : Type 0} where
    -- The `switch` after the handler, by the conflict of the claim and whether it is committed.
    unfoldable pub respond :
        Visit
        → Claim
        → Buffer
        → Keys
        → W
        → Option Problem
        → (committed : Bool) → (Keys × W) × Response
    unfolding save code
    respond v c b keys w (some p) committed = ((keys, w), problem p)
    respond v c b keys w none false =
        ((keys, w), if ltb (code b) 400 then problem internal else reply b)
    respond v c b keys w none true =
        ((if ltb (code b) 500 then save v c b (v.meanwhile keys) else keys, w), reply b)

    unfoldable pub finish : Visit → Claim → (Keys × W) × ClaimState × Buffer → (Keys × W) × Response
    unfolding respond
    finish v c ((keys, w), st, b) = respond v c b keys w st.conflict st.committed

    unfoldable pub looked :
        Visit → Claim → Handler W → Option KeyRow → Keys → W → (Keys × W) × Response
    unfolding replay run finish
    looked v c h (some row) keys w = ((keys, w), replay row c.claim_hash c.no_store)
    looked v c h none keys w = finish v c (run c h fresh_claim keys w)

    unfoldable pub guarded :
        Visit → Request → Handler W → ℕ → Option Text → Keys → W → (Keys × W) × Response
    unfolding claim_of get_key looked
    guarded v r h user none keys w = ((keys, w), problem request_invalid)
    guarded v r h user (some body) keys w =
        let c = claim_of r user body in
        if v.get_fails
        then ((keys, w), problem database)
        else looked v c h (get_key v.get_at user r.header_key keys) keys w

    unfoldable pub passed : Handler W → Keys → W → (Keys × W) × Response
    unfolding run_plain
    passed h keys w = let (w', b) = run_plain h w in ((keys, w'), reply b)

    -- Middleware.
    unfoldable pub serve : Visit → Request → Handler W → Keys → W → (Keys × W) × Response
    unfolding guarded passed mutating
    serve v r h keys w =
        if is_empty r.header_key || not (mutating r.method)
        then passed h keys w
        else by_subject r.from
      where
        by_subject : Option ℕ → (Keys × W) × Response
        by_subject none = passed h keys w
        by_subject (some user) = guarded v r h user r.sent keys w
