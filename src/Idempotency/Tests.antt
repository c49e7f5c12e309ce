-- ===== src/Idempotency/Tests.antt =====
-- A request that adds one, with a jsonb that drops spaces, its repeat, and the theorems at them.
use wf_all.Prelude.{keep, not, ◌==◌, ℕ, ◌+◌, ◌≡◌, refl, true, false, [], none, some, codes, arith}
use wf_all.Idempotency.{nullable, KeyRow, TxEnv, claim_row, get_key, hook, after_claim, settle}
use wf_all.Idempotency.Handler.{
  Buffer, Handler, answer, transact, code, in_tx, after_hook, close, run,
}
use wf_all.Idempotency.Middleware.{
  Request, Visit, Services, reply, replayed, post, serve, mutating, guarded, looked, finish,
  respond, to_save, saved_headers,
}
use wf_all.Idempotency.Once.{Told, serve-Told}
use wf_all.Idempotency.Replay.{serve-replayed}

abbrev services : Services
services = record {
  sha = λ t. t;
  is_json = λ t. true;
  columns = record {
    as_body = λ t. some (keep (λ c. not (c == 32)) t);
    as_headers = λ hs. some hs;
  };
}

abbrev request : Request
request = record {
  method = post;
  method_name = codes "POST";
  uri = codes "/v1/x";
  path = codes "/v1/x";
  header_key = codes "k1";
  sent = some (codes "{}");
  from = some 7;
  secret = false;
}

abbrev visit : ℕ → Visit
visit t = record { get_at = t; get_fails = false; save_fails = false; meanwhile = λ keys. keys }

abbrev tx : TxEnv
tx = record {
  now = 10;
  others = λ keys. keys;
  begin_fails = false;
  lock_timeout = false;
  broken = λ n. false;
  commit_fails = false;
}

abbrev created : Buffer
created = record { headers = []; status = 201; body = codes "{ }" }

abbrev adds : Handler ℕ
adds = transact tx (λ w. some (w + 1)) (λ e. answer created)

serve-Told_example :
    let ((_, w'), x) = serve services (visit 5) request adds [] 3 in Told (λ w. w) 3 w' x
unfolding mutating
serve-Told_example =
    serve-Told (λ w. w) services (visit 5) request adds 7 [] 3
      ((λ w w' e. ground (arith, e)), λ e. tt) refl refl refl

first_reply : (serve services (visit 5) request adds [] 3).1 ≡ reply created
unfolding serve mutating guarded looked finish respond run in_tx after_hook close hook after_claim
    claim_row get_key settle code
first_reply = refl

serve-replayed_example :
    let ((keys', w'), x) = serve services (visit 5) request adds [] 3 in
    serve services (visit 20) request adds keys' w'
    ≡ ((keys', w'), replayed 201 (some []) (some (codes "{}")))
unfolding mutating to_save saved_headers code nullable
serve-replayed_example =
    serve-replayed services (visit 5) (visit 20) request adds adds 7 (codes "{}") [] 3 10 created
      (record { status = 201; headers = some []; body = some (codes "{ }") }) (some [])
      (some (codes "{}")) (refl, refl, refl, refl, refl) (ground arith, (λ keys. refl), λ e. tt)
      (λ keys. refl) refl refl refl refl (ground arith) first_reply refl (ground arith)

abbrev old_row : KeyRow
old_row = record {
  user = 7;
  key = codes "k0";
  endpoint = [];
  hash = [];
  response = none;
  expires_at = 4;
}
