-- ===== src/Ratelimit/Middleware.antt =====
-- backend/internal/platform/ratelimit/middleware.go: which keys a request counts against, and when
-- it is refused. The limiter is an argument with a state of its own; the texts of uuids are one too.
use wf_all.Prelude.{
  ℕ, ◌+◌, ◌/◌, suc, not, Option, none, some, List, [], ◌∷◌, ◌++◌, Text, is_empty, ◌==◌,
  if◌then◌else◌,
}
use wf_all.Prelude.Int.{ℤ, pos, negsuc, neg}
use wf_all.Auth.{Subject, Context, subject_from}
use wf_all.Ratelimit.{Policy}
use wf_all.Ratelimit.Store.{Fault, Outcome, failed, done, Result}
use wf_all.Ratelimit.Keys.{ip_key, subject_key, session_device_key, bff_device_key}
use wf_all.Ratelimit.Rules.{ClassPolicy, Rules, lookup_rule, class_or_zero, default_class}

-- The request: the route's x-rate-limit, empty where it has none, and no route outside the
-- contract; the peer's address, where it is valid, and its device label; and the auth context.
pub record Request : Type 0 where
  pub route : Option Text
  pub peer_ip : Option Text
  pub peer_device : Text
  pub context : Context

-- What is logged.
pub data Entry : Type 0 where
  no_such_class : Text → Entry
  store_failed : Fault → Entry

pub data Response : Type 0 where
  served : Response
  too_many : (retry_after : ℤ) → Response

abbrev pub Check : Type 0
Check = Text × Policy

-- math.Ceil of the seconds of a duration.
unfoldable pub ceil_seconds : ℤ → ℤ
ceil_seconds (pos n) = pos ((n + 999999999) / 1000000000)
ceil_seconds (negsuc n) = neg (suc n / 1000000000)

unfoldable pub ip_checks : Text → ClassPolicy → Option Text → List Check
unfolding ip_key
ip_checks class cp none = []
ip_checks class cp (some ip) = (ip_key class ip, cp.ip) ∷ []

-- The text of the device key, empty where the request has none.
unfoldable pub label_key : Text → Text → Text
unfolding bff_device_key
label_key class label = if is_empty label then [] else bff_device_key class label

unfoldable pub device_checks : ClassPolicy → Text → List Check
device_checks cp key = if is_empty key then [] else (key, cp.device) ∷ []

module _ (uuid_text : ℕ → Text) where
  unfoldable pub subject_checks : Text → ClassPolicy → Text → Option Subject → List Check
  unfolding subject_key session_device_key device_checks
  subject_checks class cp label none = device_checks cp label
  subject_checks class cp label (some s) =
      (subject_key class s.kind (uuid_text s.id), cp.user)
      ∷ device_checks cp
          (if not (s.device == 0) then session_device_key class (uuid_text s.device) else label)

  unfoldable pub checks : Text → ClassPolicy → Request → List Check
  unfolding ip_checks subject_checks label_key subject_from
  checks class cp req =
      ip_checks class cp req.peer_ip
      ++ subject_checks class cp (label_key class req.peer_device) (subject_from req.context)

  module _ {S : Type 0} (allow : S → Text → Policy → S × Outcome Result) where
    -- What follows one call of Allow, where `rest` is what the other checks would do.
    unfoldable pub after_allow :
        S → S × List Entry × Response → Outcome Result → S × List Entry × Response
    unfolding ceil_seconds
    after_allow s rest (failed e) = (s, store_failed e ∷ [], served)
    after_allow s rest (done r) =
        if not r.allowed then (s, [], too_many (ceil_seconds r.retry_after)) else rest

    unfoldable pub run_checks : S → List Check → S × List Entry × Response
    unfolding after_allow
    run_checks s [] = (s, [], served)
    run_checks s ((key, p) ∷ cs) =
        let (s', o) = allow s key p in after_allow s' (run_checks s' cs) o

    -- The class's policies, with those of the default class where the rules have none.
    unfoldable pub with_rule :
        S → Text → Option ClassPolicy → ClassPolicy → Request → S × List Entry × Response
    unfolding run_checks checks
    with_rule s class (some cp) other req = run_checks s (checks class cp req)
    with_rule s class none other req =
        let (s', log, res) = run_checks s (checks class other req) in
        (s', no_such_class class ∷ log, res)

    unfoldable pub with_class : Rules → S → Text → Request → S × List Entry × Response
    unfolding with_rule lookup_rule
    with_class r s class req =
        with_rule s class (lookup_rule r class) (class_or_zero (lookup_rule r default_class)) req

    unfoldable pub with_route : Rules → S → Option Text → Request → S × List Entry × Response
    unfolding with_class default_class
    with_route r s none req = (s, [], served)
    with_route r s (some class) req =
        with_class r s (if is_empty class then default_class else class) req

    unfoldable pub middleware : Rules → S → Request → S × List Entry × Response
    unfolding with_route
    middleware r s req = with_route r s req.route req
