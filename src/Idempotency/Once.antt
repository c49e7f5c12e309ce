-- ===== src/Idempotency/Once.antt =====
-- A request with a key commits its action at most once, whatever its handler does and whatever fails.
use wf_all.Prelude.{
  ℕ, ◌+◌, ◌≡◌, ◌<◌, ◌≤◌, ◌⊎◌, inl, inr, refl, Bool, true, false, not, Option, none, some, Text,
  text_eq, is_empty, ltb, if◌then◌else◌, Bool-cases, arith,
}
use wf_all.Idempotency.{
  Keys, Claim, ClaimState, Problem, internal, is_none, fresh_claim, KeyRow, Saved,
}
use wf_all.Idempotency.Handler.{Buffer, code, Handler, run}
use wf_all.Idempotency.Middleware.{
  Visit, Request, Services, Response, problem, reply, replayed, replay, unsealed, respond, finish,
  looked, claim_of, guarded, mutating, serve,
}
use wf_all.Idempotency.Single.{Keeps, Adds, run-Keeps}

module _ {W : Type 0} (n : W → ℕ) where
  -- What a response says of the actions, `k` at the start and `m` at the end.
  pub data Told (k m : ℕ) : Response → Type 0 where
    stopped : {p : Problem} → m ≡ k → Told k m (problem p)
    repeated : {s : ℕ} {hs : _} {b : Option Text} → m ≡ k → Told k m (replayed s hs b)
    succeeded : {b : Buffer} → code b < 400 → m ≡ k + 1 → Told k m (reply b)
    failed : {b : Buffer} → 400 ≤ code b → (m ≡ k) ⊎ (m ≡ k + 1) → Told k m (reply b)

  refused_or_failed :
      (k m : ℕ) (b : Buffer)
      → m ≡ k
      → Told k m (if ltb (code b) 400 then problem internal else reply b)
  refused_or_failed k m b h = elim (Bool-cases (ltb (code b) 400)) [
    | inl g ↦ rw g (stopped h)
    | inr g ↦ rw g (failed (ground (arith, g)) (inl h))
  ]

  replied : (k m : ℕ) (b : Buffer) → m ≡ k + 1 → Told k m (reply b)
  replied k m b h = elim (Bool-cases (ltb (code b) 400)) [
    | inl g ↦ succeeded (ground (arith, g)) h
    | inr g ↦ failed (ground (arith, g)) (inr h)
  ]

  respond-Told :
      (sv : Services) (v : Visit) (c : Claim) (k : ℕ) (keys : Keys) (w : W) (b : Buffer)
      (o : Option Problem) (committed : Bool)
      → n w ≡ (if committed then k + 1 else k)
      → (is_none o ≡ false → committed ≡ false)
      → let ((_, w'), r) = respond sv v c b keys w o committed in Told k (n w') r
  unfolding respond
  respond-Told sv v c k keys w b (some p) true h a = absurd (ground (arith, a refl))
  respond-Told sv v c k keys w b (some p) false h a = stopped h
  respond-Told sv v c k keys w b none false h a = refused_or_failed k (n w) b h
  respond-Told sv v c k keys w b none true h a = replied k (n w) b h

  finish-Told :
      (sv : Services) (v : Visit) (c : Claim) (k : ℕ) (keys : Keys) (w : W) (st : ClaimState)
      (b : Buffer)
      → Keeps k (n w) st
      → let ((_, w'), r) = finish sv v c ((keys, w), st, b) in Told k (n w') r
  unfolding finish
  finish-Told sv v c k keys w st b h =
      respond-Told sv v c k keys w b st.conflict st.committed h.counted h.apart

  unsealed-Told : (k : ℕ) (o : Option Saved) (secret : Bool) → Told k k (unsealed o secret)
  unfolding unsealed
  unsealed-Told k (some s) false = repeated refl
  unsealed-Told k (some s) true = stopped refl
  unsealed-Told k none secret = stopped refl

  replay-Told :
      (k : ℕ) (row : KeyRow) (hash : Text) (secret : Bool) → Told k k (replay row hash secret)
  unfolding replay
  replay-Told k row hash secret = elim (Bool-cases (not (text_eq row.hash hash))) [
    | inl e ↦ rw e (stopped refl)
    | inr e ↦ rw e (unsealed-Told k row.response secret)
  ]

  looked-Told :
      (sv : Services) (v : Visit) (c : Claim) (h : Handler W) (o : Option KeyRow) (keys : Keys)
      (w : W)
      → Adds n h
      → let ((_, w'), r) = looked sv v c h o keys w in Told (n w) (n w') r
  unfolding looked
  looked-Told sv v c h (some row) keys w a = replay-Told (n w) row c.claim_hash c.no_store
  looked-Told sv v c h none keys w a =
      let ((keys', w'), st, b) = run c h fresh_claim keys w in
      finish-Told sv v c (n w) keys' w' st b (
        run-Keeps n c h fresh_claim keys (n w) w a
          (record { settled = refl; counted = refl; apart = λ _. refl }))

  guarded-Told :
      (sv : Services) (v : Visit) (r : Request) (h : Handler W) (user : ℕ) (body : Option Text)
      (keys : Keys) (w : W)
      → Adds n h
      → let ((_, w'), x) = guarded sv v r h user body keys w in Told (n w) (n w') x
  unfolding guarded
  guarded-Told sv v r h user none keys w a = stopped refl
  guarded-Told sv v r h user (some body) keys w a = elim (Bool-cases v.get_fails) [
    | inl e ↦ rw e (stopped refl)
    | inr e ↦ rw e (looked-Told sv v (claim_of sv r user body) h _ keys w a)
  ]

  -- A mutating request of a subject with a key, whatever its handler does, what others do to the keys
  -- and what fails, commits one action where it answers below 400, none where it is answered with a
  -- problem of the middleware or with a saved response, and at most one where it answers otherwise.
  -- Each transaction of the handler that succeeds is one action.
  pub serve-Told :
      (sv : Services) (v : Visit) (r : Request) (h : Handler W) (user : ℕ) (keys : Keys) (w : W)
      → Adds n h
      → is_empty r.header_key ≡ false
      → mutating r.method ≡ true
      → r.from ≡ some user
      → let ((_, w'), x) = serve sv v r h keys w in Told (n w) (n w') x
  unfolding serve
  serve-Told sv v r h user keys w a e f g =
      rw (e, f, g) (guarded-Told sv v r h user r.sent keys w a)
