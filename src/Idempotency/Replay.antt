-- ===== src/Idempotency/Replay.antt =====
-- The response of a committed request is what a repeat of the request is given.
use wf_all.Prelude.{
  ℕ, ◌+◌, ◌≡◌, ◌<◌, inl, inr, refl, sym, ap, subst, ◌∙◌, Bool, true, false, not, List, [], Option,
  none, some, Text, text_eq, is_empty, ltb, if◌then◌else◌, Bool-cases, arith,
}
use wf_all.Idempotency.{
  nullable, read_back, save_response, Saved, Keys, KeyRow, Claim, Problem, internal, database,
  key_ttl, get_key, fresh_claim,
}
use wf_all.Idempotency.Handler.{Buffer, code, Handler, run}
use wf_all.Idempotency.Middleware.{
  Visit, Request, Services, Response, problem, reply, replayed, replay, unsealed, respond, finish,
  looked, claim_of, guarded, mutating, serve, save, save_some, to_save,
}
use wf_all.Idempotency.Rows.{Held, same_hash, set_response-Held, get_key-Held}
use wf_all.Idempotency.Kept.{Leaves, left-Held, IsAlone, run-Kept}

abbrev buffer_of : Response → Buffer
buffer_of (reply b) = b
buffer_of _ = record { headers = []; status = 0; body = [] }

not_sent :
    (b b' : Buffer)
    → code b' < 400
    → (if ltb (code b) 400 then problem internal else reply b) ≡ reply b'
    → ⊥
not_sent b b' small e = elim (Bool-cases (ltb (code b) 400)) [
  | inl g ↦ ground (arith, subst (λ x. (if x then problem internal else reply b) ≡ reply b') g e)
  | inr g ↦
      let same =
        ap buffer_of (subst (λ x. (if x then problem internal else reply b) ≡ reply b') g e) in
      ground (arith, g, subst (λ x. code x < 400) (sym same) small)
]

abbrev is_reply : Response → Bool
is_reply (reply b) = true
is_reply _ = false

unsealed-is_reply : (o : Option Saved) (secret : Bool) → is_reply (unsealed o secret) ≡ false
unfolding unsealed
unsealed-is_reply (some s) false = refl
unsealed-is_reply (some s) true = refl
unsealed-is_reply none secret = refl

-- A saved response is no response of a handler.
replay-is_reply :
    (row : KeyRow) (hash : Text) (secret : Bool) → is_reply (replay row hash secret) ≡ false
unfolding replay
replay-is_reply row hash secret = elim (Bool-cases (not (text_eq row.hash hash))) [
  | inl e ↦ rw e refl
  | inr e ↦ rw e (unsealed-is_reply row.response secret)
]

-- The response is saved, and `s` is what is read back of it.
abbrev ReadsBack : Services → Bool → Buffer → Saved → Type 0
ReadsBack sv no_store b s =
    (t : Saved) × (to_save sv no_store b ≡ some t) × (read_back sv.columns t ≡ some s)

module _ (sv : Services) where
  save-Held :
      (v : Visit) (c : Claim) (b : Buffer) (keys : Keys) (until : ℕ) (s : Saved)
      → v.save_fails ≡ false
      → ReadsBack sv c.no_store b s
      → Held c until none keys
      → Held c until (some s) (save sv v c b keys)
  unfolding save save_some save_response
  save-Held v c b keys until s f (t, e, g) h =
      rw (e, f) (rw (g, save_response) (set_response-Held c s keys until h))

module _ {W : Type 0} where
  found-Held :
      (c : Claim) (until : ℕ) (s : Saved) (b : Buffer) (fails : Bool) (x : (Keys × W) × Response)
      (keys : Keys) (w : W)
      → (x.1 ≡ reply b → Held c until (some s) x.0.0)
      → (let y : (Keys × W) × Response = if fails then ((keys, w), problem database) else x in
          y.1 ≡ reply b)
      → let y : (Keys × W) × Response = if fails then ((keys, w), problem database) else x in
        Held c until (some s) y.0.0
  found-Held c until s b true x keys w h e = absurd (ground (arith, ap is_reply e))
  found-Held c until s b false x keys w h e = h e

  module _ (sv : Services) where
    -- The response is saved with the row.
    respond-Held :
        (v : Visit) (c : Claim) (keys : Keys) (w : W) (b b' : Buffer) (o : Option Problem)
        (committed : Bool) (until : ℕ) (s : Saved)
        → (committed ≡ true → Held c until none keys)
        → Leaves c v.meanwhile
        → v.save_fails ≡ false
        → ReadsBack sv c.no_store b' s
        → code b' < 400
        → (respond sv v c b keys w o committed).1 ≡ reply b'
        → Held c until (some s) (respond sv v c b keys w o committed).0.0
    unfolding respond
    respond-Held v c keys w b b' (some p) committed until s k l f t small e =
        absurd (ground (arith, e))
    respond-Held v c keys w b b' none false until s k l f t small e = absurd (not_sent b b' small e)
    respond-Held v c keys w b b' none true until s k l f t small e =
        let same = ap buffer_of e in
        let few : code b < 400 = subst (λ x. code x < 400) (sym same) small in
        let less : ltb (code b) 500 ≡ true = ground (arith, few) in
        rw less (
          save-Held sv v c b (v.meanwhile keys) until s f
            (subst (λ x. ReadsBack sv c.no_store x s) (sym same) t)
            (left-Held c until none v.meanwhile keys l (k refl)))

    looked-Held :
        (v : Visit) (c : Claim) (h : Handler W) (o : Option KeyRow) (keys : Keys) (w : W) (from : ℕ)
        (b : Buffer) (s : Saved)
        → IsAlone c from h
        → Leaves c v.meanwhile
        → v.save_fails ≡ false
        → ReadsBack sv c.no_store b s
        → code b < 400
        → (looked sv v c h o keys w).1 ≡ reply b
        → Held c (from + key_ttl) (some s) (looked sv v c h o keys w).0.0
    unfolding looked finish
    looked-Held v c h (some row) keys w from b s a l f t small e =
        absurd (ground (arith, replay-is_reply row c.claim_hash c.no_store, ap is_reply e))
    looked-Held v c h none keys w from b s a l f t small e =
        let ((keys', w'), st, b0) = run c h fresh_claim keys w in
        respond-Held v c keys' w' b0 b st.conflict st.committed (from + key_ttl) s
          (run-Kept c h from fresh_claim keys w a (λ x. absurd (ground (arith, x)))) l f t small e

    guarded-Held :
        (v : Visit) (r : Request) (h : Handler W) (user : ℕ) (body : Text) (keys : Keys) (w : W)
        (from : ℕ) (b : Buffer) (s : Saved)
        → IsAlone (claim_of sv r user body) from h
        → Leaves (claim_of sv r user body) v.meanwhile
        → v.save_fails ≡ false
        → ReadsBack sv r.secret b s
        → code b < 400
        → (guarded sv v r h user (some body) keys w).1 ≡ reply b
        → Held
            (claim_of sv r user body)
            (from + key_ttl)
            (some s)
            (guarded sv v r h user (some body) keys w).0.0
    unfolding guarded claim_of
    guarded-Held v r h user body keys w from b s a l f t small e =
        let c = claim_of sv r user body in
        let o = get_key v.get_at user r.header_key keys in
        found-Held c (from + key_ttl) s b v.get_fails (looked sv v c h o keys w) keys w
          (looked-Held v c h o keys w from b s a l f t small) e

    serve-guarded :
        (v : Visit) (r : Request) (h : Handler W) (user : ℕ) (body : Text) (keys : Keys) (w : W)
        → (is_empty r.header_key ≡ false)
          × (mutating r.method ≡ true)
          × (r.from ≡ some user)
          × (r.sent ≡ some body)
        → serve sv v r h keys w ≡ guarded sv v r h user (some body) keys w
    unfolding serve
    serve-guarded v r h user body keys w q = rw (q.0, q.1, q.2, q.3) refl

    looked-replayed :
        (v : Visit) (c : Claim) (h : Handler W) (row : KeyRow) (s : Saved) (keys : Keys) (w : W)
        → c.no_store ≡ false
        → row.hash ≡ c.claim_hash
        → row.response ≡ some s
        → looked sv v c h (some row) keys w ≡ ((keys, w), replayed s.status s.headers s.body)
    unfolding looked replay unsealed
    looked-replayed v c h row s keys w n g e = rw (same_hash row.hash c.claim_hash g, n, e) refl

    guarded-replayed :
        (v : Visit) (r : Request) (h : Handler W) (user : ℕ) (body : Text) (keys : Keys) (w : W)
        (until : ℕ) (s : Saved)
        → r.secret ≡ false
        → Held (claim_of sv r user body) until (some s) keys
        → v.get_fails ≡ false
        → v.get_at < until
        → guarded sv v r h user (some body) keys w ≡ ((keys, w), replayed s.status s.headers s.body)
    unfolding guarded claim_of
    guarded-replayed v r h user body keys w until s n h' g soon =
        let c = claim_of sv r user body in
        let (row, found, same, held) = get_key-Held v.get_at c (some s) keys until h' soon in
        rw (g, found) (looked-replayed v c h row s keys w n same held)

    -- A request that answered below 400 with a response that is saved, and that the jsonb columns
    -- take, with no other use of its key meanwhile: a repeat of it, of the same method, path, body,
    -- subject and key, within a day of the first transaction does nothing and is given the saved
    -- status, with the headers and the body as the jsonb columns give them back.
    pub serve-replayed :
        (v later : Visit) (r : Request) (h again : Handler W) (user : ℕ) (body : Text) (keys : Keys)
        (w : W) (from : ℕ) (b : Buffer) (s : Saved) (hs : Option (List (Text × Text)))
        (text : Option Text)
        → (is_empty r.header_key ≡ false)
          × (mutating r.method ≡ true)
          × (r.from ≡ some user)
          × (r.sent ≡ some body)
          × (r.secret ≡ false)
        → IsAlone (claim_of sv r user body) from h
        → Leaves (claim_of sv r user body) v.meanwhile
        → v.save_fails ≡ false
        → to_save sv false b ≡ some s
        → nullable sv.columns.as_headers s.headers ≡ some hs
        → nullable sv.columns.as_body s.body ≡ some text
        → code b < 400
        → (serve sv v r h keys w).1 ≡ reply b
        → later.get_fails ≡ false
        → later.get_at < from + key_ttl
        → let ((keys', w'), x) = serve sv v r h keys w in
          serve sv later r again keys' w' ≡ ((keys', w'), replayed s.status hs text)
    unfolding read_back
    serve-replayed v later r h again user body keys w from b s hs text q a l f t p z small e g
          soon =
        let (some_key, changes, subject, sent, shown) = q in
        let first = serve-guarded v r h user body keys w (some_key, changes, subject, sent) in
        let (keys', w') = (guarded sv v r h user (some body) keys w).0 in
        let kept : Saved = record { status = s.status; headers = hs; body = text } in
        let reads : ReadsBack sv false b kept = (s, t, rw (p, z) refl) in
        rw (first) (
          serve-guarded later r again user body keys' w' (some_key, changes, subject, sent)
          ∙ guarded-replayed later r again user body keys' w' (from + key_ttl) kept shown
              (guarded-Held v r h user body keys w from b kept a l f
                (subst (λ x. ReadsBack sv x b kept) (sym shown) reads) small
                (ap (λ x. x.1) (sym first) ∙ e))
              g soon)
