-- ===== src/Access/Signing.antt =====
-- login.go: the password step moves the failures of no account, whatever it comes to.
use wf_all.Prelude.{
  ℕ, refl, ◌∙◌, Bool, true, false, not, Option, none, some, Text, Bool-cases, inl, inr,
}
use wf_all.Ratelimit.Store.{Table, Outcome, failed, done, Result}
use wf_all.Access.{
  Account, Db, AuditEntry, login_stale, login_failed, by_anonymous, failed_password,
}
use wf_all.Access.Tx.{Res, ok, err, ◌>>◌, guard, modify}
use wf_all.Access.Store.{lock_account, write_audit}
use wf_all.Access.Guarded.{replace_session}
use wf_all.Access.Login.{
  Gate, Visit, Verdict, matched, too_long, broken, log_in, keyed, limited, with_email, with_account,
  with_hash, verified, dummy_verified, signed_in, sign_in, password_failed, still_usable,
  old_session, pending_session,
}
use wf_all.Access.Logic.{Ends, Ends-look, Ends-when, Ends-weaken}
use wf_all.Access.Moves.{Idle, SameRows-Idle, replace_session-SameRows}
use wf_all.Access.Quiet.{audited-Idle, in_tx-Idle}

-- The password step: an entry of the audit that counts as no failure of the factor, or a session.
password_failed-Idle :
    (v : Visit) (object : ℕ) (email : Text) (db : Db)
    → Idle db (password_failed v object email db).0
unfolding password_failed
password_failed-Idle v object email db =
    let entry : AuditEntry = record {
      actor = by_anonymous;
      action = login_failed;
      object = object;
      detail = failed_password email;
      meta = some v.env.client;
    } in
    in_tx-Idle v.audit_fails (modify (write_audit entry)) db
      (audited-Idle entry db db (refl, refl) (λ j. refl))

sign_in-Idle :
    (v : Visit) (acct : Account) (hash : Text) (db : Db)
    → Ends (λ _. Idle db) (sign_in v acct hash db)
unfolding sign_in
sign_in-Idle v acct hash db =
    let swap = replace_session v.env (old_session v.old) (pending_session v acct) in
    Ends-look (λ _. Idle db) (lock_account acct.id db) login_stale
      (λ a. guard (still_usable a hash v.env.now) login_stale >> swap) db
      λ a e.
        Ends-when (λ _. Idle db) (still_usable a hash v.env.now) login_stale swap db
          λ _.
            Ends-weaken _ _ (swap db) (λ _ db1 same. SameRows-Idle db db1 same)
              (replace_session-SameRows v.env (old_session v.old) (pending_session v acct) db)

signed_in-Idle :
    (v : Visit) (acct : Account) (email : Text) (db db1 : Db) (r : Res ℕ)
    → Idle db db1
    → Idle db (signed_in v acct email db (db1, r)).0
unfolding signed_in
signed_in-Idle v acct email db db1 (ok raw) h = h
signed_in-Idle v acct email db db1 (err login_stale) h =
    λ j. password_failed-Idle v acct.id email db1 j ∙ h j
signed_in-Idle v acct email db db1 (err _) h = h

verified-Idle :
    (v : Visit) (acct : Account) (email hash : Text) (o : Verdict) (db : Db)
    → Idle db (verified v acct email hash o db).0
unfolding verified
verified-Idle v acct email hash (matched true) db =
    signed_in-Idle v acct email db _ _
      (in_tx-Idle v.env.faulty (sign_in v acct hash) db (sign_in-Idle v acct hash db))
verified-Idle v acct email hash (matched false) db = password_failed-Idle v acct.id email db
verified-Idle v acct email hash too_long db = password_failed-Idle v acct.id email db
verified-Idle v acct email hash broken db = λ j. refl

dummy-Idle :
    (v : Visit) (object : ℕ) (email : Text) (o : Verdict) (db : Db)
    → Idle db (dummy_verified v object email o db).0
unfolding dummy_verified
dummy-Idle v object email broken db = λ j. refl
dummy-Idle v object email (matched b) db = password_failed-Idle v object email db
dummy-Idle v object email too_long db = password_failed-Idle v object email db

module _ (g : Gate) where
  hash-Idle :
      (v : Visit) (email pw : Text) (acct : Account) (hash : Option Text) (usable : Bool) (db : Db)
      → Idle db (with_hash g v email pw acct hash usable db).0
  unfolding with_hash
  hash-Idle v email pw acct (some hash) true db = verified-Idle v acct email hash _ db
  hash-Idle v email pw acct (some hash) false db = dummy-Idle v acct.id email _ db
  hash-Idle v email pw acct none usable db = dummy-Idle v acct.id email _ db

  account-Idle :
      (v : Visit) (email pw : Text) (o : Option Account) (db : Db)
      → Idle db (with_account g v email pw o db).0
  unfolding with_account
  account-Idle v email pw none db = dummy-Idle v 0 email _ db
  account-Idle v email pw (some acct) db = hash-Idle v email pw acct acct.password_hash _ db

  email-Idle :
      (v : Visit) (email pw : Text) (norm : Option Text) (db : Db)
      → Idle db (with_email g v email pw norm db).0
  unfolding with_email
  email-Idle v email pw none db = account-Idle v email pw none db
  email-Idle v email pw (some norm) db = elim (Bool-cases v.read_fails) [
    | inl e ↦ rw e (λ j. refl)
    | inr e ↦ rw e (account-Idle v email pw _ db)
  ]

  limited-Idle :
      (v : Visit) (email pw : Text) (norm : Option Text) (o : Outcome Result) (db : Db)
      → Idle db (limited g v email pw norm o db).0
  unfolding limited
  limited-Idle v email pw norm (failed e) db = email-Idle v _ pw norm db
  limited-Idle v email pw norm (done r) db = elim (Bool-cases (not r.allowed)) [
    | inl e ↦ rw e (λ j. refl)
    | inr e ↦ rw e (email-Idle v _ pw norm db)
  ]

  keyed-Idle :
      (v : Visit) (email pw : Text) (norm mac : Option Text) (tab : Table) (db : Db)
      → Idle db (keyed g v email pw norm mac tab db).1
  unfolding keyed
  keyed-Idle v email pw norm none tab db = λ j. refl
  keyed-Idle v email pw norm (some mac) tab db = limited-Idle v email pw norm _ db

  pub log_in-Idle :
      (v : Visit) (email pw : Text) (tab : Table) (db : Db) → Idle db (log_in g v email pw tab db).1
  unfolding log_in
  log_in-Idle v email pw tab db = keyed-Idle v email pw _ _ tab db
