-- ===== src/Access/Quiet.antt =====
-- The calls that move the failures of no account: the load of a session, Logout, and what a member of
-- the staff does with his sessions and his language.
use wf_all.Prelude.{
  ℕ, ◌==◌, ◌≡◌, refl, sym, ◌∙◌, subst, Bool, true, false, not, ◌&&◌, ◌||◌, Option, none, some, Text,
  codes, text_eq, if◌then◌else◌, Bool-cases, inl, inr, arith, leb, ltb, ◌+◌,
}
use wf_all.Auth.{Staff}
use wf_all.Access.{
  Account, Session, Db, AuditEntry, session_invalid, is_null, is_disabled, before, touch_every,
  session_not_found, revoked, logged_out, session_revoked, change_locale, ended_session, new_locale,
}
use wf_all.Access.Tx.{Res, ok, err, Tx, ◌>>=◌, ◌>>◌, pure, guard, gets, modify, in_tx}
use wf_all.Access.Store.{
  lock_account, revoke_where, write_audit, set_locale, touch_session, is_own, is_other, is_session,
  count_sessions,
}
use wf_all.Access.Factor.{Env, entry_of, lock_live_session}
use wf_all.Access.Loading.{
  Arrival, load_staff, load_cookie, load_row, load_joined, welcome, touched, needs_reauth,
}
use wf_all.Access.Login.{log_out}
use wf_all.Access.Self.{
  lock_self, lift_error, revoke_my_session, revoke_my_session_tx, revoke_other_sessions,
  revoke_other_sessions_tx, audit_ended, change_my_locale, set_locale_tx,
}
use wf_all.Access.Logic.{Ends, Ends->>=, Ends-look, Ends-when, Ends-weaken, in_tx-cases}
use wf_all.Access.Tally.{tally, tally_of-quiet, fail_detail, pass_detail}
use wf_all.Access.Live.{lock_live_session-Ends}
use wf_all.Access.Moves.{Idle, SameRows, SameRows-Idle, set_account-Idle}

-- An entry of the audit that is no failure and no pass.
pub audited-Idle :
    (entry : AuditEntry) (db db1 : Db)
    → (fail_detail entry.detail ≡ false) × (pass_detail entry.detail ≡ false)
    → Idle db db1
    → Idle db (write_audit entry db1)
unfolding tally lock_account
audited-Idle entry db db1 h g j =
    tally_of-quiet j (lock_account j db1) db1.audit entry (ground (arith, h.0), ground (arith, h.1))
    ∙ g j

touched-SameRows :
    (req : Arrival) (row : Session) (reauth : Bool) (db : Db)
    → SameRows db (touched req row reauth db).0
unfolding touched touch_session
touched-SameRows req row reauth db =
    elim (Bool-cases
      (not reauth && not req.background && leb (row.last_seen_at + touch_every) req.clock)) [
        | inl e ↦ rw e (elim (Bool-cases (req.broken 1)) [
          | inl g ↦ rw g (refl, refl)
          | inr g ↦ rw g (refl, refl)
        ])
        | inr e ↦ rw e (refl, refl)
      ]

fine-SameRows :
    {A : Type 0} (db db' : Db) (a b : A) (fine : Bool)
    → SameRows db db'
    → let r : Db × A = if fine then (db', a) else (db', b) in SameRows db r.0
fine-SameRows db db' a b true h = h
fine-SameRows db db' a b false h = h

joined-SameRows :
    (req : Arrival) (row : Session) (o : Option Account) (db : Db)
    → SameRows db (load_joined req row o db).0
unfolding load_joined welcome revoke_where
joined-SameRows req row none db = (refl, refl)
joined-SameRows req row (some acct) db = elim (Bool-cases (not (is_null row.revoked_at))) [
  | inl a ↦ rw a (refl, refl)
  | inr a ↦ rw a (elim (Bool-cases (not (ltb req.clock row.expires_at))) [
    | inl b ↦
        rw b (elim (Bool-cases (req.broken 1)) [
          | inl c ↦ rw c (refl, refl)
          | inr c ↦ rw c (refl, refl)
        ])
    | inr b ↦
        rw b (elim (Bool-cases (is_disabled acct.status || before req.clock acct.locked_until)) [
          | inl c ↦ rw c (refl, refl)
          | inr c ↦ rw c (
              fine-SameRows db _ _ _ _
                (touched-SameRows req row (needs_reauth row req.peer req.clock) db))
        ])
  ])
]

row-SameRows : (req : Arrival) (o : Option Session) (db : Db) → SameRows db (load_row req o db).0
unfolding load_row
row-SameRows req none db = (refl, refl)
row-SameRows req (some row) db = joined-SameRows req row _ db

cookie-SameRows :
    (req : Arrival) (cookie : Option ℕ) (db : Db) → SameRows db (load_cookie req cookie db).0
unfolding load_cookie
cookie-SameRows req none db = (refl, refl)
cookie-SameRows req (some hash) db = elim (Bool-cases (req.broken 0)) [
  | inl a ↦ rw a (refl, refl)
  | inr a ↦ rw a (row-SameRows req _ db)
]

pub load_staff-Idle : (req : Arrival) (db : Db) → Idle db (load_staff req db).0
unfolding load_staff
load_staff-Idle req db = SameRows-Idle db _ (cookie-SameRows req req.cookie db)

pub in_tx-Idle :
    {A : Type 0} (faulty : Bool) (body : Tx A) (db : Db)
    → Ends (λ _. Idle db) (body db)
    → Idle db (in_tx faulty body db).0
in_tx-Idle faulty body db h = in_tx-cases (λ db' _. Idle db db') faulty body db (λ _ j. refl) h

pub log_out-Idle : (env : Env) (s : Staff) (db : Db) → Idle db (log_out env s db).0
unfolding log_out revoke_where
log_out-Idle env s db =
    let test = is_session s.session_id in
    in_tx-Idle env.faulty (modify (revoke_where test env.now logged_out)) db
      (SameRows-Idle db (revoke_where test env.now logged_out db) (refl, refl))

-- lockSelf reads.
lift_error-Ends :
    {A : Type 0} (P : A → Db → Type 0) (o : Res (A × Db)) → Ends P o → Ends P (lift_error o)
unfolding lift_error
lift_error-Ends P (ok r) h = h
lift_error-Ends P (err e) h = tt

lock_self-Ends : (env : Env) (s : Staff) (db : Db) → Ends (λ _ db'. db' ≡ db) (lock_self env s db)
unfolding lock_self
lock_self-Ends env s db =
    let live = λ (acct : Account). lock_live_session s acct env.now in
    Ends-look (λ _ db'. db' ≡ db) (lock_account s.staff_id db) session_invalid
      (λ acct. (λ d. lift_error (live acct d)) >>= λ _. pure acct) db
      λ acct e.
        Ends->>= (λ _ db'. db' ≡ db) (λ _ db'. db' ≡ db) (λ d. lift_error (live acct d))
          (λ _. pure acct) db
          (lift_error-Ends (λ _ db'. db' ≡ db) (live acct db)
            (Ends-weaken _ _ (live acct db) (λ _ d h. h.1)
              (lock_live_session-Ends s acct env.now db)))
          λ _ db1 h. h

Ends-self :
    {B : Type 0} (Q : B → Db → Type 0) (env : Env) (s : Staff) (k : Account → Tx B) (db : Db)
    → ((acct : Account) → Ends Q (k acct db))
    → Ends Q ((lock_self env s >>= k) db)
Ends-self Q env s k db h =
    Ends->>= (λ _ db'. db' ≡ db) Q (lock_self env s) k db (lock_self-Ends env s db)
      λ acct db1 same. subst (λ d. Ends Q (k acct d)) (sym same) (h acct)

-- The end of some sessions.
pub revoke_my_session-Idle :
    (env : Env) (s : Staff) (session : ℕ) (db : Db) → Idle db (revoke_my_session env s session db).0
unfolding revoke_my_session revoke_my_session_tx revoke_where entry_of
revoke_my_session-Idle env s session db =
    let mine = is_own env.now s.staff_id session in
    let n = count_sessions mine db in
    let ended = revoke_where mine env.now revoked db in
    let write = λ (acct : Account). modify (
      write_audit (
        entry_of acct session_revoked (ended_session session (session == s.session_id))
          env.client)) in
    in_tx-Idle env.faulty (revoke_my_session_tx env s session) db (
      Ends-self (λ _. Idle db) env s
        (λ acct. gets (count_sessions mine) >>= λ n.
          modify (revoke_where mine env.now revoked)
          >> (guard (not (n == 0)) session_not_found >> write acct))
        db
        λ acct.
          Ends-when (λ _. Idle db) (not (n == 0)) session_not_found (write acct) ended
            λ _. audited-Idle _ db ended (refl, refl) (SameRows-Idle db ended (refl, refl)))

ended-Idle :
    (env : Env) (s : Staff) (acct : Account) (n : ℕ) (db db1 : Db)
    → Idle db db1
    → Ends (λ _. Idle db) ((audit_ended env s acct n >> pure n) db1)
unfolding audit_ended entry_of
ended-Idle env s acct n db db1 h = elim (Bool-cases (n == 0)) [
  | inl e ↦ rw e h
  | inr e ↦ rw e (audited-Idle _ db db1 (refl, refl) h)
]

pub revoke_other_sessions-Idle :
    (env : Env) (s : Staff) (db : Db) → Idle db (revoke_other_sessions env s db).0
unfolding revoke_other_sessions revoke_other_sessions_tx revoke_where
revoke_other_sessions-Idle env s db =
    let others = is_other env.now s.staff_id s.session_id in
    let ended = revoke_where others env.now revoked db in
    in_tx-Idle env.faulty (revoke_other_sessions_tx env s) db (
      Ends-self (λ _. Idle db) env s
        (λ acct. gets (count_sessions others) >>= λ n.
          modify (revoke_where others env.now revoked) >> (audit_ended env s acct n >> pure n))
        db
        λ acct.
          ended-Idle env s acct (count_sessions others db) db ended
            (SameRows-Idle db ended (refl, refl)))

locale_tx-Idle :
    (env : Env) (s : Staff) (l : Text) (acct : Account) (db : Db)
    → Ends
        (λ _. Idle db)
        ((if text_eq acct.locale l
            then pure tt
            else (modify (set_locale l s.staff_id)
                >> modify (
                    write_audit
                      (entry_of acct change_locale (new_locale acct.locale l) env.client))))
          db)
unfolding set_locale entry_of
locale_tx-Idle env s l acct db = elim (Bool-cases (text_eq acct.locale l)) [
  | inl e ↦ rw e (λ j. refl)
  | inr e ↦ rw e (
      audited-Idle _ db _ (refl, refl)
        (set_account-Idle s.staff_id (λ a. record a { locale = l }) db (λ x. refl) (λ x. refl)
          (λ x. refl)))
]

pub change_my_locale-Idle :
    (env : Env) (s : Staff) (l : Text) (db : Db) → Idle db (change_my_locale env s l db).0
unfolding change_my_locale set_locale_tx
change_my_locale-Idle env s l db =
    elim (Bool-cases (not (text_eq l (codes "ru") || text_eq l (codes "en")))) [
      | inl e ↦ rw e (λ j. refl)
      | inr e ↦ rw e (
          in_tx-Idle env.faulty (set_locale_tx env s l) db
            (Ends-self (λ _. Idle db) env s _ db λ acct. locale_tx-Idle env s l acct db))
    ]
