-- ===== src/Access/Checks.antt =====
-- withFactor and the two calls that it carries, VerifyMFA and Unlock (passFactor) and
-- ChangePassword: each is a move of the failures of each account.
use wf_all.Prelude.{
  ℕ, ◌≡◌, refl, sym, ap, ◌∙◌, subst, Bool, true, false, not, Option, none, some, Text,
  if◌then◌else◌,
}
use wf_all.Auth.{Staff, Stage}
use wf_all.Access.{
  Account, Session, Db, Step, before, Err, same_stage, mfa_invalid, wrong_stage, password_invalid,
  not_active, passed, change_password, new_password,
}
use wf_all.Access.Tx.{Tx, ◌>>=◌, ◌>>◌, pure, modify, guard}
use wf_all.Access.Store.{
  lock_account, set_account, factor_succeeded, coalesce, write_audit, revoke_where, set_password,
  is_other, count_sessions,
}
use wf_all.Access.Factor.{Services, Env, factor_method, entry_of, check_factor}
use wf_all.Access.Guarded.{
  Checked, success, failure, replace_session, passed_session, pass_action, login_time, want_stage,
  let_in, pass_check,
}
use wf_all.Access.Login.{Verdict, matched, too_long, broken}
use wf_all.Access.Password.{Passwords, change_now, change_check, verify_current, of_verdict}
use wf_all.Access.Logic.{Ends, Ends->>=, Ends-when, Ends-weaken}
use wf_all.Access.Rows.{map_some, lock_account-set_account}
use wf_all.Access.Tally.{tally, Move}
use wf_all.Access.Live.{Keeps, check_factor-Keeps, Ends-live}
use wf_all.Access.Moves.{
  Moves, SameRows, SameRows-Idle, Moves-after, set_account-passed, set_account-Idle,
  lock_account-SameRows, replace_session-SameRows,
}

-- What a check that withFactor guards comes to: a pass is a move, and a failure leaves the accounts
-- and the audit, of an account that is not locked.
abbrev pub Comes : {R : Type 0} → ℕ → Account → Db → Checked R → Db → Type 0
Comes now acct db (success r) db' = Moves now db db'
Comes now acct db (failure f) db' = SameRows db db' × (before now acct.locked_until ≡ false)

Comes-after :
    {R : Type 0} (now : ℕ) (acct : Account) (db db1 : Db) (c : Checked R) (db' : Db)
    → SameRows db db1
    → Comes now acct db1 c db'
    → Comes now acct db c db'
Comes-after now acct db db1 (success r) db' same h =
    Moves-after now db db1 db' (SameRows-Idle db db1 same) h
Comes-after now acct db db1 (failure f) db' same h = ((h.0.0 ∙ same.0, h.0.1 ∙ same.1), h.1)

module _ {R : Type 0} where
  -- A wrong factor, and what follows a right one.
  branch-Comes :
      (now : ℕ) (acct : Account) (good : Tx (Checked R)) (f : Err) (db : Db) (right : Bool)
      → before now acct.locked_until ≡ false
      → Ends (Comes now acct db) (good db)
      → Ends (Comes now acct db) ((if right then good else pure (failure f)) db)
  branch-Comes now acct good f db true h g = g
  branch-Comes now acct good f db false h g = ((refl, refl), h)

of_verdict-Ends :
    {R : Type 0} (Q : R → Db → Type 0) (v : Verdict) (k : Bool → Tx R) (db : Db)
    → ((b : Bool) → Ends Q (k b db))
    → Ends Q ((of_verdict v >>= k) db)
unfolding of_verdict
of_verdict-Ends Q (matched b) k db h = h b
of_verdict-Ends Q too_long k db h = h false
of_verdict-Ends Q broken k db h = tt

module _ (sv : Services) where
  module _ {R : Type 0} where
    factor-Comes :
        (now : ℕ) (acct : Account) (i : ℕ) (code recovery : Text) (good : Tx (Checked R)) (f : Err)
        (db : Db)
        → before now acct.locked_until ≡ false
        → ((db1 : Db) → SameRows db db1 → Ends (Comes now acct db1) (good db1))
        → Ends (Comes now acct db) (
            (check_factor sv i code recovery now >>= λ right.
            if right then good else pure (failure f))
              db)
    factor-Comes now acct i code recovery good f db h g =
        Ends->>= (λ _. Keeps db) (Comes now acct db) (check_factor sv i code recovery now)
          (λ right. if right then good else pure (failure f)) db
          (check_factor-Keeps sv i code recovery now db)
          λ right db1 kept.
            let same : SameRows db db1 = (kept.same_accounts, kept.same_audit) in
            Ends-weaken _ _ ((if right then good else pure (failure f)) db1)
              (λ c db'. Comes-after now acct db db1 c db' same)
              (branch-Comes now acct good f db1 right h (g db1 same))

  let_in-Moves :
      (env : Env) (s : Staff) (code : Text) (step : Step) (acct : Account) (sess : Session)
      (db : Db)
      → lock_account s.staff_id db ≡ some acct
      → Ends (Comes env.now acct db) (let_in sv env s code step acct sess db)
  unfolding let_in factor_succeeded entry_of
  let_in-Moves env s code step acct sess db e =
      let entry = entry_of acct (pass_action step) (passed (factor_method code)) env.client in
      let login = login_time step env.now in
      let change = λ (x : Account). record x {
        failures = 0;
        last_login_at = coalesce login x.last_login_at;
      } in
      Ends->>= (λ _. SameRows db) (Comes env.now acct db)
        (replace_session env s.session_id (passed_session step s sess env.now))
        (λ raw.
          modify (factor_succeeded login s.staff_id)
          >> (modify (write_audit entry) >> pure (success raw)))
        db (replace_session-SameRows env s.session_id (passed_session step s sess env.now) db)
        λ raw db1 same. Moves-after env.now db db1 _ (SameRows-Idle db db1 same) (
          set_account-passed env.now s.staff_id acct change entry db1
            (lock_account-SameRows s.staff_id db db1 acct same e) (λ x. refl) (λ x. refl)
            (λ x. refl) (refl, refl, refl))

  pub pass_check-Comes :
      (env : Env) (s : Staff) (code recovery : Text) (step : Step) (acct : Account) (db : Db)
      → lock_account s.staff_id db ≡ some acct
      → Ends (Comes env.now acct db) (pass_check sv env s code recovery step acct db)
  unfolding pass_check
  pass_check-Comes env s code recovery step acct db e =
      let good = let_in sv env s code step acct in
      let tail = λ (sess : Session). check_factor sv s.staff_id code recovery env.now >>= λ right.
      if right then good sess else pure (failure mfa_invalid) in
      Ends-live (Comes env.now acct db) s acct env.now
        (λ sess. guard (same_stage sess.stage (want_stage step)) wrong_stage >> tail sess) db
        λ sess live.
          Ends-when (Comes env.now acct db) (same_stage sess.stage (want_stage step)) wrong_stage
            (tail sess) db
            λ _.
              factor-Comes env.now acct s.staff_id code recovery (good sess) mfa_invalid db
                live.unlocked
                λ db2 same.
                  let_in-Moves env s code step acct sess db2
                    (lock_account-SameRows s.staff_id db db2 acct same e)

  module _ (pws : Passwords) where
    change_now-Moves :
        (env : Env) (s : Staff) (code hash : Text) (acct : Account) (db : Db)
        → lock_account s.staff_id db ≡ some acct
        → Ends (Comes env.now acct db) (change_now sv pws env s code hash acct db)
    unfolding change_now set_password factor_succeeded revoke_where entry_of
    change_now-Moves env s code hash acct db e =
        let others = is_other env.now s.staff_id s.session_id in
        let hashed = λ (x : Account). record x { password_hash = some hash } in
        let change = λ (x : Account). record x {
          failures = 0;
          last_login_at = coalesce none x.last_login_at;
        } in
        let db1 = set_account s.staff_id hashed db in
        let n = count_sessions others (set_account s.staff_id change db1) in
        let entry =
          entry_of acct change_password (new_password (factor_method code) n) env.client in
        let found =
          lock_account-set_account s.staff_id hashed db (λ x. refl) ∙ ap (map_some hashed) e in
        Moves-after env.now db db1 _
          (set_account-Idle s.staff_id hashed db (λ x. refl) (λ x. refl) (λ x. refl))
          λ j.
            subst (Move env.now (tally j db1))
              (sym (
                SameRows-Idle (write_audit entry (set_account s.staff_id change db1)) _ (refl, refl)
                  j))
              (set_account-passed env.now s.staff_id (hashed acct) change entry db1 found
                (λ x. refl) (λ x. refl) (λ x. refl) (refl, refl, refl) j)

    known-Comes :
        (env : Env) (s : Staff) (code recovery hash : Text) (acct : Account) (known : Bool)
        (db : Db)
        → lock_account s.staff_id db ≡ some acct
        → before env.now acct.locked_until ≡ false
        → Ends (Comes env.now acct db) (
            (if not known
                then pure (failure password_invalid)
                else (check_factor sv s.staff_id code recovery env.now >>= λ right.
                    if right
                    then change_now sv pws env s code hash acct
                    else pure (failure mfa_invalid)))
              db)
    known-Comes env s code recovery hash acct false db e h = ((refl, refl), h)
    known-Comes env s code recovery hash acct true db e h =
        factor-Comes env.now acct s.staff_id code recovery (change_now sv pws env s code hash acct)
          mfa_invalid db h
          λ db2 same.
            change_now-Moves env s code hash acct db2
              (lock_account-SameRows s.staff_id db db2 acct same e)

    verdict-Ends :
        {R : Type 0} (Q : R → Db → Type 0) (o : Option Text) (current : Text) (k : Bool → Tx R)
        (db : Db)
        → ((b : Bool) → Ends Q (k b db))
        → Ends Q ((verify_current pws current o >>= k) db)
    unfolding verify_current
    verdict-Ends Q none current k db h = h false
    verdict-Ends Q (some hash) current k db h = of_verdict-Ends Q (pws.verify current hash) k db h

    pub change_check-Comes :
        (env : Env) (s : Staff) (current code recovery hash : Text) (acct : Account) (db : Db)
        → lock_account s.staff_id db ≡ some acct
        → Ends
            (Comes env.now acct db)
            (change_check sv pws env s current code recovery hash acct db)
    unfolding change_check
    change_check-Comes env s current code recovery hash acct db e =
        let try_factor = check_factor sv s.staff_id code recovery env.now >>= λ right.
        if right then change_now sv pws env s code hash acct else pure (failure mfa_invalid) in
        let try_known =
          λ (known : Bool). if not known then pure (failure password_invalid) else try_factor in
        Ends-live (Comes env.now acct db) s acct env.now
          (λ sess.
            guard (same_stage sess.stage Stage.active) not_active
            >> (verify_current pws current acct.password_hash >>= try_known))
          db
          λ sess live.
            Ends-when (Comes env.now acct db) (same_stage sess.stage Stage.active) not_active
              (verify_current pws current acct.password_hash >>= try_known) db
              λ _.
                verdict-Ends (Comes env.now acct db) acct.password_hash current try_known db
                  λ known. known-Comes env s code recovery hash acct known db e live.unlocked
