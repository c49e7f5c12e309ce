-- ===== src/Access/Calls.antt =====
-- The calls that go through withFactor: passFactor, which VerifyMFA and Unlock are, and ChangePassword.
-- Each is a move of the failures of every account, whatever it comes to.
use wf_all.Prelude.{
  ℕ, ◌==◌, ◌≡◌, refl, sym, ap, ◌∙◌, subst, false, not, ◌&&◌, ◌||◌, Option, none, some, Text,
  Bool-cases, inl, inr, ==_iff, is_empty,
}
use wf_all.Auth.{Staff}
use wf_all.Access.{
  Account, Db, Step, before, same_stage, session_invalid, Meta, step_password_change,
}
use wf_all.Access.Tx.{Tx, ◌>>=◌, pure}
use wf_all.Access.Store.{lock_account}
use wf_all.Access.Factor.{Services, Env, record_failure}
use wf_all.Access.Guarded.{
  Checked, success, failure, is_counted, counted, after_check, factor_tx, with_factor, pass_check,
  pass_factor, want_stage, is_unlock,
}
use wf_all.Access.Password.{
  Passwords, change_check, change_hashed, change_checked, change_my_password,
}
use wf_all.Access.Logic.{Ends, Ends->>=, Ends-look, Ends-weaken, in_tx-cases}
use wf_all.Access.Rows.{lock_account-id}
use wf_all.Access.Tally.{tally, Move, idle, failed, record_failure-Ends}
use wf_all.Access.Moves.{Moves, Idle-Moves, Moves-after, SameRows-Idle, lock_account-SameRows}
use wf_all.Access.Checks.{Comes, pass_check-Comes, change_check-Comes}

tally-locked :
    (a : Account) (db : Db)
    → lock_account a.id db ≡ some a
    → (tally a.id db).locked_until ≡ a.locked_until
unfolding tally
tally-locked a db e = rw (e) refl

record_failure-Moves :
    (acct : Account) (s : Staff) (step : Step) (m : Meta) (now : ℕ) (db : Db)
    → lock_account acct.id db ≡ some acct
    → before now acct.locked_until ≡ false
    → Ends (λ _. Moves now db) (record_failure acct s step m now db)
record_failure-Moves acct s step m now db e h =
    Ends-weaken _ _ (record_failure acct s step m now db)
      (λ _ db' ends j. elim (Bool-cases (j == acct.id)) [
        | inl d ↦
            subst (λ k. Move now (tally k db) (tally k db')) (sym ((==_iff j acct.id).0 d))
              (subst (Move now (tally acct.id db)) (sym ends.0)
                (failed (ap (before now) (tally-locked acct db e) ∙ h)))
        | inr d ↦ subst (Move now (tally j db)) (sym (ends.1 j d)) idle
      ])
      (record_failure-Ends acct s step m now db e h)

module _ {R : Type 0} where
  after_check-Moves :
      (env : Env) (s : Staff) (step : Step) (acct : Account) (db db1 : Db) (c : Checked R)
      → lock_account s.staff_id db ≡ some acct
      → Comes env.now acct db c db1
      → Ends (λ _. Moves env.now db) (after_check env s step acct c db1)
  unfolding after_check
  after_check-Moves env s step acct db db1 (success r) e h = h
  after_check-Moves env s step acct db db1 (failure f) e h = elim (Bool-cases (is_counted f)) [
    | inl d ↦
        let here =
          subst (λ k. lock_account k db1 ≡ some acct) (sym (lock_account-id s.staff_id acct db e))
            (lock_account-SameRows s.staff_id db db1 acct h.0 e) in
        rw d (
          Ends->>= (λ _. Moves env.now db1) (λ _. Moves env.now db)
            (record_failure acct s step env.client env.now) (λ left. pure (counted f left)) db1
            (record_failure-Moves acct s step env.client env.now db1 here h.1)
            λ left db2 move. Moves-after env.now db db1 db2 (SameRows-Idle db db1 h.0) move)
    | inr d ↦ rw d tt
  ]

  factor_tx-Moves :
      (env : Env) (s : Staff) (step : Step) (check : Account → Tx (Checked R)) (db : Db)
      → (check_Comes : (acct : Account)
          → lock_account s.staff_id db ≡ some acct
          → Ends (Comes env.now acct db) (check acct db))
      → Ends (λ _. Moves env.now db) (factor_tx env s step check db)
  unfolding factor_tx
  factor_tx-Moves env s step check db h =
      Ends-look (λ _. Moves env.now db) (lock_account s.staff_id db) session_invalid
        (λ acct. check acct >>= after_check env s step acct) db
        λ acct e.
          Ends->>= (Comes env.now acct db) (λ _. Moves env.now db) (check acct)
            (after_check env s step acct) db (h acct e)
            λ c db1 come. after_check-Moves env s step acct db db1 c e come

  pub with_factor-Moves :
      (env : Env) (s : Staff) (step : Step) (check : Account → Tx (Checked R)) (db : Db)
      → (check_Comes : (acct : Account)
          → lock_account s.staff_id db ≡ some acct
          → Ends (Comes env.now acct db) (check acct db))
      → Moves env.now db (with_factor env s step check db).0
  unfolding with_factor
  with_factor-Moves env s step check db h =
      in_tx-cases (λ db' _. Moves env.now db db') env.faulty (factor_tx env s step check) db
        (λ _. Idle-Moves env.now db db (λ j. refl)) (factor_tx-Moves env s step check db h)

module _ (sv : Services) where
  -- VerifyMFA and Unlock.
  pub pass_factor-Moves :
      (env : Env) (s : Staff) (code recovery : Text) (step : Step) (db : Db)
      → Moves env.now db (pass_factor sv env s code recovery step db).0
  unfolding pass_factor
  pass_factor-Moves env s code recovery step db =
      elim (Bool-cases
        (not (same_stage s.stage (want_stage step)) || (is_unlock step && not s.reauth))) [
          | inl e ↦ rw e (Idle-Moves env.now db db (λ j. refl))
          | inr e ↦ rw e (
              with_factor-Moves env s step (pass_check sv env s code recovery step) db
                λ acct found. pass_check-Comes sv env s code recovery step acct db found)
        ]

  module _ (pws : Passwords) where
    hashed-Moves :
        (env : Env) (s : Staff) (current code recovery : Text) (hash : Option Text) (db : Db)
        → Moves env.now db (change_hashed sv pws env s current code recovery hash db).0
    unfolding change_hashed
    hashed-Moves env s current code recovery none db = Idle-Moves env.now db db (λ j. refl)
    hashed-Moves env s current code recovery (some hash) db =
        with_factor-Moves env s step_password_change
          (change_check sv pws env s current code recovery hash) db
          λ acct found. change_check-Comes sv pws env s current code recovery hash acct db found

    checked-Moves :
        (env : Env) (s : Staff) (current code recovery next : Text) (rule : Option Text) (db : Db)
        → Moves env.now db (change_checked sv pws env s current code recovery next rule db).0
    unfolding change_checked
    checked-Moves env s current code recovery next none db =
        hashed-Moves env s current code recovery _ db
    checked-Moves env s current code recovery next (some rule) db =
        Idle-Moves env.now db db (λ j. refl)

    -- ChangePassword.
    pub change_my_password-Moves :
        (env : Env) (s : Staff) (current code recovery next : Text) (db : Db)
        → Moves env.now db (change_my_password sv pws env s current code recovery next db).0
    unfolding change_my_password
    change_my_password-Moves env s current code recovery next db =
        elim (Bool-cases (is_empty code && is_empty recovery)) [
          | inl e ↦ rw e (Idle-Moves env.now db db (λ j. refl))
          | inr e ↦ rw e (elim (Bool-cases (not (is_empty code) && not (is_empty recovery))) [
            | inl g ↦ rw g (Idle-Moves env.now db db (λ j. refl))
            | inr g ↦ rw g (checked-Moves env s current code recovery next _ db)
          ])
        ]
