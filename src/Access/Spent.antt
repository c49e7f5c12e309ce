-- ===== src/Access/Spent.antt =====
-- factor.go: a factor that is right is spent: a later step of TOTP, or one recovery code fewer.
use wf_all.Prelude.{
  ℕ, ◌+◌, ◌==◌, ◌/◌, ◌≡◌, refl, ap, ◌∙◌, Bool, true, ◌&&◌, List, [], ◌∷◌, Option, none, some, Text,
  text_eq, is_empty, Bool-cases, inl, inr, arith, length, keep,
}
use wf_all.Prelude.Int.{ℤ, ltb_ℤ}
use wf_all.Staff.Window.{verify_totp-later}
use wf_all.Access.{Mfa, RecoveryCode, Db, is_null, second}
use wf_all.Access.Tx.{Res, ok, err, ◌>>=◌, of_res}
use wf_all.Access.Store.{lock_mfa, set_mfa_step, unused_recovery_codes, use_recovery_code, update}
use wf_all.Access.Factor.{
  Services, accept_step, check_totp, check_recovery, check_confirmed, check_mfa, check_factor,
  use_recovery, spend_code,
}
use wf_all.Access.Logic.{Ends}
use wf_all.Access.Rows.{map_some, find-update}

-- The one or the other, of the account `i`.
pub data Spends (i : ℕ) (db db' : Db) : Type 0 where
  by_step :
      (m : Mfa) (step : ℤ)
      → lock_mfa i db ≡ some m
      → lock_mfa i db' ≡ some (record m { last_used_step = step })
      → ltb_ℤ m.last_used_step step ≡ true
      → Spends i db db'
  by_code :
      length (unused_recovery_codes i db') + 1 ≡ length (unused_recovery_codes i db)
      → Spends i db db'

abbrev pub SpendsIfRight : ℕ → Db → Bool → Db → Type 0
SpendsIfRight i db right db' = right ≡ true → Spends i db db'

used_up :
    (i now : ℕ) (mac : Text) (cs : List RecoveryCode)
    → length (
          keep
            (λ c. c.code_owner == i && is_null c.used_at)
            (update
              (λ c. c.code_owner == i && text_eq c.code_mac mac && is_null c.used_at)
              (λ c. record c { used_at = some now })
              cs))
        + length (
            keep
              (λ (c : RecoveryCode). text_eq c.code_mac mac)
              (keep (λ c. c.code_owner == i && is_null c.used_at) cs))
      ≡ length (keep (λ c. c.code_owner == i && is_null c.used_at) cs)
unfolding update
used_up i now mac [] = refl
used_up i now mac (c ∷ cs) = ground (arith, used_up i now mac cs)

module _ (sv : Services) where
  spend_code-Spends :
      (i now : ℕ) (found : Option Text) (db : Db)
      → Ends (SpendsIfRight i db) (spend_code sv i now found db)
  unfolding spend_code use_recovery_code unused_recovery_codes
  spend_code-Spends i now none db = λ e. absurd (ground arith)
  spend_code-Spends i now (some mac) db =
      λ e. by_code (ground (arith, e, used_up i now mac db.recovery_codes))

  found-Spends :
      (i now : ℕ) (found : Res (Option Text)) (db : Db)
      → Ends (SpendsIfRight i db) ((of_res found >>= spend_code sv i now) db)
  found-Spends i now (ok found) db = spend_code-Spends i now found db
  found-Spends i now (err e) db = tt

  check_recovery-Spends :
      (i now : ℕ) (norm : Option Text) (db : Db)
      → Ends (SpendsIfRight i db) (check_recovery sv i now norm db)
  unfolding check_recovery use_recovery
  check_recovery-Spends i now none db = λ e. absurd (ground arith)
  check_recovery-Spends i now (some norm) db = found-Spends i now _ db

  accept_step-Spends :
      (i : ℕ) (m : Mfa) (o : Option ℤ) (db : Db)
      → lock_mfa i db ≡ some m
      → ((s : ℤ) → o ≡ some s → ltb_ℤ m.last_used_step s ≡ true)
      → Ends (SpendsIfRight i db) (accept_step sv i o db)
  unfolding accept_step set_mfa_step lock_mfa
  accept_step-Spends i m none db e h = λ x. absurd (ground arith)
  accept_step-Spends i m (some s) db e h = λ x.
      by_step m s e
        (find-update (λ m. m.owner) (λ m. record m { last_used_step = s }) (λ m. refl) i db.mfas
          ∙ ap (map_some (λ m. record m { last_used_step = s })) e)
        (h s refl)

  check_totp-Spends :
      (i : ℕ) (code : Text) (now : ℕ) (m : Mfa) (secret : Option (List ℕ)) (db : Db)
      → lock_mfa i db ≡ some m
      → Ends (SpendsIfRight i db) (check_totp sv i code now m secret db)
  unfolding check_totp
  check_totp-Spends i code now m none db e = tt
  check_totp-Spends i code now m (some secret) db e = accept_step-Spends i m _ db e λ s h.
      verify_totp-later sv.hmac sv.nfkc sv.is_cf secret code (now / second) m.last_used_step s h

  check_confirmed-Spends :
      (i : ℕ) (code recovery : Text) (now : ℕ) (m : Mfa) (db : Db)
      → lock_mfa i db ≡ some m
      → Ends (SpendsIfRight i db) (check_confirmed sv i code recovery now m db)
  unfolding check_confirmed
  check_confirmed-Spends i code recovery now m db found = elim (Bool-cases (is_empty code)) [
    | inl e ↦ rw e (elim (Bool-cases (is_empty recovery)) [
      | inl g ↦ rw g (λ x. absurd (ground arith))
      | inr g ↦ rw g (check_recovery-Spends i now _ db)
    ])
    | inr e ↦ rw e (check_totp-Spends i code now m _ db found)
  ]

  check_mfa-Spends :
      (i : ℕ) (code recovery : Text) (now : ℕ) (o : Option Mfa) (db : Db)
      → lock_mfa i db ≡ o
      → Ends (SpendsIfRight i db) (check_mfa sv i code recovery now o db)
  unfolding check_mfa
  check_mfa-Spends i code recovery now none db found = λ x. absurd (ground arith)
  check_mfa-Spends i code recovery now (some m) db found =
      elim (Bool-cases (is_null m.confirmed_at)) [
        | inl e ↦ rw e (λ x. absurd (ground arith))
        | inr e ↦ rw e (check_confirmed-Spends i code recovery now m db found)
      ]

  -- A second factor that checkFactor finds right is spent: the last used step of TOTP of the account is
  -- a later one than before, or the account has one unused recovery code fewer.
  pub check_factor-Spends :
      (i : ℕ) (code recovery : Text) (now : ℕ) (db : Db)
      → Ends (SpendsIfRight i db) (check_factor sv i code recovery now db)
  unfolding check_factor
  check_factor-Spends i code recovery now db = check_mfa-Spends i code recovery now _ db refl
