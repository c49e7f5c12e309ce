-- ===== src/Access/Rows.antt =====
-- The rows of a table after an UPDATE.
use wf_all.Prelude.{ℕ, ◌==◌, ◌≡◌, refl, false, List, [], ◌∷◌, Option, none, some, arith}
use wf_all.Access.{Account, Db}
use wf_all.Access.Store.{find, update, lock_account, set_account}

abbrev pub map_some {ℓ} : {A : Type ℓ} → (A → A) → Option A → Option A
map_some f none = none
map_some f (some a) = some (f a)

module _ {A : Type 0} (key : A → ℕ) (change : A → A) where
  pub find-update :
      (keeps : (x : A) → key (change x) ≡ key x) (i : ℕ) (xs : List A)
      → find key i (update (λ x. key x == i) change xs) ≡ map_some change (find key i xs)
  unfolding find update
  find-update keeps i [] = refl
  find-update keeps i (x ∷ xs) = ground (arith, keeps x, find-update keeps i xs)

  pub find-update_other :
      (keeps : (x : A) → key (change x) ≡ key x) (i j : ℕ) (xs : List A)
      → (i == j) ≡ false
      → find key i (update (λ x. key x == j) change xs) ≡ find key i xs
  unfolding find update
  find-update_other keeps i j [] h = refl
  find-update_other keeps i j (x ∷ xs) h = ground (arith, keeps x, find-update_other keeps i j xs h)

pub lock_account-set_account :
    (i : ℕ) (change : Account → Account) (db : Db)
    → ((a : Account) → (change a).id ≡ a.id)
    → lock_account i (set_account i change db) ≡ map_some change (lock_account i db)
unfolding lock_account set_account
lock_account-set_account i change db keeps = find-update (λ a. a.id) change keeps i db.accounts

pub lock_account-set_account_other :
    (i j : ℕ) (change : Account → Account) (db : Db)
    → ((a : Account) → (change a).id ≡ a.id)
    → (i == j) ≡ false
    → lock_account i (set_account j change db) ≡ lock_account i db
unfolding lock_account set_account
lock_account-set_account_other i j change db keeps h =
    find-update_other (λ a. a.id) change keeps i j db.accounts h

found-id : (i : ℕ) (xs : List Account) (a : Account) → find (λ x. x.id) i xs ≡ some a → a.id ≡ i
unfolding find
found-id i [] a h = absurd (ground arith)
found-id i (x ∷ xs) a h = ground (arith, found-id i xs a)

pub lock_account-id : (i : ℕ) (a : Account) (db : Db) → lock_account i db ≡ some a → a.id ≡ i
unfolding lock_account
lock_account-id i a db h = found-id i db.accounts a h
