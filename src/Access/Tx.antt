-- ===== src/Access/Tx.antt =====
-- A transaction: the state and a value, or an error, which rolls it back.
use wf_all.Prelude.{Bool, true, false, Option, none, some, if◌then◌else◌}
use wf_all.Access.{Db, Err, storage}

pub data Res (A : Type 0) : Type 0 where
  ok : A → Res A
  err : Err → Res A

abbrev pub Tx : Type 0 → Type 0
Tx A = Db → Res (A × Db)

infixl 5 ◌>>=◌ ◌>>◌
abbrev pub ◌>>=◌ : {A B : Type 0} → Tx A → (A → Tx B) → Tx B
◌>>=◌ m f db = elim (m db) [ ok r ↦ f r.0 r.1 | err e ↦ err e ]

abbrev pub ◌>>◌ : {A B : Type 0} → Tx A → Tx B → Tx B
m >> k = m >>= λ _. k

module _ {A : Type 0} where
  abbrev pub pure : A → Tx A
  pure a db = ok (a, db)

  abbrev pub raise : Err → Tx A
  raise e db = err e

  abbrev pub gets : (Db → A) → Tx A
  gets f db = ok (f db, db)

  abbrev pub or_raise : Option A → Err → Tx A
  or_raise none e = raise e
  or_raise (some a) e = pure a

  abbrev pub of_res : Res A → Tx A
  of_res (ok a) = pure a
  of_res (err e) = raise e

abbrev pub guard : Bool → Err → Tx (Unit {0})
guard true e = pure tt
guard false e = raise e

abbrev pub modify : (Db → Db) → Tx (Unit {0})
modify f db = ok (tt, f db)

module _ {A : Type 0} where
  unfoldable pub settled : Db → Res (A × Db) → Db × Res A
  settled db (ok r) = (r.1, ok r.0)
  settled db (err e) = (db, err e)

  -- db.InTx: what the body wrote is kept only where it succeeds. A statement or a COMMIT that the
  -- database fails is an error of the whole, `faulty`.
  unfoldable pub in_tx : Bool → Tx A → Db → Db × Res A
  unfolding settled
  in_tx faulty body db = settled db (if faulty then err storage else body db)
