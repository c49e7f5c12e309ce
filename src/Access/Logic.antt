-- ===== src/Access/Logic.antt =====
-- What holds where a transaction ends well, and rules to prove it.
use wf_all.Prelude.{Bool, true, false, Option, none, some, ◌≡◌, refl}
use wf_all.Access.{Db, Err, storage}
use wf_all.Access.Tx.{Res, ok, err, Tx, ◌>>=◌, ◌>>◌, or_raise, guard, in_tx, settled}

module _ {A : Type 0} where
  abbrev pub Ends : (A → Db → Type 0) → Res (A × Db) → Type 0
  Ends P (ok r) = P r.0 r.1
  Ends P (err e) = Unit

  pub Ends-or_raise :
      (P : A → Db → Type 0) (o : Option A) (e : Err) (db : Db)
      → ((a : A) → o ≡ some a → P a db)
      → Ends P (or_raise o e db)
  Ends-or_raise P none e db h = tt
  Ends-or_raise P (some a) e db h = h a refl

  settled-cases :
      (Q : Db → Res A → Type 0) (o : Res (A × Db)) (db : Db)
      → ((e : Err) → Q db (err e))
      → Ends (λ a db'. Q db' (ok a)) o
      → let (db', r) = settled db o in Q db' r
  unfolding settled
  settled-cases Q (ok r) db h g = g
  settled-cases Q (err e) db h g = h e

  -- What holds of the state of a rolled back transaction, and of the end of one that is kept.
  pub in_tx-cases :
      (Q : Db → Res A → Type 0) (faulty : Bool) (body : Tx A) (db : Db)
      → ((e : Err) → Q db (err e))
      → Ends (λ a db'. Q db' (ok a)) (body db)
      → let (db', r) = in_tx faulty body db in Q db' r
  unfolding in_tx
  in_tx-cases Q true body db h g = settled-cases Q (err storage) db h tt
  in_tx-cases Q false body db h g = settled-cases Q (body db) db h g

module _ {A B : Type 0} where
  bind-Ends :
      (P : A → Db → Type 0) (Q : B → Db → Type 0) (f : A → Tx B) (o : Res (A × Db))
      → Ends P o
      → ((a : A) (db : Db) → P a db → Ends Q (f a db))
      → Ends Q (elim o [ ok r ↦ f r.0 r.1 | err e ↦ err e ])
  bind-Ends P Q f (ok r) h g = g r.0 r.1 h
  bind-Ends P Q f (err e) h g = tt

  pub Ends->>= :
      (P : A → Db → Type 0) (Q : B → Db → Type 0) (m : Tx A) (f : A → Tx B) (db : Db)
      → Ends P (m db)
      → ((a : A) (db1 : Db) → P a db1 → Ends Q (f a db1))
      → Ends Q ((m >>= f) db)
  Ends->>= P Q m f db h g = bind-Ends P Q f (m db) h g

-- A guard passes only where its test holds.
pub Ends-guard :
    (b : Bool) (e : Err) (db : Db) → Ends (λ _ db'. (b ≡ true) × (db' ≡ db)) (guard b e db)
Ends-guard true e db = (refl, refl)
Ends-guard false e db = tt

module _ {A : Type 0} where
  pub Ends-weaken :
      (P Q : A → Db → Type 0) (o : Res (A × Db))
      → ((a : A) (db : Db) → P a db → Q a db)
      → Ends P o
      → Ends Q o
  Ends-weaken P Q (ok r) f h = f r.0 r.1 h
  Ends-weaken P Q (err e) f h = tt

module _ {A B : Type 0} where
  -- A read that finds a row.
  pub Ends-read :
      (Q : B → Db → Type 0) (look : Db → Option A) (e : Err) (f : A → Tx B) (db : Db) (a : A)
      → look db ≡ some a
      → Ends Q (f a db)
      → Ends Q (((λ d. or_raise (look d) e d) >>= f) db)
  Ends-read Q look e f db a h g = rw (h, Ends) g

module _ {A : Type 0} where
  pub Ends-when :
      (Q : A → Db → Type 0) (b : Bool) (e : Err) (k : Tx A) (db : Db)
      → (b ≡ true → Ends Q (k db))
      → Ends Q ((guard b e >> k) db)
  Ends-when Q true e k db h = h refl
  Ends-when Q false e k db h = tt

module _ {A B : Type 0} where
  -- A read and what follows it.
  pub Ends-look :
      (Q : B → Db → Type 0) (o : Option A) (e : Err) (f : A → Tx B) (db : Db)
      → ((a : A) → o ≡ some a → Ends Q (f a db))
      → Ends Q (((λ d. or_raise o e d) >>= f) db)
  Ends-look Q none e f db h = tt
  Ends-look Q (some a) e f db h = h a refl

module _ {A : Type 0} where
  pub Ends-both :
      (P Q : A → Db → Type 0) (o : Res (A × Db))
      → Ends P o
      → Ends Q o
      → Ends (λ a db. P a db × Q a db) o
  Ends-both P Q (ok r) h g = (h, g)
  Ends-both P Q (err e) h g = tt
