-- ===== src/Approvals/Accounts.antt =====
-- What a table of requests and the events published about it say of each other: distinct ids, and
-- one event for each decided request; and that a decision and a sweep keep to it.
use wf_all.Prelude.{
  ℕ, suc, ◌+◌, ◌≡◌, refl, Bool, true, false, List, [], ◌∷◌, some, ◌==◌, if◌then◌else◌, All, arith,
  Bool-cases, inl, inr, ◌||◌,
}
use wf_all.Approvals.{Row, Event, State, pending, is_pending}
use wf_all.Approvals.Formats.{View}
use wf_all.Approvals.Decide.{find}
use wf_all.Approvals.Outcomes.{replace}
use wf_all.Approvals.Stored.{IsStored}
use wf_all.Approvals.Batch.{sweep}

-- How many events are about this request.
abbrev pub events_of : ℕ → List Event → ℕ
events_of i [] = 0
events_of i (e ∷ es) = let n = events_of i es in if e.aggregate_id == i then suc n else n

module _ {P : Type 0} where
  abbrev pub has_row : ℕ → List (Row P) → Bool
  has_row i [] = false
  has_row i (r ∷ rs) = r.id == i || has_row i rs

  abbrev pub HasDistinctIds : List (Row P) → Type 0
  HasDistinctIds [] = Unit
  HasDistinctIds (r ∷ rs) = (has_row r.id rs ≡ false) × HasDistinctIds rs

  -- No event while the request is pending, one when it is decided.
  abbrev pub IsAccounted : List Event → Row P → Type 0
  IsAccounted es r = events_of r.id es ≡ (if is_pending r.status then 0 else 1)

  abbrev pub Other : ℕ → Row P → Type 0
  Other i r = (r.id == i) ≡ false

  others : (i : ℕ) (rs : List (Row P)) → has_row i rs ≡ false → All (Other i) rs
  others i [] h = tt
  others i (r ∷ rs) h = (ground arith, others i rs (ground arith))

  All-zip :
      (A B C : Row P → Type 0)
      → ((r : Row P) → A r → B r → C r)
      → (rs : List (Row P)) → All A rs
      → All B rs
      → All C rs
  All-zip A B C f [] a b = tt
  All-zip A B C f (r ∷ rs) a b = (f r a.0 b.0, All-zip A B C f rs a.1 b.1)

  has_row-replace :
      (i j : ℕ) (r' : Row P) (rs : List (Row P))
      → r'.id ≡ i
      → has_row j (replace i r' rs) ≡ has_row j rs
  unfolding replace
  has_row-replace i j r' [] e = refl
  has_row-replace i j r' (r ∷ rs) e = ground (arith, has_row-replace i j r' rs e)

  pub HasDistinctIds-replace :
      (i : ℕ) (r' : Row P) (rs : List (Row P))
      → r'.id ≡ i
      → HasDistinctIds rs
      → HasDistinctIds (replace i r' rs)
  unfolding replace
  HasDistinctIds-replace i r' [] e d = tt
  HasDistinctIds-replace i r' (r ∷ rs) e d =
      ground (arith, HasDistinctIds-replace i r' rs e d.1, has_row-replace i r.id r' rs e)

  pub All-replace :
      (A : Row P → Type 0) (i : ℕ) (r' : Row P) (rs : List (Row P))
      → A r'
      → All A rs
      → All A (replace i r' rs)
  unfolding replace
  All-replace A i r' [] a h = tt
  All-replace A i r' (r ∷ rs) a h = elim (Bool-cases (r.id == i)) [
    | inl e ↦ rw e (a, h.1)
    | inr e ↦ rw e (h.0, All-replace A i r' rs a h.1)
  ]

  IsAccounted-Other :
      (e : Event) (es : List Event) (rs : List (Row P))
      → All (Other e.aggregate_id) rs
      → All (IsAccounted es) rs
      → All (IsAccounted (e ∷ es)) rs
  IsAccounted-Other e es rs =
      All-zip (Other e.aggregate_id) (IsAccounted es) (IsAccounted (e ∷ es)) (λ r o a. ground arith)
        rs

  pub IsAccounted-replace :
      (e : Event) (es : List Event) (r r' : Row P) (rs : List (Row P))
      → r'.id ≡ e.aggregate_id
      → is_pending r'.status ≡ false
      → find e.aggregate_id rs ≡ some r
      → r.status ≡ pending
      → HasDistinctIds rs
      → All (IsAccounted es) rs
      → All (IsAccounted (e ∷ es)) (replace e.aggregate_id r' rs)
  unfolding replace find
  IsAccounted-replace e es r r' [] i n f p d h = tt
  IsAccounted-replace e es r r' (x ∷ rs) i n f p d h = elim (Bool-cases (x.id == e.aggregate_id)) [
    | inl here ↦
        rw here
          (ground arith, IsAccounted-Other e es rs (others e.aggregate_id rs (ground arith)) h.1)
    | inr there ↦
        rw there (ground arith, IsAccounted-replace e es r r' rs i n (ground arith) p d.1 h.1)
  ]

  -- How many of the changed rows have this id.
  abbrev pub ids_of : ℕ → List (Row P) → ℕ
  ids_of i [] = 0
  ids_of i (r ∷ rs) = let n = ids_of i rs in if r.id == i then suc n else n

  module _ (hit : Row P → Bool) (change : Row P → Row P)
      (same_id : (r : Row P) → (change r).id ≡ r.id) where
    has_row-sweep : (i : ℕ) (rs : List (Row P)) → has_row i (sweep hit change rs).0 ≡ has_row i rs
    unfolding sweep
    has_row-sweep i [] = refl
    has_row-sweep i (r ∷ rs) = ground (arith, has_row-sweep i rs, same_id r)

    pub HasDistinctIds-sweep :
        (rs : List (Row P)) → HasDistinctIds rs → HasDistinctIds (sweep hit change rs).0
    unfolding sweep
    HasDistinctIds-sweep [] d = tt
    HasDistinctIds-sweep (r ∷ rs) d =
        ground (arith, HasDistinctIds-sweep rs d.1, has_row-sweep r.id rs, same_id r)

    ids_of-sweep :
        (i : ℕ) (rs : List (Row P)) → has_row i rs ≡ false → ids_of i (sweep hit change rs).1 ≡ 0
    unfolding sweep
    ids_of-sweep i [] h = refl
    ids_of-sweep i (r ∷ rs) h = ground (arith, ids_of-sweep i rs, same_id r)

    pub All-sweep :
        (A : Row P → Type 0)
        → ((r : Row P) → hit r ≡ true → A r → A (change r))
        → (rs : List (Row P)) → All A rs
        → All A (sweep hit change rs).0
    unfolding sweep
    All-sweep A f [] h = tt
    All-sweep A f (r ∷ rs) h = elim (Bool-cases (hit r)) [
      | inl e ↦ simp e (f r e h.0, All-sweep A f rs h.1)
      | inr e ↦ simp e (h.0, All-sweep A f rs h.1)
    ]

    abbrev pub SweptAccount : List Event → List (Row P) → Row P → Type 0
    SweptAccount es changed r =
        ids_of r.id changed + events_of r.id es ≡ (if is_pending r.status then 0 else 1)

    account_elsewhere :
        (es : List Event) (changed rs : List (Row P)) (r' : Row P)
        → All (Other r'.id) rs
        → All (SweptAccount es changed) rs
        → All (SweptAccount es (r' ∷ changed)) rs
    account_elsewhere es changed rs r' =
        All-zip (Other r'.id) (SweptAccount es changed) (SweptAccount es (r' ∷ changed))
          (λ r o a. ground arith) rs

    pub account-sweep :
        ((r : Row P) → hit r ≡ true → is_pending r.status ≡ true)
        → ((r : Row P) → is_pending (change r).status ≡ false)
        → (es : List Event) (rs : List (Row P)) → HasDistinctIds rs
        → All (IsAccounted es) rs
        → All (SweptAccount es (sweep hit change rs).1) (sweep hit change rs).0
    unfolding sweep
    account-sweep p n es [] d h = tt
    account-sweep p n es (r ∷ rs) d h =
        let ih = account-sweep p n es rs d.1 h.1 in
        elim (Bool-cases (hit r)) [
          | inl e ↦ simp e (
            ground (arith, same_id r, n r, p r e, ids_of-sweep (change r).id rs),
            account_elsewhere es (sweep hit change rs).1 (sweep hit change rs).0 (change r)
                (others (change r).id (sweep hit change rs).0
                  (ground (arith, has_row-sweep (change r).id rs, same_id r)))
                ih,
          )
          | inr e ↦ simp e (ground (arith, ids_of-sweep r.id rs), ih)
        ]

-- What holds of the service's state between two transactions.
pub record IsConsistent {W P : Type 0} (view : P → View) (s : State W P) : Type 0 where
  pub stored : All (IsStored view) s.rows
  pub distinct : HasDistinctIds s.rows
  pub accounted : All (IsAccounted s.events) s.rows
