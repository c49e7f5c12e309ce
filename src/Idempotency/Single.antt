-- ===== src/Idempotency/Single.antt =====
-- The claim of a request lets one transaction of its handler commit.
use wf_all.Prelude.{
  ℕ, ◌+◌, ◌≡◌, inl, inr, refl, Bool, true, false, not, ◌||◌, Option, none, some, if◌then◌else◌,
  Bool-cases, arith,
}
use wf_all.Idempotency.{
  Keys, Claim, ClaimState, TxEnv, Problem, in_progress, is_none, Hooked, refused, stuck, claimed,
  hook, after_claim, settle,
}
use wf_all.Idempotency.Handler.{Handler, answer, transact, TxEnd, in_tx, after_hook, close, run}

-- A state of a claim between transactions, `k` actions having been there at the start.
pub record Keeps (k m : ℕ) (st : ClaimState) : Type 0 where
  pub settled : st.pending ≡ false
  pub counted : m ≡ (if st.committed then k + 1 else k)
  pub apart : is_none st.conflict ≡ false → st.committed ≡ false

-- What the hook leaves of such a state.
abbrev Leaves : (k m : ℕ) → Hooked → Type 0
Leaves k m (refused st p) = Keeps k m st
Leaves k m (stuck st p) = (m ≡ k) × (is_none st.conflict ≡ true)
Leaves k m (claimed st keys) = (m ≡ k) × (is_none st.conflict ≡ true)

conflict-Keeps :
    (k m : ℕ) (st : ClaimState) (p : Problem)
    → Keeps k m st
    → st.committed ≡ false
    → Keeps k m (record st { conflict = some p })
conflict-Keeps k m st p h e = record { settled = h.settled; counted = h.counted; apart = λ _. e }

after_claim-Leaves :
    (env : TxEnv) (c : Claim) (st : ClaimState) (keys : Keys) (o : Option Keys) (k m : ℕ)
    → Keeps k m st
    → st.committed ≡ false
    → is_none st.conflict ≡ true
    → Leaves k m (after_claim env c st keys o)
unfolding after_claim
after_claim-Leaves env c st keys none k m h e g = conflict-Keeps k m st _ h e
after_claim-Leaves env c st keys (some keys') k m h e g = elim (Bool-cases (env.broken 4)) [
  | inl b ↦ rw b (ground (arith, e, h.counted), g)
  | inr b ↦ rw b (ground (arith, e, h.counted), g)
]

hook-Leaves :
    (env : TxEnv) (c : Claim) (st : ClaimState) (keys : Keys) (k m : ℕ)
    → Keeps k m st
    → Leaves k m (hook env c st keys)
unfolding hook
hook-Leaves env c st keys k m h =
    elim (Bool-cases (st.pending || st.committed || not (is_none st.conflict))) [
      | inl a ↦ rw a h
      | inr a ↦
          let free : (st.committed ≡ false) × (is_none st.conflict ≡ true) = free_lem _ _ _ a in
          rw a (elim (Bool-cases (env.broken 0 || env.broken 1)) [
            | inl b ↦ rw b h
            | inr b ↦ rw b (elim (Bool-cases env.lock_timeout) [
              | inl d ↦ rw d (conflict-Keeps k m st in_progress h free.0)
              | inr d ↦ rw d (elim (Bool-cases (env.broken 2)) [
                | inl x ↦ rw x h
                | inr x ↦ rw x (after_claim-Leaves env c st keys _ k m h free.0 free.1)
              ])
            ])
          ])
    ]
  where
    free_lem : (a b c : Bool) → (a || b || not c) ≡ false → (b ≡ false) × (c ≡ true)
    free_lem a b c h = ground arith

module _ {W : Type 0} (n : W → ℕ) where
  -- Each transaction of a handler that succeeds is one action.
  abbrev pub Adds : Handler W → Type 0
  Adds (answer b) = Unit
  Adds (transact env f next) =
      ((w w' : W) → f w ≡ some w' → n w' ≡ n w + 1) × ((e : TxEnd) → Adds (next e))

  settled-Keeps :
      (k m : ℕ) (st : ClaimState) (b : Bool)
      → m ≡ (if b then k + 1 else k)
      → is_none st.conflict ≡ true
      → Keeps k m (settle b st)
  unfolding settle
  settled-Keeps k m st b h g = record {
    settled = refl;
    counted = h;
    apart = λ x. absurd (ground (arith, x, g));
  }

  close-Keeps :
      (env : TxEnv) (st : ClaimState) (keys keys' : Keys) (k : ℕ) (w : W) (o : Option W)
      → ((w' : W) → o ≡ some w' → n w' ≡ n w + 1)
      → n w ≡ k
      → is_none st.conflict ≡ true
      → let ((_, w'), st', e) = close env st keys keys' w o in Keeps k (n w') st'
  unfolding close
  close-Keeps env st keys keys' k w none f h g = settled-Keeps k (n w) st false h g
  close-Keeps env st keys keys' k w (some w') f h g = elim (Bool-cases env.commit_fails) [
    | inl a ↦ rw a (settled-Keeps k (n w) st false h g)
    | inr a ↦ rw a (settled-Keeps k (n w') st true (omega (arith, f w' refl)) g)
  ]

  after_hook-Keeps :
      (env : TxEnv) (keys : Keys) (f : W → Option W) (k : ℕ) (w : W) (o : Hooked)
      → ((w w' : W) → f w ≡ some w' → n w' ≡ n w + 1)
      → Leaves k (n w) o
      → let ((_, w'), st', e) = after_hook env keys f w o in Keeps k (n w') st'
  unfolding after_hook
  after_hook-Keeps env keys f k w (refused st p) a h = h
  after_hook-Keeps env keys f k w (stuck st p) a h = settled-Keeps k (n w) st false h.0 h.1
  after_hook-Keeps env keys f k w (claimed st keys') a h =
      close-Keeps env st keys keys' k w (f w) (a w) h.0 h.1

  in_tx-Keeps :
      (env : TxEnv) (c : Claim) (f : W → Option W) (st : ClaimState) (keys : Keys) (k : ℕ) (w : W)
      → ((w w' : W) → f w ≡ some w' → n w' ≡ n w + 1)
      → Keeps k (n w) st
      → let ((_, w'), st', e) = in_tx env c f st keys w in Keeps k (n w') st'
  unfolding in_tx
  in_tx-Keeps env c f st keys k w a h = elim (Bool-cases env.begin_fails) [
    | inl b ↦ rw b h
    | inr b ↦ rw b (
        after_hook-Keeps env (env.others keys) f k w _ a
          (hook-Leaves env c st (env.others keys) k (n w) h))
  ]

  pub run-Keeps :
      (c : Claim) (h : Handler W) (st : ClaimState) (keys : Keys) (k : ℕ) (w : W)
      → Adds h
      → Keeps k (n w) st
      → let ((_, w'), st', b) = run c h st keys w in Keeps k (n w') st'
  unfolding run
  run-Keeps c (answer b) st keys k w a h = h
  run-Keeps c (transact env f next) st keys k w a h =
      let ((keys', w'), st', e) = in_tx env c f st keys w in
      run-Keeps c (next e) st' keys' k w' (a.1 e) (in_tx-Keeps env c f st keys k w a.0 h)
