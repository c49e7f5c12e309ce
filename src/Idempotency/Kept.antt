-- ===== src/Idempotency/Kept.antt =====
-- The row of a claim stays with the claim through the transactions of a handler.
use wf_all.Prelude.{
  ℕ, ◌+◌, ◌≡◌, ◌≤◌, inl, inr, refl, sym, subst, ◌∙◌, true, not, ◌||◌, Option, none, some,
  Bool-cases, arith,
}
use wf_all.Idempotency.{
  Saved, Keys, Claim, ClaimState, TxEnv, key_ttl, is_none, Hooked, refused, stuck, claimed, hook,
  after_claim, settle,
}
use wf_all.Idempotency.Handler.{Handler, answer, transact, TxEnd, in_tx, after_hook, close, run}
use wf_all.Idempotency.Rows.{row_of, Holds, Held, Claims, claim_row-Claims}

-- What others do to the keys leaves the row of a claim.
abbrev pub Leaves : Claim → (Keys → Keys) → Type 0
Leaves c g =
    (keys : Keys) → row_of c.subject c.claim_key (g keys) ≡ row_of c.subject c.claim_key keys

pub left-Held :
    (c : Claim) (until : ℕ) (o : Option Saved) (g : Keys → Keys) (keys : Keys)
    → Leaves c g
    → Held c until o keys
    → Held c until o (g keys)
left-Held c until o g keys l h = subst (Holds c until o) (sym (l keys)) h

abbrev pub Claimed : Claim → ℕ → ClaimState → Hooked → Type 0
Claimed c until st (refused st' p) = st'.committed ≡ st.committed
Claimed c until st (stuck st' p) = Unit
Claimed c until st (claimed st' keys) = Held c until none keys

pub after_claim-Claimed :
    (env : TxEnv) (c : Claim) (st : ClaimState) (keys : Keys) (o : Option Keys) (until : ℕ)
    → Claims c until o
    → Claimed c until st (after_claim env c st keys o)
unfolding after_claim
after_claim-Claimed env c st keys none until h = refl
after_claim-Claimed env c st keys (some keys') until h = elim (Bool-cases (env.broken 4)) [
  | inl b ↦ rw b tt
  | inr b ↦ rw b h
]

pub hook-Claimed :
    (env : TxEnv) (c : Claim) (st : ClaimState) (keys : Keys) (until : ℕ)
    → until ≤ env.now + key_ttl
    → Claimed c until st (hook env c st keys)
unfolding hook
hook-Claimed env c st keys until l =
    elim (Bool-cases (st.pending || st.committed || not (is_none st.conflict))) [
      | inl a ↦ rw a refl
      | inr a ↦ rw a (elim (Bool-cases (env.broken 0 || env.broken 1)) [
        | inl b ↦ rw b refl
        | inr b ↦ rw b (elim (Bool-cases env.lock_timeout) [
          | inl d ↦ rw d refl
          | inr d ↦ rw d (elim (Bool-cases (env.broken 2)) [
            | inl x ↦ rw x refl
            | inr x ↦ rw x (
                after_claim-Claimed env c st keys _ until (claim_row-Claims env.now c keys until l))
          ])
        ])
      ])
    ]

-- The row is there once the claim is committed.
abbrev pub Kept : Claim → ℕ → ClaimState → Keys → Type 0
Kept c until st keys = st.committed ≡ true → Held c until none keys

module _ {W : Type 0} where
  -- The transactions of a handler are at `from` or later, and meet no other use of the key.
  abbrev pub IsAlone : Claim → ℕ → Handler W → Type 0
  IsAlone c from (answer b) = Unit
  IsAlone c from (transact env f next) =
      (from ≤ env.now) × Leaves c env.others × ((e : TxEnd) → IsAlone c from (next e))

  pub close-Kept :
      (env : TxEnv) (c : Claim) (st : ClaimState) (keys keys' : Keys) (until : ℕ) (w : W)
      (o : Option W)
      → Held c until none keys'
      → let ((ks, _), st', e) = close env st keys keys' w o in Kept c until st' ks
  unfolding close settle
  close-Kept env c st keys keys' until w none h = λ x. absurd (ground arith)
  close-Kept env c st keys keys' until w (some w') h = elim (Bool-cases env.commit_fails) [
    | inl a ↦ rw a (λ x. absurd (ground arith))
    | inr a ↦ rw a (λ x. h)
  ]

  pub after_hook-Kept :
      (env : TxEnv) (c : Claim) (st : ClaimState) (keys : Keys) (f : W → Option W) (until : ℕ)
      (w : W) (o : Hooked)
      → Kept c until st keys
      → Claimed c until st o
      → let ((ks, _), st', e) = after_hook env keys f w o in Kept c until st' ks
  unfolding after_hook settle
  after_hook-Kept env c st keys f until w (refused st' p) k h = λ x. k (sym h ∙ x)
  after_hook-Kept env c st keys f until w (stuck st' p) k h = λ x. absurd (ground arith)
  after_hook-Kept env c st keys f until w (claimed st' keys') k h =
      close-Kept env c st' keys keys' until w (f w) h

  pub in_tx-Kept :
      (env : TxEnv) (c : Claim) (f : W → Option W) (st : ClaimState) (keys : Keys) (until : ℕ)
      (w : W)
      → until ≤ env.now + key_ttl
      → Leaves c env.others
      → Kept c until st keys
      → let ((ks, _), st', e) = in_tx env c f st keys w in Kept c until st' ks
  unfolding in_tx
  in_tx-Kept env c f st keys until w l o k =
      let kept : Kept c until st (env.others keys) =
        λ x. left-Held c until none env.others keys o (k x) in
      elim (Bool-cases env.begin_fails) [
        | inl b ↦ rw b kept
        | inr b ↦ rw b (
            after_hook-Kept env c st (env.others keys) f until w _ kept
              (hook-Claimed env c st (env.others keys) until l))
      ]

  pub run-Kept :
      (c : Claim) (h : Handler W) (from : ℕ) (st : ClaimState) (keys : Keys) (w : W)
      → IsAlone c from h
      → Kept c (from + key_ttl) st keys
      → let ((ks, _), st', b) = run c h st keys w in Kept c (from + key_ttl) st' ks
  unfolding run
  run-Kept c (answer b) from st keys w a k = k
  run-Kept c (transact env f next) from st keys w a k =
      let ((keys', w'), st', e) = in_tx env c f st keys w in
      run-Kept c (next e) from st' keys' w' (a.2 e)
        (in_tx-Kept env c f st keys (from + key_ttl) w (omega (arith, a.0)) a.1 k)
