-- ===== src/Idempotency/Rows.antt =====
-- The row of a claim among the keys: what Claim, SaveResponse and Get make of it.
use wf_all.Prelude.{
  ℕ, ◌+◌, ◌≡◌, ◌<◌, ◌≤◌, inl, inr, refl, ap, subst, ◌∙◌, true, false, [], ◌∷◌, Option, none, some,
  Text, text_eq, text_eq_refl, ltb, leb, if◌then◌else◌, Bool-cases, arith,
}
use wf_all.Idempotency.{
  Saved, Keys, KeyRow, Claim, key_ttl, is_row, new_row, add_row, is_unsaved, get_key, claim_row,
  set_response,
}

-- The row of a key, run out or not.
abbrev pub row_of : ℕ → Text → Keys → Option KeyRow
row_of user key [] = none
row_of user key (r ∷ rs) = if is_row user key r then some r else row_of user key rs

-- The row of a claim with a response, which does not run out before `until`.
abbrev pub Holds : Claim → ℕ → Option Saved → Option KeyRow → Type 0
Holds c until o none = 1 ≤ 0
Holds c until o (some r) =
    (r.hash ≡ c.claim_hash)
    × (r.response ≡ o)
    × (until ≤ r.expires_at)
    × (is_row c.subject c.claim_key r ≡ true)

abbrev pub Held : Claim → ℕ → Option Saved → Keys → Type 0
Held c until o keys = Holds c until o (row_of c.subject c.claim_key keys)

abbrev pub Claims : Claim → ℕ → Option Keys → Type 0
Claims c until none = Unit
Claims c until (some keys) = Held c until none keys

pub new_row-Held :
    (now : ℕ) (c : Claim) (rs : Keys) (until : ℕ)
    → until ≤ now + key_ttl
    → Held c until none (new_row now c ∷ rs)
unfolding new_row is_row
new_row-Held now c rs until l = ground (arith, text_eq_refl c.claim_key)

pub add_row-Claims :
    (c : Claim) (until : ℕ) (r : KeyRow) (o : Option Keys)
    → is_row c.subject c.claim_key r ≡ false
    → Claims c until o
    → Claims c until (add_row r o)
add_row-Claims c until r none e h = tt
add_row-Claims c until r (some rs) e h = rw e h

pub claim_row-Claims :
    (now : ℕ) (c : Claim) (keys : Keys) (until : ℕ)
    → until ≤ now + key_ttl
    → Claims c until (claim_row now c keys)
unfolding claim_row
claim_row-Claims now c [] until l = new_row-Held now c [] until l
claim_row-Claims now c (r ∷ rs) until l = elim (Bool-cases (is_row c.subject c.claim_key r)) [
  | inl e ↦ rw e (elim (Bool-cases (leb r.expires_at now)) [
    | inl g ↦ rw g (new_row-Held now c rs until l)
    | inr g ↦ rw g tt
  ])
  | inr e ↦ rw e (add_row-Claims c until r _ e (claim_row-Claims now c rs until l))
]

pub first-Holds :
    (c : Claim) (until : ℕ) (o : Option Saved) (r : KeyRow) (rs : Keys)
    → is_row c.subject c.claim_key r ≡ true
    → Held c until o (r ∷ rs)
    → Holds c until o (some r)
first-Holds c until o r rs e h =
    subst (λ b. Holds c until o (if b then some r else row_of c.subject c.claim_key rs)) e h

pub rest-Held :
    (c : Claim) (until : ℕ) (o : Option Saved) (r : KeyRow) (rs : Keys)
    → is_row c.subject c.claim_key r ≡ false
    → Held c until o (r ∷ rs)
    → Held c until o rs
rest-Held c until o r rs e h =
    subst (λ b. Holds c until o (if b then some r else row_of c.subject c.claim_key rs)) e h

pub same_hash : (a b : Text) → a ≡ b → text_eq a b ≡ true
same_hash a b e = subst (λ t. text_eq a t ≡ true) e (text_eq_refl a)

pub saved-is_row :
    (c : Claim) (s : Saved) (r : KeyRow)
    → is_row c.subject c.claim_key (record r { response = some s }) ≡ is_row c.subject c.claim_key r
unfolding is_row
saved-is_row c s r = refl

pub set_response-Held :
    (c : Claim) (s : Saved) (keys : Keys) (until : ℕ)
    → Held c until none keys
    → Held c until (some s) (set_response c s keys)
unfolding set_response
set_response-Held c s [] until h = h
set_response-Held c s (r ∷ rs) until h = elim (Bool-cases (is_row c.subject c.claim_key r)) [
  | inl e ↦
      let here = first-Holds c until none r rs e h in
      rw (e, same_hash r.hash c.claim_hash here.0, ap is_unsaved here.1)
        (rw (saved-is_row c s r ∙ e) (here.0, refl, here.2, saved-is_row c s r ∙ e))
  | inr e ↦ rw e (rw e (set_response-Held c s rs until (rest-Held c until none r rs e h)))
]

pub get_key-Held :
    (now : ℕ) (c : Claim) (o : Option Saved) (keys : Keys) (until : ℕ)
    → Held c until o keys
    → now < until
    → (r : KeyRow) × (get_key now c.subject c.claim_key keys ≡ some r)
      × (r.hash ≡ c.claim_hash)
      × (r.response ≡ o)
unfolding get_key
get_key-Held now c o [] until h l = absurd (omega (arith, h))
get_key-Held now c o (r ∷ rs) until h l = elim (Bool-cases (is_row c.subject c.claim_key r)) [
  | inl e ↦
      let here = first-Holds c until o r rs e h in
      let lives : ltb now r.expires_at ≡ true = ground (arith, here.2) in
      rw (e, lives) (r, refl, here.0, here.1)
  | inr e ↦ rw e (get_key-Held now c o rs until (rest-Held c until o r rs e h) l)
]
