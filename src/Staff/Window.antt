-- ===== src/Staff/Window.antt =====
-- Which TOTP codes are accepted, and at which step.
use wf_all.Prelude.{
  ℕ, ◌≡◌, ◌≢◌, ◌⊎◌, refl, inl, inr, Bool, true, false, List, Option, none, some, Text, text_eq_iff,
  arith, Bool-cases,
}
use wf_all.Prelude.Int.{ℤ, pos, negsuc, ltb_ℤ, add_ℤ}
use wf_all.Staff.Codes.{normalize_code}
use wf_all.Staff.Totp.{totp_step, totp_code, accepts, turn, scan, verify_totp}

-- The typed code is that of step `s`, which is later than the last one used.
IsFresh : (List ℕ → List ℕ → List ℕ) → List ℕ → Option Text → ℤ → ℤ → Type 0
IsFresh mac secret typed last s = (typed ≡ some (totp_code mac secret s)) × (ltb_ℤ last s ≡ true)

IsStale : (List ℕ → List ℕ → List ℕ) → List ℕ → Option Text → ℤ → ℤ → Type 0
IsStale mac secret typed last s = (typed ≢ some (totp_code mac secret s)) ⊎ (ltb_ℤ last s ≡ false)

-- The verdict on a window of three steps: the first fresh one, or that none of them is.
unfoldable pub Verdict :
    (List ℕ → List ℕ → List ℕ) → List ℕ → Option Text → ℤ → ℤ → ℤ → ℤ → Option ℤ → Type 0
unfolding IsFresh IsStale
Verdict mac secret typed last a b c (some s) =
    IsFresh mac secret typed last s × ((s ≡ a) ⊎ (s ≡ b) ⊎ (s ≡ c))
Verdict mac secret typed last a b c none =
    IsStale mac secret typed last a
    × IsStale mac secret typed last b
    × IsStale mac secret typed last c

module _ (mac : List ℕ → List ℕ → List ℕ) (secret : List ℕ) (code : Text) (last : ℤ) where
  accepts-IsFresh :
      (s : ℤ) → accepts mac secret code last s ≡ true → IsFresh mac secret (some code) last s
  unfolding accepts IsFresh
  accepts-IsFresh s h = ground (arith, text_eq_iff (totp_code mac secret s) code)

  rejects-IsStale :
      (s : ℤ) → accepts mac secret code last s ≡ false → IsStale mac secret (some code) last s
  unfolding accepts IsStale
  rejects-IsStale s h = ground (arith, text_eq_iff (totp_code mac secret s) code)

  turns-Verdict :
      (a b c : ℤ)
      → Verdict mac secret (some code) last a b c (
          turn mac secret code last c
            (turn mac secret code last b (turn mac secret code last a none)))
  unfolding turn Verdict
  turns-Verdict a b c = elim (Bool-cases (accepts mac secret code last a)) [
    | inl x ↦ rw x (accepts-IsFresh a x, inl refl)
    | inr x ↦ elim (Bool-cases (accepts mac secret code last b)) [
      | inl y ↦ rw (x, y) (accepts-IsFresh b y, inr (inl refl))
      | inr y ↦ elim (Bool-cases (accepts mac secret code last c)) [
        | inl z ↦ rw (x, y, z) (accepts-IsFresh c z, inr (inr refl))
        | inr z ↦ rw (x, y, z) (rejects-IsStale a x, rejects-IsStale b y, rejects-IsStale c z)
      ]
    ]
  ]

scan-Verdict :
    (mac : List ℕ → List ℕ → List ℕ) (secret : List ℕ) (cur last : ℤ) (o : Option Text)
    → Verdict mac secret o last
        (add_ℤ cur (negsuc 0))
        cur
        (add_ℤ cur (pos 1))
        (scan mac secret cur last o)
unfolding scan Verdict
scan-Verdict mac secret cur last none =
    (inl (λ e. ground arith), inl (λ e. ground arith), inl (λ e. ground arith))
scan-Verdict mac secret cur last (some code) =
    turns-Verdict mac secret code last (add_ℤ cur (negsuc 0)) cur (add_ℤ cur (pos 1))

-- VerifyTOTP accepts a code only as that of a step from the one before to the one after the current
-- one, later than the last step used; and it refuses a code only
-- if no such step has it. For any HMAC and any normalisation of what was typed.
pub verify_totp-Verdict :
    (mac : List ℕ → List ℕ → List ℕ) (nfkc : Text → Text) (is_cf : ℕ → Bool) (secret : List ℕ)
    (code : Text) (now : ℕ) (last : ℤ)
    → let cur = totp_step now in
      Verdict mac secret
        (normalize_code nfkc is_cf code)
        last
        (add_ℤ cur (negsuc 0))
        cur
        (add_ℤ cur (pos 1))
        (verify_totp mac nfkc is_cf secret code now last)
unfolding verify_totp
verify_totp-Verdict mac nfkc is_cf secret code now last =
    scan-Verdict mac secret (totp_step now) last (normalize_code nfkc is_cf code)

Verdict-later :
    (mac : List ℕ → List ℕ → List ℕ) (secret : List ℕ) (typed : Option Text) (last a b c : ℤ)
    (o : Option ℤ) (s : ℤ)
    → Verdict mac secret typed last a b c o
    → o ≡ some s
    → ltb_ℤ last s ≡ true
unfolding Verdict IsFresh
Verdict-later mac secret typed last a b c none s h e = absurd (ground (arith, e))
Verdict-later mac secret typed last a b c (some t) s h e = ground (arith, e, h.0)

-- A step that is accepted is later than the last one used.
pub verify_totp-later :
    (mac : List ℕ → List ℕ → List ℕ) (nfkc : Text → Text) (is_cf : ℕ → Bool) (secret : List ℕ)
    (code : Text) (now : ℕ) (last s : ℤ)
    → verify_totp mac nfkc is_cf secret code now last ≡ some s
    → ltb_ℤ last s ≡ true
verify_totp-later mac nfkc is_cf secret code now last s e =
    Verdict-later mac secret (normalize_code nfkc is_cf code) last _ _ _ _ s
      (verify_totp-Verdict mac nfkc is_cf secret code now last) e
