-- ===== src/Staff/Generations.antt =====
-- A generation of recovery codes: ten distinct codes.
use wf_all.Prelude.{
  ℕ, zero, suc, ◌+◌, ◌≤◌, ◌≡◌, refl, ap, false, ◌||◌, List, [], ◌∷◌, ◌++◌, some, Text, length, take,
  ltb, All, arith, text_eq, text_eq_iff, Bool-cases, Option-cases, subst, inl, inr, length-append,
}
use wf_all.Staff.Codes.{
  code_of, new_code, code_len, recovery_count, seen, generate, generated, Generated,
  new_recovery_codes, unread, repeated,
}

-- A code of ten bytes.
unfoldable pub IsCode : Text → Type 0
IsCode c = (bytes : List ℕ) × (c ≡ code_of bytes) × (length bytes ≡ 10)

-- No code stands twice.
unfoldable pub AreDistinct : List Text → Type 0
AreDistinct [] = Unit
AreDistinct (c ∷ cs) = (seen cs c ≡ false) × AreDistinct cs

-- `n` distinct codes.
unfoldable pub IsGeneration : ℕ → List Text → Type 0
unfolding IsCode AreDistinct
IsGeneration n cs = (length cs ≡ n) × AreDistinct cs × All IsCode cs

seen-append : (cs : List Text) (c d : Text) → seen (cs ++ (d ∷ [])) c ≡ (seen cs c || text_eq d c)
unfolding seen
seen-append [] c d = ground arith
seen-append (x ∷ cs) c d = ground (arith, seen-append cs c d)

append-AreDistinct :
    (cs : List Text) (d : Text) → AreDistinct cs → seen cs d ≡ false → AreDistinct (cs ++ (d ∷ []))
unfolding AreDistinct seen
append-AreDistinct [] d h f = (refl, tt)
append-AreDistinct (c ∷ cs) d h f = (
  ground (arith, seen-append cs c d, h.0, text_eq_iff c d, text_eq_iff d c),
  append-AreDistinct cs d h.1 (ground arith),
)

All-append : (cs : List Text) (d : Text) → All IsCode cs → IsCode d → All IsCode (cs ++ (d ∷ []))
All-append [] d h g = (g, tt)
All-append (c ∷ cs) d h g = (h.0, All-append cs d h.1 g)

append-IsGeneration :
    (n : ℕ) (cs : List Text) (d : Text)
    → IsGeneration n cs
    → IsCode d
    → seen cs d ≡ false
    → IsGeneration (suc n) (cs ++ (d ∷ []))
unfolding IsGeneration
append-IsGeneration n cs d h g f = (
  omega (arith, h.0, length-append cs (d ∷ [])),
  append-AreDistinct cs d h.1 f,
  All-append cs d h.2 g,
)

length-take-ten : (xs : List ℕ) (n : ℕ) → n ≤ length xs → length (take n xs) ≡ n
length-take-ten xs zero h = refl
length-take-ten [] (suc n) h = absurd (omega arith)
length-take-ten (x ∷ xs) (suc n) h = ap suc (length-take-ten xs n (omega arith))

new_code-IsCode : (rnd rest : List ℕ) (c : Text) → new_code rnd ≡ some (c, rest) → IsCode c
unfolding new_code IsCode code_len
new_code-IsCode rnd rest c h = elim (Bool-cases (ltb (length rnd) 10)) [
  | inl e ↦ absurd (ground arith)
  | inr e ↦ (take 10 rnd, ground arith, length-take-ten rnd 10 (ground arith))
]

-- What a result of the loop holds.
abbrev Generates : ℕ → Generated → Type 0
Generates n unread = Unit
Generates n repeated = Unit
Generates n (generated cs) = IsGeneration n cs

generate-Generates :
    (m n k : ℕ) (cs : List Text) (rnd : List ℕ)
    → n + k ≡ m
    → IsGeneration k cs
    → Generates m (generate n cs rnd)
unfolding generate
generate-Generates m zero k cs rnd e h = subst (λ i. IsGeneration i cs) (omega arith) h
generate-Generates m (suc n) k cs rnd e h = elim (Option-cases (new_code rnd)) [
  | inl fail ↦ rw (fail, generate) tt
  | inr (r, read) ↦
      rw (read, generate)
        (elim (Bool-cases (seen cs r.0)) [
          | inl twice ↦ rw twice tt
          | inr fresh ↦ rw fresh (
              generate-Generates m n (suc k) (cs ++ (r.0 ∷ [])) r.1 (omega arith)
                (append-IsGeneration k cs r.0 h (new_code-IsCode rnd r.1 r.0 read) fresh))
        ])
]

-- The codes that NewRecoveryCodes returns, whatever its source of randomness gives, are ten, all
-- different, and each of them is five letters, a dash and five letters made of ten bytes.
pub new_recovery_codes-IsGeneration :
    (rnd : List ℕ) (cs : List Text) → new_recovery_codes rnd ≡ generated cs → IsGeneration 10 cs
unfolding new_recovery_codes recovery_count IsGeneration
new_recovery_codes-IsGeneration rnd cs h =
    subst (Generates 10) h (generate-Generates 10 10 0 [] rnd (omega arith) (refl, tt, tt))
