-- ===== src/Staff/Codes.antt =====
-- backend/internal/staff/internal/domain/codes.go: recovery and invitation codes, and how typed codes
-- are normalised. A source of randomness is the bytes that it will give. NFKC, strings.ToLower and
-- the category Cf of unicode are arguments.
use wf_all.Prelude.{
  ℕ, zero, suc, ◌%◌, Bool, not, ◌||◌, List, [], ◌∷◌, ◌++◌, map, Option, none, some, Text, codes,
  is_space, text_eq, length, get_elem?, take, drop, any, ltb, between, ◌==◌, if◌then◌else◌,
}

unfoldable pub code_len : ℕ
code_len = 10

unfoldable pub recovery_count : ℕ
recovery_count = 10

abbrev pub code_alphabet : Text
code_alphabet = codes "abcdefghijklmnopqrstuvwxyz234567"

-- An index past the end is a panic in Go; x & 31 is within the alphabet.
abbrev pub char_or_zero : Option ℕ → ℕ
char_or_zero none = 0
char_or_zero (some c) = c

unfoldable pub letter : ℕ → ℕ
letter x = char_or_zero (get_elem? code_alphabet (x % 32))

unfoldable pub letters : List ℕ → Text
unfolding letter
letters bytes = map letter bytes

-- The bytes written as a code: five letters, a dash, five letters.
unfoldable pub code_of : List ℕ → Text
unfolding letters
code_of bytes = letters (take 5 bytes) ++ (45 ∷ letters (drop 5 bytes))

-- The code, and what is left of the source; `none` where io.ReadFull finds too few bytes.
unfoldable pub new_code : List ℕ → Option (Text × List ℕ)
unfolding code_of code_len
new_code rnd =
    if ltb (length rnd) code_len
    then none
    else some (code_of (take code_len rnd), drop code_len rnd)

pub data Generated : Type 0 where
  unread repeated : Generated
  generated : List Text → Generated

unfoldable pub seen : List Text → Text → Bool
seen cs c = any (λ d. text_eq d c) cs

-- The loop of NewRecoveryCodes with `n` codes to go.
unfoldable pub generate : ℕ → List Text → List ℕ → Generated
unfolding new_code seen
generate zero cs rnd = generated cs
generate (suc n) cs rnd = elim (new_code rnd) [
  | none ↦ unread
  | some (c, rest) ↦ if seen cs c then repeated else generate n (cs ++ (c ∷ [])) rest
]

unfoldable pub new_recovery_codes : List ℕ → Generated
unfolding generate recovery_count
new_recovery_codes rnd = generate recovery_count [] rnd

-- isDash.
unfoldable pub is_dash : ℕ → Bool
is_dash c = c == 45 || between 0x2010 0x2015 c || c == 0x2212

unfoldable pub is_letter : ℕ → Bool
is_letter c = between 97 122 c || between 50 55 c

unfoldable pub is_digit : ℕ → Bool
is_digit c = between 48 57 c

unfoldable pub push : ℕ → Option Text → Option Text
push c none = none
push c (some s) = some (c ∷ s)

-- The loop over the runes: those that `skip` passes over, those that `want` keeps, and a refusal of
-- any other.
unfoldable pub filter_runes : (ℕ → Bool) → (ℕ → Bool) → Text → Option Text
unfolding push
filter_runes skip want [] = some []
filter_runes skip want (c ∷ s) =
    let rest = filter_runes skip want s in
    if skip c then rest else if want c then push c rest else none

unfoldable pub of_length : ℕ → Option Text → Option Text
of_length n none = none
of_length n (some s) = if not (length s == n) then none else some s

unfoldable pub is_filler : (ℕ → Bool) → ℕ → Bool
unfolding is_space
is_filler is_cf c = is_space c || is_cf c

-- normalizeCode, which NormalizeRecoveryCode and NormalizeInviteCode are.
unfoldable pub normalize_recovery_code :
    (nfkc lower : Text → Text) → (ℕ → Bool) → Text → Option Text
unfolding is_filler is_dash is_letter filter_runes of_length code_len
normalize_recovery_code nfkc lower is_cf s =
    of_length code_len
      (filter_runes (λ c. is_filler is_cf c || is_dash c) is_letter (lower (nfkc s)))

-- NormalizeCode: the six digits of a TOTP code.
unfoldable pub normalize_code : (nfkc : Text → Text) → (ℕ → Bool) → Text → Option Text
unfolding is_filler is_digit filter_runes of_length
normalize_code nfkc is_cf s = of_length 6 (filter_runes (is_filler is_cf) is_digit (nfkc s))
