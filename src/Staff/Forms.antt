-- ===== src/Staff/Forms.antt =====
-- The forms of the codes: what normalisation returns, and that it reads back what is generated.
use wf_all.Prelude.{
  ℕ, zero, suc, ◌%◌, ◌<◌, ◌≡◌, refl, ap, ◌∙◌, Bool, true, false, not, ◌&&◌, ◌||◌, List, [], ◌∷◌,
  ◌++◌, Option, none, some, Text, length, get_elem?, take, drop, all, ltb, between, arith,
}
use wf_all.Staff.Codes.{
  letter, letters, code_of, char_or_zero, code_alphabet, is_dash, is_letter, filter_runes, push,
  of_length, is_filler, code_len, normalize_recovery_code,
}

abbrev is_plain : ℕ → Bool
is_plain c = ltb c 128 && not (between 65 90 c)

-- What the source relies on of NFKC and strings.ToLower: ASCII without capitals stays as it is.
unfoldable pub FixesPlain : (Text → Text) → Type 0
FixesPlain f = (s : Text) → all is_plain s ≡ true → f s ≡ s

-- And of the category Cf: nothing of ASCII is in it.
unfoldable pub IsFormat : (ℕ → Bool) → Type 0
IsFormat is_cf = (c : ℕ) → c < 128 → is_cf c ≡ false

abbrev all_of : (ℕ → Bool) → Option Text → Bool
all_of p none = true
all_of p (some s) = all p s

all_of-push :
    (p : ℕ → Bool) (c : ℕ) (o : Option Text)
    → p c ≡ true
    → all_of p o ≡ true
    → all_of p (push c o) ≡ true
unfolding push
all_of-push p c none h g = refl
all_of-push p c (some s) h g = ground arith

all_of-filter_runes :
    (skip want : ℕ → Bool) (s : Text) → all_of want (filter_runes skip want s) ≡ true
unfolding filter_runes
all_of-filter_runes skip want [] = refl
all_of-filter_runes skip want (c ∷ s) =
    ground (arith, all_of-push want c (filter_runes skip want s), all_of-filter_runes skip want s)

of_length-eq : (n : ℕ) (s : Text) → length s ≡ n → of_length n (some s) ≡ some s
unfolding of_length
of_length-eq n s h = ground arith

-- A normal form: of this length, with only these characters.
pub of_length-all :
    (n : ℕ) (p : ℕ → Bool) (o : Option Text) (t : Text)
    → all_of p o ≡ true
    → of_length n o ≡ some t
    → (length t ≡ n) × (all p t ≡ true)
unfolding of_length
of_length-all n p none t h e = absurd (ground arith)
of_length-all n p (some s) t h e = ground arith

filter_runes-kept :
    (skip want : ℕ → Bool) (s : Text)
    → all want s ≡ true
    → ((c : ℕ) → want c ≡ true → skip c ≡ false)
    → filter_runes skip want s ≡ some s
unfolding filter_runes push
filter_runes-kept skip want [] h d = refl
filter_runes-kept skip want (c ∷ s) h d = ground (arith, filter_runes-kept skip want s, d c)

filter_runes-dashed :
    (skip want : ℕ → Bool) (a b : Text)
    → all want a ≡ true
    → all want b ≡ true
    → ((c : ℕ) → want c ≡ true → skip c ≡ false)
    → skip 45 ≡ true
    → filter_runes skip want (a ++ (45 ∷ b)) ≡ some (a ++ b)
unfolding filter_runes push
filter_runes-dashed skip want [] b h g d k = rw k (filter_runes-kept skip want b g d)
filter_runes-dashed skip want (c ∷ a) b h g d k =
    ground (arith, filter_runes-dashed skip want a b, d c)

get_elem?-all :
    (p : ℕ → Bool) (xs : Text) (i : ℕ)
    → all p xs ≡ true
    → i < length xs
    → p (char_or_zero (get_elem? xs i)) ≡ true
get_elem?-all p [] i h l = absurd (omega arith)
get_elem?-all p (x ∷ xs) zero h l = ground arith
get_elem?-all p (x ∷ xs) (suc i) h l = ground (arith, get_elem?-all p xs i)

letter-is_letter : (x : ℕ) → is_letter (letter x) ≡ true
unfolding letter is_letter
letter-is_letter x = get_elem?-all is_letter code_alphabet (x % 32) refl (omega arith)

letter-plain : (c : ℕ) → is_letter c ≡ true → is_plain c ≡ true
unfolding is_letter
letter-plain c h = ground arith

all_mono :
    (p q : ℕ → Bool)
    → ((c : ℕ) → p c ≡ true → q c ≡ true)
    → (s : Text) → all p s ≡ true
    → all q s ≡ true
all_mono p q f [] h = refl
all_mono p q f (c ∷ s) h = ground (arith, f c, all_mono p q f s)

all-append : (p : ℕ → Bool) (a b : Text) → all p a ≡ true → all p b ≡ true → all p (a ++ b) ≡ true
all-append p [] b h g = g
all-append p (c ∷ a) b h g = ground (arith, all-append p a b)

letters-all : (bytes : List ℕ) → all is_letter (letters bytes) ≡ true
unfolding letters
letters-all [] = refl
letters-all (x ∷ bytes) = ground (arith, letter-is_letter x, letters-all bytes)

length-letters : (bytes : List ℕ) → length (letters bytes) ≡ length bytes
unfolding letters
length-letters [] = refl
length-letters (x ∷ bytes) = ap suc (length-letters bytes)

letters-split :
    (n : ℕ) (bytes : List ℕ) → letters (take n bytes) ++ letters (drop n bytes) ≡ letters bytes
unfolding letters
letters-split zero bytes = refl
letters-split (suc n) [] = refl
letters-split (suc n) (x ∷ bytes) = ap (λ s. letter x ∷ s) (letters-split n bytes)

letter-kept :
    (is_cf : ℕ → Bool)
    → IsFormat is_cf
    → (c : ℕ) → is_letter c ≡ true
    → (is_filler is_cf c || is_dash c) ≡ false
unfolding is_letter is_filler is_dash IsFormat
letter-kept is_cf f c h = ground (arith, f c)

dash-skipped : (is_cf : ℕ → Bool) → (is_filler is_cf 45 || is_dash 45) ≡ true
unfolding is_filler is_dash
dash-skipped is_cf = ground arith

module _ (nfkc lower : Text → Text) (is_cf : ℕ → Bool) where
  -- A code that was generated, shown with its dash, is read back as its ten letters: for
  -- normalisations that leave ASCII without capitals as it is, and no ASCII in the category Cf.
  pub normalize-code_of :
      FixesPlain nfkc
      → FixesPlain lower
      → IsFormat is_cf
      → (bytes : List ℕ) → length bytes ≡ 10
      → normalize_recovery_code nfkc lower is_cf (code_of bytes) ≡ some (letters bytes)
  unfolding normalize_recovery_code code_of of_length code_len FixesPlain
  normalize-code_of fn fl f bytes l =
      let a = letters (take 5 bytes) in
      let b = letters (drop 5 bytes) in
      let plain : all is_plain (a ++ (45 ∷ b)) ≡ true =
        all-append is_plain a (45 ∷ b)
          (all_mono is_letter is_plain letter-plain a (letters-all (take 5 bytes)))
          (all_mono is_letter is_plain letter-plain b (letters-all (drop 5 bytes))) in
      rw
        (
          fn (a ++ (45 ∷ b)) plain,
          fl (a ++ (45 ∷ b)) plain,
          filter_runes-dashed (λ c. is_filler is_cf c || is_dash c) is_letter a b
              (letters-all (take 5 bytes)) (letters-all (drop 5 bytes)) (letter-kept is_cf f)
              (dash-skipped is_cf),
          letters-split 5 bytes,
        )
        (of_length-eq 10 (letters bytes) (length-letters bytes ∙ l))

  -- What normalizeCode accepts is ten letters of the alphabet, and is its own normal form.
  pub normalize_recovery_code_idem :
      FixesPlain nfkc
      → FixesPlain lower
      → IsFormat is_cf
      → (s t : Text) → normalize_recovery_code nfkc lower is_cf s ≡ some t
      → (length t ≡ 10)
        × (all is_letter t ≡ true)
        × (normalize_recovery_code nfkc lower is_cf t ≡ some t)
  unfolding normalize_recovery_code of_length code_len FixesPlain
  normalize_recovery_code_idem fn fl f s t e =
      let skip = λ (c : ℕ). is_filler is_cf c || is_dash c in
      let (n, h) =
        of_length-all 10 is_letter (filter_runes skip is_letter (lower (nfkc s))) t
          (all_of-filter_runes skip is_letter (lower (nfkc s))) e in
      let plain = all_mono is_letter is_plain letter-plain t h in
      (
        n,
        h,
        rw (fn t plain, fl t plain, filter_runes-kept skip is_letter t h (letter-kept is_cf f))
            (of_length-eq 10 t n),
      )
