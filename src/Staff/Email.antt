-- ===== src/Staff/Email.antt =====
-- backend/internal/staff/internal/domain/email.go: the address of a member of the staff in its stored
-- form. NFKC, strings.ToLower, the registration profile of IDNA and the categories of unicode are
-- arguments, and so is the length of a text in bytes.
use wf_all.Prelude.{
  ℕ, Bool, true, false, not, ◌&&◌, ◌||◌, [], ◌∷◌, ◌++◌, Option, none, some, Text, codes, is_empty,
  trim, all, any, ltb, between, ◌==◌, if◌then◌else◌,
}
use wf_all.Ratelimit.Rules.{cut}

unfoldable pub max_email_len : ℕ
max_email_len = 254

unfoldable pub max_local_len : ℕ
max_local_len = 64

unfoldable pub max_email_input : ℕ
max_email_input = 1016

abbrev pub atext_specials : Text
atext_specials = codes "!#$%&'*+-/=?^_`{|}~"

abbrev is_atext : ℕ → Bool
is_atext c =
    between 97 122 c
    || between 65 90 c
    || between 48 57 c
    || c == 46
    || any (λ d. d == c) atext_specials

-- strings.Contains(s, "..").
has_two_dots : Text → Bool
has_two_dots [] = false
has_two_dots (c ∷ []) = false
has_two_dots (c ∷ d ∷ s) = (c == 46 && d == 46) || has_two_dots (d ∷ s)

starts_with_dot : Text → Bool
starts_with_dot [] = false
starts_with_dot (c ∷ s) = c == 46

ends_with_dot : Text → Bool
ends_with_dot [] = false
ends_with_dot (c ∷ []) = c == 46
ends_with_dot (c ∷ d ∷ s) = ends_with_dot (d ∷ s)

unfoldable pub is_dot_atom : Text → Bool
unfolding starts_with_dot ends_with_dot has_two_dots
is_dot_atom s =
    if is_empty s || starts_with_dot s || ends_with_dot s || has_two_dots s
    then false
    else all is_atext s

unfoldable pub is_printable_ascii : Text → Bool
is_printable_ascii s = all (λ c. between 33 126 c) s

-- What the code reads of unicode and IDNA.
pub record Unicode : Type 0 where
  pub nfkc : Text → Text
  pub lower : Text → Text
  pub to_ascii : Text → Option Text
  pub to_unicode : Text → Option Text
  pub byte_len : Text → ℕ
  pub is_uni_letter : ℕ → Bool
  pub is_mn : ℕ → Bool
  pub is_mc : ℕ → Bool
  pub is_nd : ℕ → Bool
  pub is_ignorable : ℕ → Bool
  pub is_selector : ℕ → Bool
  pub is_cf : ℕ → Bool

module _ (u : Unicode) where
  unfoldable pub is_invisible : ℕ → Bool
  is_invisible r =
      if u.is_ignorable r || u.is_selector r || u.is_cf r
      then true
      else r == 0x115F || r == 0x1160 || r == 0x3164 || r == 0xFFA0 || r == 0x16FE4 || r == 0x2800

  unfoldable pub domain_rune_ok : ℕ → Bool
  unfolding is_invisible
  domain_rune_ok r =
      if not (u.is_uni_letter r)
        && not (u.is_mn r)
        && not (u.is_mc r)
        && not (u.is_nd r)
        && not (r == 45)
        && not (r == 46)
      then false
      else not (is_invisible r)

  -- The stored form, once the domain is decoded back.
  unfoldable pub with_uform : Text → Text → Option Text → Option Text
  unfolding domain_rune_ok is_printable_ascii max_email_len
  with_uform local ascii none = none
  with_uform local ascii (some uform) =
      let out = local ++ (64 ∷ ascii) in
      if not (all domain_rune_ok uform)
      then none
      else if ltb max_email_len (u.byte_len out) || not (is_printable_ascii out)
      then none
      else some out

  unfoldable pub with_ascii : Text → Option Text → Option Text
  unfolding with_uform
  with_ascii local none = none
  with_ascii local (some host) =
      let ascii = u.lower host in with_uform local ascii (u.to_unicode ascii)

  unfoldable pub with_parts : Option (Text × Text) → Option Text
  unfolding with_ascii is_dot_atom max_local_len
  with_parts none = none
  with_parts (some (local, host)) =
      if is_empty local || is_empty host || any (λ c. c == 64) host
      then none
      else if ltb max_local_len (u.byte_len local) || not (is_dot_atom local)
      then none
      else with_ascii local (u.to_ascii host)

  unfoldable pub normalize_email : Text → Option Text
  unfolding with_parts cut max_email_input
  normalize_email s =
      if ltb max_email_input (u.byte_len s)
      then none
      else with_parts (cut 64 (u.lower (trim (u.nfkc s))))
