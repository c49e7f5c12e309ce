-- ===== src/Staff/Addresses.antt =====
-- What an accepted address looks like.
use wf_all.Prelude.{◌≤◌, ◌≡◌, refl, true, ◌∷◌, ◌++◌, Option, none, some, Text, trim, all, arith}
use wf_all.Ratelimit.Rules.{cut}
use wf_all.Staff.Email.{
  Unicode, is_dot_atom, is_printable_ascii, domain_rune_ok, with_uform, with_ascii, with_parts,
  normalize_email, max_email_len, max_local_len,
}

-- A stored address: a dot-atom of at most 64 bytes, an `@` and a domain whose decoded form has only
-- visible letters, marks, digits, dashes and dots; printable ASCII, of at most 254 bytes in all.
unfoldable pub IsAddress : Unicode → Text → Type 0
IsAddress u out =
    (local : Text) × (ascii : Text) × (uform : Text) × (out ≡ local ++ (64 ∷ ascii))
    × (is_dot_atom local ≡ true)
    × (u.byte_len local ≤ 64)
    × (u.to_unicode ascii ≡ some uform)
    × (all (domain_rune_ok u) uform ≡ true)
    × (is_printable_ascii out ≡ true)
    × (u.byte_len out ≤ 254)

with_uform-IsAddress :
    (u : Unicode) (local ascii out : Text) (o : Option Text)
    → is_dot_atom local ≡ true
    → u.byte_len local ≤ 64
    → u.to_unicode ascii ≡ o
    → with_uform u local ascii o ≡ some out
    → IsAddress u out
unfolding with_uform IsAddress max_email_len
with_uform-IsAddress u local ascii out none d l e h = absurd (ground arith)
with_uform-IsAddress u local ascii out (some uform) d l e h =
    (local, ascii, uform, ground arith, d, l, e, ground arith, ground arith, ground arith)

with_ascii-IsAddress :
    (u : Unicode) (local out : Text) (o : Option Text)
    → is_dot_atom local ≡ true
    → u.byte_len local ≤ 64
    → with_ascii u local o ≡ some out
    → IsAddress u out
unfolding with_ascii
with_ascii-IsAddress u local out none d l h = absurd (ground arith)
with_ascii-IsAddress u local out (some host) d l h =
    with_uform-IsAddress u local (u.lower host) out (u.to_unicode (u.lower host)) d l refl h

with_parts-IsAddress :
    (u : Unicode) (out : Text) (o : Option (Text × Text))
    → with_parts u o ≡ some out
    → IsAddress u out
unfolding with_parts max_local_len
with_parts-IsAddress u out none h = absurd (ground arith)
with_parts-IsAddress u out (some (local, host)) h =
    with_ascii-IsAddress u local out (u.to_ascii host) (ground arith) (ground arith) (ground arith)

-- What NormalizeEmail accepts is an address in its stored form, for any NFKC, case mapping, IDNA
-- profile and categories of unicode.
pub normalize_email-IsAddress :
    (u : Unicode) (s out : Text) → normalize_email u s ≡ some out → IsAddress u out
unfolding normalize_email
normalize_email-IsAddress u s out h =
    with_parts-IsAddress u out (cut 64 (u.lower (trim (u.nfkc s)))) (ground arith)
