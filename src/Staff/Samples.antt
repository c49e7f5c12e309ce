-- ===== src/Staff/Samples.antt =====
-- Addresses and names on concrete inputs, with the categories of ASCII.
use wf_all.Prelude.{
  ℕ, ◌≡◌, refl, Bool, true, false, none, some, codes, length, all, any, between, trim, is_space,
}
use wf_all.Staff.Email.{Unicode, normalize_email}
use wf_all.Staff.Addresses.{IsAddress, normalize_email-IsAddress}
use wf_all.Staff.Name.{Marks, display_name_ok}
use wf_all.Staff.Names.{may_stand, is_visible, display_name_ok-all}

abbrev never : ℕ → Bool
never c = false

abbrev ascii : Unicode
ascii = record {
  nfkc = λ s. s;
  lower = λ s. s;
  to_ascii = λ s. some s;
  to_unicode = λ s. some s;
  byte_len = λ s. length s;
  is_uni_letter = between 97 122;
  is_mn = never;
  is_mc = never;
  is_nd = between 48 57;
  is_ignorable = never;
  is_selector = never;
  is_cf = never;
}

abbrev marks : Marks
marks = record {
  unicode = ascii;
  is_cc = between 0 31;
  is_zl = never;
  is_zp = never;
  is_m = never;
  is_pictographic = between 0x1F300 0x1F5FF;
}

accepted_email : normalize_email ascii (codes " ann@wf.example ") ≡ some (codes "ann@wf.example")
unfolding normalize_email trim is_space
accepted_email = refl

refused_email : normalize_email ascii (codes "a..n@wf.example") ≡ none
unfolding normalize_email trim is_space
refused_email = refl

normalize_email-IsAddress_example : IsAddress ascii (codes "ann@wf.example")
normalize_email-IsAddress_example =
    normalize_email-IsAddress ascii (codes " ann@wf.example ") (codes "ann@wf.example")
      accepted_email

accepted_name : display_name_ok marks (codes "Ann B") ≡ true
unfolding display_name_ok
accepted_name = refl

blank_name : display_name_ok marks (codes "  ") ≡ false
unfolding display_name_ok
blank_name = refl

display_name_ok-all_example :
    (all (may_stand marks) (codes "Ann B") ≡ true) × (any (is_visible marks) (codes "Ann B") ≡ true)
display_name_ok-all_example = display_name_ok-all marks (codes "Ann B") accepted_name
