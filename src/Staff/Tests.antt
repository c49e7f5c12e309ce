-- ===== src/Staff/Tests.antt =====
-- The codes of the staff module on concrete inputs.
use wf_all.Prelude.{
  ℕ, zero, suc, ◌≡◌, refl, Bool, true, false, List, [], ◌∷◌, some, Text, codes, length, all,
}
use wf_all.Prelude.Int.{pos, negsuc, add_ℤ}
use wf_all.Staff.Codes.{
  letters, code_of, is_letter, normalize_recovery_code, normalize_code, Generated, unread, repeated,
  generated, new_recovery_codes,
}
use wf_all.Staff.Forms.{FixesPlain, IsFormat, normalize-code_of, normalize_recovery_code_idem}
use wf_all.Staff.Generations.{IsGeneration, new_recovery_codes-IsGeneration}
use wf_all.Staff.Totp.{totp_step, verify_totp}
use wf_all.Staff.Window.{Verdict, verify_totp-Verdict}

abbrev as_is : Text → Text
as_is s = s

abbrev no_format : ℕ → Bool
no_format c = false

as_is-FixesPlain : FixesPlain as_is
unfolding FixesPlain
as_is-FixesPlain s h = refl

no_format-IsFormat : IsFormat no_format
unfolding IsFormat
no_format-IsFormat c h = refl

-- n, n - 1, … 1.
abbrev bytes_down : ℕ → List ℕ
bytes_down zero = []
bytes_down (suc n) = suc n ∷ bytes_down n

code_of_ten : code_of (bytes_down 10) ≡ codes "kjihg-fedcb"
unfolding code_of
code_of_ten = refl

normalize-code_of_example :
    normalize_recovery_code as_is as_is no_format (code_of (bytes_down 10))
    ≡ some (letters (bytes_down 10))
normalize-code_of_example =
    normalize-code_of as_is as_is no_format as_is-FixesPlain as_is-FixesPlain no_format-IsFormat
      (bytes_down 10) refl

typed-normal :
    normalize_recovery_code as_is as_is no_format (codes " kjihg fed-cb ")
    ≡ some (codes "kjihgfedcb")
unfolding normalize_recovery_code
typed-normal = refl

normalize_recovery_code_idem_example :
    (length (codes "kjihgfedcb") ≡ 10)
    × (all is_letter (codes "kjihgfedcb") ≡ true)
    × (normalize_recovery_code as_is as_is no_format (codes "kjihgfedcb")
        ≡ some (codes "kjihgfedcb"))
normalize_recovery_code_idem_example =
    normalize_recovery_code_idem as_is as_is no_format as_is-FixesPlain as_is-FixesPlain
      no_format-IsFormat (codes " kjihg fed-cb ") (codes "kjihgfedcb") typed-normal

abbrev made : Generated → List Text
made (generated cs) = cs
made unread = []
made repeated = []

hundred-made :
    new_recovery_codes (bytes_down 100) ≡ generated (made (new_recovery_codes (bytes_down 100)))
unfolding new_recovery_codes
hundred-made = refl

new_recovery_codes-IsGeneration_example :
    IsGeneration 10 (made (new_recovery_codes (bytes_down 100)))
new_recovery_codes-IsGeneration_example =
    new_recovery_codes-IsGeneration (bytes_down 100) (made (new_recovery_codes (bytes_down 100)))
      hundred-made

-- A MAC of zeros, whose code is 000000 at every step.
abbrev zeros : List ℕ → List ℕ → List ℕ
zeros secret msg = 0 ∷ 0 ∷ 0 ∷ 0 ∷ []

-- The first step after the last one used.
verify_zeros : verify_totp zeros as_is no_format [] (codes "000 000") 3000 (pos 99) ≡ some (pos 100)
unfolding verify_totp
verify_zeros = refl

verify_totp-Verdict_example :
    Verdict zeros []
      (normalize_code as_is no_format (codes "000 000"))
      (pos 99)
      (add_ℤ (totp_step 3000) (negsuc 0))
      (totp_step 3000)
      (add_ℤ (totp_step 3000) (pos 1))
      (verify_totp zeros as_is no_format [] (codes "000 000") 3000 (pos 99))
verify_totp-Verdict_example =
    verify_totp-Verdict zeros as_is no_format [] (codes "000 000") 3000 (pos 99)
