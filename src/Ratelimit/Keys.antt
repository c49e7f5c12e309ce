-- ===== src/Ratelimit/Keys.antt =====
-- backend/internal/platform/ratelimit/keys.go: the keys of the limits. The texts of addresses,
-- uuids and MACs, which other packages print, are arguments.
use wf_all.Prelude.{◌≡◌, Bool, true, not, [], ◌∷◌, ◌++◌, Text, codes, arith, ◌==◌, all}
use wf_all.Auth.{SubjectKind, user, staff}

unfoldable pub ip_key : Text → Text → Text
ip_key class ip = codes "ip:" ++ (class ++ (codes ":" ++ ip))

abbrev kind_text : SubjectKind → Text
kind_text user = codes "user"
kind_text staff = codes "staff"

unfoldable pub subject_key : Text → SubjectKind → Text → Text
subject_key class kind id = kind_text kind ++ (codes ":" ++ (class ++ (codes ":" ++ id)))

unfoldable pub session_device_key : Text → Text → Text
session_device_key class id = codes "device:" ++ (class ++ (codes ":s:" ++ id))

unfoldable pub bff_device_key : Text → Text → Text
bff_device_key class label = codes "device:" ++ (class ++ (codes ":b:" ++ label))

unfoldable pub email_key : Text → Text → Text
email_key class mac = codes "email:" ++ (class ++ (codes ":" ++ mac))

-- A class has no colon: classRe, and the classes of DefaultRules.
unfoldable pub no_colon : Text → Bool
no_colon class = all (λ c. not (c == 58)) class

-- After a class without a colon, the text up to the first colon is the class.
cut_colon :
    (a b x y : Text)
    → no_colon a ≡ true
    → no_colon b ≡ true
    → a ++ (58 ∷ x) ≡ b ++ (58 ∷ y)
    → (a ≡ b) × (x ≡ y)
unfolding no_colon
cut_colon [] [] x y ha hb e = ground arith
cut_colon [] (c ∷ b) x y ha hb e = absurd (ground arith)
cut_colon (c ∷ a) [] x y ha hb e = absurd (ground arith)
cut_colon (c ∷ a) (d ∷ b) x y ha hb e = ground (arith, cut_colon a b x y)

-- What a key is for, apart from its class.
pub data Purpose : Type 0 where
  for_ip for_session for_bff for_email : Text → Purpose
  for_subject : SubjectKind → Text → Purpose

-- The key of a class and a purpose.
unfoldable pub key_of : Text → Purpose → Text
unfolding ip_key subject_key session_device_key bff_device_key email_key
key_of class (for_ip ip) = ip_key class ip
key_of class (for_session id) = session_device_key class id
key_of class (for_bff label) = bff_device_key class label
key_of class (for_email mac) = email_key class mac
key_of class (for_subject kind id) = subject_key class kind id

-- Two keys are equal only where their classes and their purposes are: no address, player, staff
-- member, device of a session, label of the BFF or mail ever spends the limit of another, whatever
-- the texts of the values, for classes without a colon.
pub key_of-injective :
    (c d : Text) (x y : Purpose)
    → no_colon c ≡ true
    → no_colon d ≡ true
    → key_of c x ≡ key_of d y
    → (c ≡ d) × (x ≡ y)
unfolding key_of
key_of-injective c d (for_ip x) (for_ip y) hc hd e = ground (arith, cut_colon c d x y hc hd)
key_of-injective c d (for_email x) (for_email y) hc hd e = ground (arith, cut_colon c d x y hc hd)
key_of-injective c d (for_session x) (for_session y) hc hd e =
    ground (arith, cut_colon c d (115 ∷ 58 ∷ x) (115 ∷ 58 ∷ y) hc hd)
key_of-injective c d (for_bff x) (for_bff y) hc hd e =
    ground (arith, cut_colon c d (98 ∷ 58 ∷ x) (98 ∷ 58 ∷ y) hc hd)
key_of-injective c d (for_session x) (for_bff y) hc hd e =
    absurd (ground (arith, cut_colon c d (115 ∷ 58 ∷ x) (98 ∷ 58 ∷ y) hc hd))
key_of-injective c d (for_bff x) (for_session y) hc hd e =
    absurd (ground (arith, cut_colon c d (98 ∷ 58 ∷ x) (115 ∷ 58 ∷ y) hc hd))
key_of-injective c d (for_subject user x) (for_subject user y) hc hd e =
    ground (arith, cut_colon c d x y hc hd)
key_of-injective c d (for_subject staff x) (for_subject staff y) hc hd e =
    ground (arith, cut_colon c d x y hc hd)
key_of-injective c d (for_subject user x) y hc hd e = absurd (ground arith)
key_of-injective c d (for_subject staff x) y hc hd e = absurd (ground arith)
key_of-injective c d x (for_subject user y) hc hd e = absurd (ground arith)
key_of-injective c d x (for_subject staff y) hc hd e = absurd (ground arith)
key_of-injective c d x y hc hd e = absurd (ground arith)
