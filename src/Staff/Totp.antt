-- ===== src/Staff/Totp.antt =====
-- backend/internal/staff/internal/domain/totp.go: the codes of RFC 6238 and their check. The HMAC of a
-- secret and a message of eight bytes is an argument; a step is an int64.
use wf_all.Prelude.{
  ℕ, suc, ◌+◌, ◌*◌, ◌-◌, ◌/◌, ◌%◌, ◌^◌, Bool, ◌&&◌, List, [], ◌∷◌, Option, none, some, Text,
  text_eq, length, get_elem?, if◌then◌else◌,
}
use wf_all.Prelude.Int.{ℤ, pos, negsuc, ltb_ℤ, add_ℤ}
use wf_all.Staff.Codes.{char_or_zero, normalize_code}

-- TOTPStep of Unix seconds.
unfoldable pub totp_step : ℕ → ℤ
totp_step unix = pos (unix / 30)

abbrev to_uint64 : ℤ → ℕ
to_uint64 (pos n) = n % 2 ^ 64
to_uint64 (negsuc n) = 2 ^ 64 - suc n % 2 ^ 64

-- binary.BigEndian.PutUint64.
abbrev put_uint64 : ℕ → List ℕ
put_uint64 n =
    n / 2 ^ 56 % 256
    ∷ n / 2 ^ 48 % 256
    ∷ n / 2 ^ 40 % 256
    ∷ n / 2 ^ 32 % 256
    ∷ n / 2 ^ 24 % 256
    ∷ n / 2 ^ 16 % 256
    ∷ n / 2 ^ 8 % 256
    ∷ n % 256
    ∷ []

-- A byte of the MAC; past its end Go panics, which a MAC of twenty bytes does not come to.
byte : List ℕ → ℕ → ℕ
byte sum i = char_or_zero (get_elem? sum i)

-- Dynamic truncation: four bytes from the offset, without the top bit.
truncated : List ℕ → ℕ
unfolding byte
truncated sum =
    let start = byte sum (length sum - 1) % 16 in
    (byte sum start * 2 ^ 24
      + byte sum (start + 1) * 2 ^ 16
      + byte sum (start + 2) * 2 ^ 8
      + byte sum (start + 3))
    % 2 ^ 31

-- `%06d` of a number below a million.
unfoldable pub six_digits : ℕ → Text
six_digits n =
    (48 + n / 100000 % 10)
    ∷ (48 + n / 10000 % 10)
    ∷ (48 + n / 1000 % 10)
    ∷ (48 + n / 100 % 10)
    ∷ (48 + n / 10 % 10)
    ∷ (48 + n % 10)
    ∷ []

module _ (mac : List ℕ → List ℕ → List ℕ) where
  unfoldable pub totp_code : List ℕ → ℤ → Text
  unfolding six_digits truncated
  totp_code secret step =
      six_digits (truncated (mac secret (put_uint64 (to_uint64 step))) % 1000000)

  -- The test of one step of the window.
  unfoldable pub accepts : List ℕ → Text → ℤ → ℤ → Bool
  unfolding totp_code
  accepts secret code last s = text_eq (totp_code secret s) code && ltb_ℤ last s

  -- One turn of the loop: the first step that is accepted stays.
  unfoldable pub turn : List ℕ → Text → ℤ → ℤ → Option ℤ → Option ℤ
  unfolding accepts
  turn secret code last s (some step) = some step
  turn secret code last s none = if accepts secret code last s then some s else none

  -- The steps d = -1, 0 and 1 from the current one.
  unfoldable pub scan : List ℕ → ℤ → ℤ → Option Text → Option ℤ
  unfolding turn
  scan secret cur last none = none
  scan secret cur last (some code) =
      turn secret code last (add_ℤ cur (pos 1))
        (turn secret code last cur (turn secret code last (add_ℤ cur (negsuc 0)) none))

  unfoldable pub verify_totp : (Text → Text) → (ℕ → Bool) → List ℕ → Text → ℕ → ℤ → Option ℤ
  unfolding scan totp_step normalize_code
  verify_totp nfkc is_cf secret code now last =
      scan secret (totp_step now) last (normalize_code nfkc is_cf code)
