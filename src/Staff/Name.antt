-- ===== src/Staff/Name.antt =====
-- backend/internal/staff/internal/domain/name.go: which display names are accepted. The categories of
-- unicode, and the table of pictographs, are arguments.
use wf_all.Prelude.{
  ℕ, Bool, true, false, not, ◌&&◌, ◌||◌, [], ◌∷◌, Text, between, is_space, ◌==◌, if◌then◌else◌,
}
use wf_all.Staff.Email.{Unicode, is_invisible}

-- The categories that name.go reads beside those of email.go.
pub record Marks : Type 0 where
  pub unicode : Unicode
  pub is_cc : ℕ → Bool
  pub is_zl : ℕ → Bool
  pub is_zp : ℕ → Bool
  pub is_m : ℕ → Bool
  pub is_pictographic : ℕ → Bool

abbrev pub zwj : ℕ
zwj = 0x200D

abbrev pub vs15 : ℕ
vs15 = 0xFE0E

abbrev pub vs16 : ℕ
vs16 = 0xFE0F

unfoldable pub skin_tone : ℕ → Bool
skin_tone r = between 0x1F3FB 0x1F3FF r

-- A test of the first of the runes on the left, which stand nearest first.
abbrev pub on_first : (ℕ → Bool) → Text → Bool
on_first p [] = false
on_first p (r ∷ rs) = p r

abbrev drop_first : (ℕ → Bool) → Text → Text
drop_first p [] = []
drop_first p (r ∷ rs) = if p r then rs else r ∷ rs

-- The cases of the `switch` for a rune, where `same` and `seen` are what follows it.
unfoldable pub judge : (zero_join joins selector based barred shown same seen : Bool) → Bool
judge zero_join joins selector based barred shown same seen =
    if zero_join
    then (if not joins then false else same)
    else if selector
    then (if not based then false else same)
    else if barred
    then false
    else if shown
    then seen
    else same

module _ (k : Marks) where
  unfoldable pub presentation_base : ℕ → Bool
  presentation_base r = k.is_pictographic r || between 48 57 r || r == 35 || r == 42

  -- joinsPictographs, on what stands left of the ZWJ, nearest first, and right of it.
  unfoldable pub joins_pictographs : Text → Text → Bool
  unfolding skin_tone
  joins_pictographs before after =
      if not (on_first k.is_pictographic after)
      then false
      else on_first k.is_pictographic
          (drop_first skin_tone (drop_first (λ r. r == vs15 || r == vs16) before))

  -- A rune that is neither a ZWJ nor a selector and that no name may hold.
  unfoldable pub is_barred : ℕ → Bool
  unfolding is_invisible
  is_barred r = k.is_cc r || k.is_zl r || k.is_zp r || is_invisible k.unicode r

  -- The loop, with the runes already seen, nearest first, and whether one of them is visible.
  unfoldable pub scan_name : Text → Bool → Text → Bool
  unfolding judge joins_pictographs presentation_base is_barred is_space
  scan_name before visible [] = visible
  scan_name before visible (r ∷ rs) =
      let same = scan_name (r ∷ before) visible rs in
      let seen = scan_name (r ∷ before) true rs in
      judge (r == zwj) (joins_pictographs before rs) (r == vs15 || r == vs16)
        (on_first presentation_base before) (is_barred r) (not (is_space r) && not (k.is_m r)) same
        seen

  unfoldable pub display_name_ok : Text → Bool
  unfolding scan_name
  display_name_ok name = scan_name [] false name
