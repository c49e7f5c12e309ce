-- ===== src/Staff/Names.antt =====
-- What an accepted display name holds.
use wf_all.Prelude.{
  ℕ, ◌≡◌, ◌⊎◌, refl, inl, inr, Bool, true, false, not, ◌&&◌, ◌||◌, [], ◌∷◌, Text, all, any,
  is_space, ◌==◌, arith,
}
use wf_all.Staff.Name.{
  Marks, zwj, vs15, vs16, is_barred, judge, on_first, joins_pictographs, presentation_base,
  scan_name, display_name_ok,
}

-- A rune that a name may hold: one of the three that emoji are made with, or one that is not barred.
unfoldable pub may_stand : Marks → ℕ → Bool
may_stand k r = r == zwj || (r == vs15 || r == vs16) || not (is_barred k r)

-- A rune that is seen by itself.
unfoldable pub is_visible : Marks → ℕ → Bool
is_visible k r =
    (not (is_space r) && not (k.is_m r)) && not (r == zwj) && not (r == vs15 || r == vs16)

judge-cases :
    (z j s b bar shown same seen : Bool)
    → judge z j s b bar shown same seen ≡ true
    → ((z || s || not bar) ≡ true)
      × ((same ≡ true) ⊎ ((seen ≡ true) × ((shown && not z && not s) ≡ true)))
unfolding judge
judge-cases z j s b bar shown same seen h = ground arith

-- What the rest of the name gives, with the rune before it.
with_rune :
    (m v d a w : Bool)
    → m ≡ true
    → (a ≡ true) × ((v || w) ≡ true)
    → ((m && a) ≡ true) × ((v || (d || w)) ≡ true)
with_rune m v d a w h g = ground arith

with_visible :
    (m v d a w : Bool)
    → m ≡ true
    → d ≡ true
    → a ≡ true
    → ((m && a) ≡ true) × ((v || (d || w)) ≡ true)
with_visible m v d a w h g e = ground arith

or_false : (v : Bool) → v ≡ true → (v || false) ≡ true
or_false v h = ground arith

scan_name-all :
    (k : Marks) (before : Text) (v : Bool) (s : Text)
    → scan_name k before v s ≡ true
    → (all (may_stand k) s ≡ true) × ((v || any (is_visible k) s) ≡ true)
unfolding scan_name may_stand is_visible
scan_name-all k before v [] h = (refl, or_false v h)
scan_name-all k before v (r ∷ rs) h =
    let (m, c) =
      judge-cases (r == zwj) (joins_pictographs k before rs) (r == vs15 || r == vs16)
        (on_first (presentation_base k) before) (is_barred k r) (not (is_space r) && not (k.is_m r))
        (scan_name k (r ∷ before) v rs) (scan_name k (r ∷ before) true rs) h in
    elim c [
      | inl same ↦
          with_rune (may_stand k r) v (is_visible k r) (all (may_stand k) rs)
            (any (is_visible k) rs) m (scan_name-all k (r ∷ before) v rs same)
      | inr (seen, d) ↦
          with_visible (may_stand k r) v (is_visible k r) (all (may_stand k) rs)
            (any (is_visible k) rs) m d (scan_name-all k (r ∷ before) true rs seen).0
    ]

-- A display name that is accepted holds no control, no separator of lines or paragraphs and nothing
-- invisible but the joiner and the two selectors of emoji, and at least one rune that is seen, neither
-- a space nor a mark. For any categories of unicode.
pub display_name_ok-all :
    (k : Marks) (name : Text)
    → display_name_ok k name ≡ true
    → (all (may_stand k) name ≡ true) × (any (is_visible k) name ≡ true)
unfolding display_name_ok
display_name_ok-all k name h = scan_name-all k [] false name h
