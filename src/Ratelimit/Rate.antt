-- ===== src/Ratelimit/Rate.antt =====
-- How many requests of one key a run of the limiter lets through: the calls of all the keys and the
-- clean-ups, in the order in which the database commits them. Between the two statements of an
-- Allow nothing else is committed here; Take has refused then, and the second only reads.
use wf_all.Prelude.{
  ℕ, ◌+◌, ◌*◌, ◌/◌, ◌≤◌, ◌≡◌, refl, sym, Bool, true, false, Option, none, some, arith, Text, leb,
  subst, List, [], ◌∷◌, text_eq, text_eq_refl, ◌⊎◌, &&-eq-true, ◌&&◌, text_eq_iff, Bool-cases, inl,
  inr,
}
use wf_all.Prelude.Int.{ℤ, pos}
use wf_all.Ratelimit.{Policy, interval, window, validate, off}
use wf_all.Ratelimit.Store.{Table, Env, allow, add, get_tat, delete_expired}
use wf_all.Ratelimit.Limits.{Applies, passes, Exact, Narrow, validate-Applies}
use wf_all.Ratelimit.Rows.{
  Gains, level, cost, allow-Gains, allow-ne, add-Gains, delete_expired-Gains, still-Gains,
}

-- A call at a time of the clock in nanoseconds; `fails` says which of its statements fail.
pub data Call : Type 0 where
  allow_call : (now : ℕ) → (fails : ℕ → Bool) → (key : Text) → Call
  add_call : (now : ℕ) → (fails : ℕ → Bool) → (key : Text) → Call
  clean_call : (now : ℕ) → (batch : ℕ) → Call

abbrev quiet : ℕ → (ℕ → Bool) → Env
quiet now fails = record { now = now; fails = fails; meanwhile = λ tab. tab }

abbrev pub time : Call → ℕ
time (allow_call now fails key) = now
time (add_call now fails key) = now
time (clean_call now batch) = now

-- The times do not go back, and lie between `from` and `until`.
unfoldable pub ordered : ℕ → ℕ → List Call → Bool
ordered from until [] = leb from until
ordered from until (c ∷ cs) = leb from (time c) && ordered (time c) until cs

ordered-le : (cs : List Call) (from until : ℕ) → ordered from until cs ≡ true → from ≤ until
unfolding ordered
ordered-le [] from until h = ground arith
ordered-le (c ∷ cs) from until h = ground (arith, ordered-le cs (time c) until)

le-level : (o : Option ℕ) (now : ℕ) → now ≤ level o now
le-level none now = omega arith
le-level (some tat) now = omega arith

level_le : (o : Option ℕ) (from now : ℕ) → from ≤ now → level o from ≤ level o now
level_le none from now h = h
level_le (some tat) from now h = omega arith

-- A step, and what the rest of the run gives from there.
Gains-count :
    (o o' : Option ℕ) (from now until t w n : ℕ) (b : Bool)
    → Gains now t w o o' b
    → from ≤ now
    → now ≤ until
    → (n ≡ 0) ⊎ (level o' now + n * t ≤ until + w)
    → (cost b 1 + n ≡ 0) ⊎ (level o from + (cost b 1 + n) * t ≤ until + w)
unfolding Gains
Gains-count o o' from now until t w n false g l1 l2 (inl e) = inl (omega arith)
Gains-count o o' from now until t w n false g l1 l2 (inr h) =
    inr (omega (arith, level_le o from now l1))
Gains-count o o' from now until t w n true g l1 l2 (inl e) =
    inr (rw e (omega (arith, level_le o from now l1)))
Gains-count o o' from now until t w n true g l1 l2 (inr h) =
    inr (omega (arith, level_le o from now l1))

module _ (micros : ℤ → ℕ) (policy : Text → Policy) (key : Text) where
  -- The table after a call, and whether it let a request of `key` pass.
  unfoldable pub step : Call → Table → Table × Bool
  step (allow_call now fails k) tab =
      let (tab', o) = allow micros (quiet now fails) tab k (policy k) in
      (tab', text_eq k key && passes o)
  step (add_call now fails k) tab = ((add micros (quiet now fails) tab k (policy k)).0, false)
  step (clean_call now batch) tab = ((delete_expired (now / 1000) batch tab).0, false)

  -- How many requests of `key` pass.
  unfoldable pub count : List Call → Table → ℕ
  unfolding step
  count [] tab = 0
  count (c ∷ cs) tab = let (tab', b) = step c tab in cost b 1 + count cs tab'

  step-Gains :
      (a : Applies micros (policy key)) (c : Call) (tab : Table)
      → let (tab', b) = step c tab in
        Gains (time c / 1000) a.t a.w (get_tat tab key) (get_tat tab' key) b
  unfolding step
  step-Gains a (allow_call now fails k) tab = elim (Bool-cases (text_eq k key)) [
    | inl e ↦
        subst
          (λ x.
            Gains (now / 1000) a.t a.w (get_tat tab key)
              (get_tat (allow micros (quiet now fails) tab x (policy x)).0 key)
              (text_eq x key && passes (allow micros (quiet now fails) tab x (policy x)).1))
          (sym ((text_eq_iff k key).0 e))
          (rw (text_eq_refl key) (allow-Gains micros (quiet now fails) tab key (policy key) refl a))
    | inr e ↦
        rw (e, allow-ne micros (quiet now fails) tab k key (policy k) refl e)
          (still-Gains (now / 1000) a.t a.w (get_tat tab key))
  ]
  step-Gains a (add_call now fails k) tab =
      add-Gains micros (quiet now fails) tab k key (policy k) a.t a.w
  step-Gains a (clean_call now batch) tab = delete_expired-Gains (now / 1000) a.t a.w batch tab key

  count-level :
      (a : Applies micros (policy key)) (cs : List Call) (tab : Table) (from until : ℕ)
      → ordered from until cs ≡ true
      → (count cs tab ≡ 0)
        ⊎ (level (get_tat tab key) (from / 1000) + count cs tab * a.t ≤ until / 1000 + a.w)
  unfolding count ordered
  count-level a [] tab from until h = inl refl
  count-level a (c ∷ cs) tab from until h =
      let (l, rest) = &&-eq-true (leb from (time c)) (ordered (time c) until cs) h in
      let l2 = ordered-le cs (time c) until rest in
      Gains-count (get_tat tab key) (get_tat (step c tab).0 key) (from / 1000) (time c / 1000)
        (until / 1000) a.t a.w (count cs (step c tab).0) (step c tab).1 (step-Gains a c tab)
        (ground (arith, l)) (ground (arith, l2))
        (count-level a cs (step c tab).0 (time c) until rest)

  -- In every sequence of calls of all the keys, in the order in which the database commits them and
  -- with clocks that do not go back from one call to the next, whatever the clean-up deletes or the
  -- database fails: between two times no more requests of a key pass than one for each interval of
  -- the time between them, and a window's worth. For a policy of the key that is accepted and on,
  -- with a window of at most thirty-five years; times in microseconds.
  pub count-le :
      Exact micros
      → validate (policy key) ≡ none
      → off (policy key) ≡ false
      → Narrow (policy key)
      → (cs : List Call) (tab : Table) (from until : ℕ) → ordered from until cs ≡ true
      → (t w : ℕ) × (interval (policy key) ≡ pos (t * 1000))
        × (window (policy key) ≡ pos (w * 1000))
        × (from / 1000 + count cs tab * t ≤ until / 1000 + w)
  count-le ex v o n cs tab from until h =
      let a = validate-Applies micros ex (policy key) v o n in
      let l = ordered-le cs from until h in
      (
        a.t,
        a.w,
        a.interval_eq,
        a.window_eq,
        elim (count-level a cs tab from until h) [
          | inl z ↦ rw z (ground (arith, l))
          | inr b ↦ omega (arith, b, le-level (get_tat tab key) (from / 1000))
        ],
      )
