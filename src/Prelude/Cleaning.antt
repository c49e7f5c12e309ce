-- ===== src/Prelude/Cleaning.antt =====
-- The clean-up loop `for { n, err := delete(now()); if n < size { return } }`, which reads the time
-- anew for each batch, on fuel; `clock k` is the reading of the k-th batch from here.
use Prim.Native.Nat.{ℕ, zero, suc, ◌+◌, ◌*◌, ◌≤◌, ◌<◌}
use mathlib.Core.Path.{◌≡◌, ap, subst, ◌∙◌}
use mathlib.Core.Bool.{Bool}
use mathlib.Core.List.{List}
use mathlib.Core.Logic.{inl, inr}
use mathlib.Core.Option.{Option, none, some}
use native.Mathlib.Omega.{arith}
use wf_all.Prelude.Tests.{ltb, if◌then◌else◌, Bool-cases, ltb→lt}
use wf_all.Prelude.Lists.{keep, length}

-- The clock does not go back.
abbrev pub IsSteady : (ℕ → ℕ) → Type 0
IsSteady clock = (i j : ℕ) → i ≤ j → clock i ≤ clock j

module _ {A : Type 0} where
  add_total : ℕ → Option (List A × ℕ) → Option (List A × ℕ)
  add_total n none = none
  add_total n (some (s, m)) = some (s, n + m)

  unfoldable pub drain_at :
      (ℕ → List A → List A × ℕ) → ℕ → (ℕ → ℕ) → ℕ → List A → Option (List A × ℕ)
  unfolding add_total
  drain_at batch size clock zero s = none
  drain_at batch size clock (suc fuel) s =
      let done = batch (clock 0) s in
      let rest = drain_at batch size (λ k. clock (suc k)) fuel done.0 in
      if ltb done.1 size then some done else add_total done.1 rest

  -- The loop ended. With the time of its last batch, after k full ones, nothing but the rows that
  -- stay at that time is left, and all else is counted.
  abbrev pub Cleaned : (ℕ → A → Bool) → ℕ → (ℕ → ℕ) → List A → Option (List A × ℕ) → Type 0
  Cleaned stays size clock s o =
      (k : ℕ) × (n : ℕ) × (o ≡ some (keep (stays (clock k)) s, n))
      × (length (keep (stays (clock k)) s) + n ≡ length s)
      × (k * size ≤ n)

  -- A batch takes away only what does not stay, counts it, and takes all of it where it is not full;
  -- what does not stay now does not stay later.
  abbrev pub Cleans : (ℕ → List A → List A × ℕ) → ℕ → (ℕ → A → Bool) → Type 0
  Cleans batch size stays =
      (now : ℕ) (s : List A)
      → (length (batch now s).0 + (batch now s).1 ≡ length s)
        × ((batch now s).1 < size → (batch now s).0 ≡ keep (stays now) s)
        × ((later : ℕ) → now ≤ later → keep (stays later) (batch now s).0 ≡ keep (stays later) s)

  pub drain_at-Cleaned :
      (batch : ℕ → List A → List A × ℕ) (size : ℕ) (stays : ℕ → A → Bool)
      → Cleans batch size stays
      → 0 < size
      → (fuel : ℕ) (clock : ℕ → ℕ) → IsSteady clock
      → (s : List A) → length s < fuel
      → Cleaned stays size clock s (drain_at batch size clock fuel s)
  unfolding drain_at
  drain_at-Cleaned batch size stays b pos zero clock m s h = absurd (omega arith)
  drain_at-Cleaned batch size stays b pos (suc fuel) clock m s h =
      let (count, all, later) = b (clock 0) s in
      elim (Bool-cases (ltb (batch (clock 0) s).1 size)) [
        | inl few ↦ rw few (
          0,
          (batch (clock 0) s).1,
          ground (arith, all (ltb→lt _ _ few)),
          subst (λ l. length l + (batch (clock 0) s).1 ≡ length s) (all (ltb→lt _ _ few)) count,
          omega arith,
        )
        | inr full ↦ rw full (
            let (k, n, e, c, z) =
              drain_at-Cleaned batch size stays b pos fuel (λ j. clock (suc j))
                (λ i j l. m (suc i) (suc j) (omega (arith, l))) (batch (clock 0) s).0
                (ground (arith, count)) in
            let same = later (clock (suc k)) (m 0 (suc k) (omega arith)) in
            (
              suc k,
              (batch (clock 0) s).1 + n,
              ap (add_total (batch (clock 0) s).1) e
                  ∙ ap (λ l. some (l, (batch (clock 0) s).1 + n)) same,
              omega (arith, subst (λ l. length l + n ≡ length (batch (clock 0) s).0) same c, count),
              ground (arith, z),
            ))
      ]
