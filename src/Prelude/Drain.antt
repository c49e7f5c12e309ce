-- ===== src/Prelude/Drain.antt =====
-- The loop `for { n, err := batch(); total += n; if n < size { return total } }`, which the
-- clean-ups and ExpireDue share, on fuel.
use Prim.Native.Nat.{ℕ, zero, suc, ◌+◌, ◌≤◌, ◌<◌, min}
use mathlib.Core.Path.{◌≡◌, refl}
use mathlib.Core.Logic.{inl, inr}
use mathlib.Core.Option.{Option, none, some}
use native.Mathlib.Omega.{arith}
use wf_all.Prelude.Tests.{ltb, if◌then◌else◌, Bool-cases, ltb→lt}

module _ {S : Type 0} where
  add_total : ℕ → Option (S × ℕ) → Option (S × ℕ)
  add_total n none = none
  add_total n (some (s, m)) = some (s, n + m)

  unfoldable pub drain : (S → S × ℕ) → ℕ → ℕ → S → Option (S × ℕ)
  unfolding add_total
  drain batch size zero s = none
  drain batch size (suc fuel) s =
      let rest = drain batch size fuel (batch s).0 in
      if ltb (batch s).1 size then some (batch s) else add_total (batch s).1 rest

  -- The loop ended with nothing left, and the total is what there was.
  abbrev pub Drained : (S → ℕ) → S → Option (S × ℕ) → Type 0
  Drained left s o = (s' : S) × (n : ℕ) × (o ≡ some (s', n)) × (left s' ≡ 0) × (n ≡ left s)

  -- A batch counts what it takes away, and takes as much as its size allows.
  abbrev pub Batches : (S → S × ℕ) → ℕ → (S → ℕ) → Type 0
  Batches batch size left =
      (s : S) → (left (batch s).0 + (batch s).1 ≡ left s) × (min size (left s) ≤ (batch s).1)

  pub drain-Drained :
      (batch : S → S × ℕ) (size : ℕ) (left : S → ℕ)
      → Batches batch size left
      → 0 < size
      → (fuel : ℕ) (s : S) → left s < fuel
      → Drained left s (drain batch size fuel s)
  unfolding drain
  drain-Drained batch size left b pos zero s h = absurd (omega arith)
  drain-Drained batch size left b pos (suc fuel) s h = elim (Bool-cases (ltb (batch s).1 size)) [
    | inl few ↦ rw few (
      (batch s).0,
      (batch s).1,
      refl,
      omega (arith, b s, ltb→lt _ _ few),
      omega (arith, b s, ltb→lt _ _ few),
    )
    | inr full ↦ rw full (
        let (s', n, e, z, k) =
          drain-Drained batch size left b pos fuel (batch s).0 (ground (arith, b s)) in
        rw e (s', (batch s).1 + n, refl, z, omega (arith, b s)))
  ]
