-- ===== src/Ratelimit/Rows.antt =====
-- The table of limits seen through one key: what Allow, Add and the clean-up do to its row.
use wf_all.Prelude.{
  ℕ, ◌+◌, ◌/◌, ◌≤◌, ◌≡◌, refl, sym, ap, Bool, true, false, Option, none, some, arith, Text, max,
  subst, [], ◌∷◌, text_eq, text_eq_refl, text_eq_iff, Bool-cases, inl, inr,
}
use wf_all.Prelude.Int.{ℤ}
use wf_all.Ratelimit.{Policy, interval, window, check, Checked, refused, not_limited, limited}
use wf_all.Ratelimit.Store.{
  Table, Env, allow, allow_checked, after_take, add, add_checked, added_tat, get_tat, put_tat,
  next_tat, delete_expired,
}
use wf_all.Ratelimit.Limits.{Applies, passes, refusal-allowed}

get_tat-put_tat : (tab : Table) (key : Text) (v : ℕ) → get_tat (put_tat tab key v) key ≡ some v
unfolding get_tat put_tat
get_tat-put_tat [] key v = rw (text_eq_refl key) refl
get_tat-put_tat ((k, old) ∷ tab) key v = ground (arith, get_tat-put_tat tab key v)

get_tat-put_tat_ne :
    (tab : Table) (k key : Text) (v : ℕ)
    → text_eq k key ≡ false
    → get_tat (put_tat tab k v) key ≡ get_tat tab key
unfolding get_tat put_tat
get_tat-put_tat_ne [] k key v h = rw h refl
get_tat-put_tat_ne ((x, old) ∷ tab) k key v h =
    ground (arith, get_tat-put_tat_ne tab k key v h, text_eq_iff x k, text_eq_iff x key)

-- What a row counts for from `now` on: its tat, or the clock where that is later.
abbrev pub level : Option ℕ → ℕ → ℕ
level none now = now
level (some tat) now = max tat now

abbrev pub cost : Bool → ℕ → ℕ
cost true n = n
cost false n = 0

-- A step at `now` takes the row from `o` to `o'` and lets a request of the key pass or not: a pass
-- costs an interval `t`, and leaves no more than the window `w`.
unfoldable pub Gains : ℕ → ℕ → ℕ → Option ℕ → Option ℕ → Bool → Type 0
Gains now t w o o' b = (level o now + cost b t ≤ level o' now) × (cost b (level o' now) ≤ now + w)

pub still-Gains : (now t w : ℕ) (o : Option ℕ) → Gains now t w o o false
unfolding Gains
still-Gains now t w o = (omega arith, omega arith)

next_tat-Gains :
    (now t w v : ℕ) (o : Option ℕ)
    → next_tat o now t w ≡ some v
    → t ≤ w
    → Gains now t w o (some v) true
unfolding Gains next_tat
next_tat-Gains now t w v none h l = ground arith
next_tat-Gains now t w v (some tat) h l = ground arith

added_tat-Gains : (now t w s : ℕ) (o : Option ℕ) → Gains now t w o (some (added_tat o now s)) false
unfolding Gains added_tat
added_tat-Gains now t w s none = ground arith
added_tat-Gains now t w s (some tat) = ground arith

pub delete_expired-Gains :
    (now t w batch : ℕ) (tab : Table) (key : Text)
    → Gains now t w (get_tat tab key) (get_tat (delete_expired now batch tab).0 key) false
unfolding Gains delete_expired get_tat
delete_expired-Gains now t w batch [] key = (omega arith, omega arith)
delete_expired-Gains now t w batch ((k, tat) ∷ tab) key =
    ground (arith, delete_expired-Gains now t w batch tab key)

-- What Allow does to a row, once the outcome of Take is known.
after_take-Gains :
    (micros : ℤ → ℕ) (env : Env) (tab : Table) (key : Text) (p : Policy) (now t w : ℕ)
    (o : Option ℕ)
    → env.meanwhile tab ≡ tab
    → next_tat (get_tat tab key) now t w ≡ o
    → t ≤ w
    → Gains now t w
        (get_tat tab key)
        (get_tat (after_take micros env tab key p o).0 key)
        (passes (after_take micros env tab key p o).1)
unfolding after_take
after_take-Gains micros env tab key p now t w (some v) m e l =
    rw (get_tat-put_tat tab key v) (next_tat-Gains now t w v (get_tat tab key) e l)
after_take-Gains micros env tab key p now t w none m e l = elim (Bool-cases (env.fails 1)) [
  | inl f ↦ rw (f, m) (still-Gains now t w (get_tat tab key))
  | inr f ↦
      rw (f, m, refusal-allowed env.now p (get_tat tab key)) (still-Gains now t w (get_tat tab key))
]

pub allow-Gains :
    (micros : ℤ → ℕ) (env : Env) (tab : Table) (key : Text) (p : Policy)
    → env.meanwhile tab ≡ tab
    → (a : Applies micros p)
    → Gains
        (env.now / 1000)
        a.t
        a.w
        (get_tat tab key)
        (get_tat (allow micros env tab key p).0 key)
        (passes (allow micros env tab key p).1)
unfolding allow
allow-Gains micros env tab key p m a =
    rw (a.applied, a.micros_t, a.micros_w)
      (elim (Bool-cases (env.fails 0)) [
        | inl f ↦ rw f (still-Gains (env.now / 1000) a.t a.w (get_tat tab key))
        | inr f ↦
            rw f (after_take-Gains micros env tab key p (env.now / 1000) a.t a.w _ m refl a.t_le)
      ])

after_take-put_ne :
    (micros : ℤ → ℕ) (env : Env) (tab : Table) (k key : Text) (p : Policy) (o : Option ℕ)
    → env.meanwhile tab ≡ tab
    → text_eq k key ≡ false
    → get_tat (after_take micros env tab k p o).0 key ≡ get_tat tab key
unfolding after_take
after_take-put_ne micros env tab k key p none m h = ground (arith, ap (λ t. get_tat t key) m)
after_take-put_ne micros env tab k key p (some v) m h = get_tat-put_tat_ne tab k key v h

allow_checked-ne :
    (micros : ℤ → ℕ) (env : Env) (tab : Table) (k key : Text) (p : Policy) (c : Checked)
    → env.meanwhile tab ≡ tab
    → text_eq k key ≡ false
    → get_tat (allow_checked micros env tab k p c).0 key ≡ get_tat tab key
unfolding allow_checked
allow_checked-ne micros env tab k key p (refused e) m h = refl
allow_checked-ne micros env tab k key p not_limited m h = refl
allow_checked-ne micros env tab k key p limited m h = ground (
  arith,
  after_take-put_ne micros env tab k key p
      (next_tat (get_tat tab k) (env.now / 1000) (micros (interval p)) (micros (window p))) m h,
)

pub allow-ne :
    (micros : ℤ → ℕ) (env : Env) (tab : Table) (k key : Text) (p : Policy)
    → env.meanwhile tab ≡ tab
    → text_eq k key ≡ false
    → get_tat (allow micros env tab k p).0 key ≡ get_tat tab key
unfolding allow
allow-ne micros env tab k key p m h = allow_checked-ne micros env tab k key p (check p) m h

put-Gains :
    (now : ℕ) (tab : Table) (k key : Text) (t w s : ℕ)
    → Gains
        (now / 1000)
        t
        w
        (get_tat tab key)
        (get_tat (put_tat tab k (added_tat (get_tat tab k) (now / 1000) s)) key)
        false
put-Gains now tab k key t w s = elim (Bool-cases (text_eq k key)) [
  | inl e ↦
      subst
        (λ x.
          Gains (now / 1000) t w (get_tat tab key)
            (get_tat (put_tat tab x (added_tat (get_tat tab x) (now / 1000) s)) key) false)
        (sym ((text_eq_iff k key).0 e))
        (rw (get_tat-put_tat tab key (added_tat (get_tat tab key) (now / 1000) s))
          (added_tat-Gains (now / 1000) t w s (get_tat tab key)))
  | inr e ↦
      rw (get_tat-put_tat_ne tab k key (added_tat (get_tat tab k) (now / 1000) s) e)
        (still-Gains (now / 1000) t w (get_tat tab key))
]

add_checked-Gains :
    (micros : ℤ → ℕ) (env : Env) (tab : Table) (k key : Text) (p : Policy) (c : Checked) (t w : ℕ)
    → Gains
        (env.now / 1000)
        t
        w
        (get_tat tab key)
        (get_tat (add_checked micros env tab k p c).0 key)
        false
unfolding add_checked
add_checked-Gains micros env tab k key p (refused e) t w = still-Gains _ t w _
add_checked-Gains micros env tab k key p not_limited t w = still-Gains _ t w _
add_checked-Gains micros env tab k key p limited t w =
    let s = micros (interval p) in
    elim (Bool-cases (env.fails 0)) [
      | inl f ↦ rw f (still-Gains _ t w _)
      | inr f ↦ rw f (put-Gains env.now tab k key t w s)
    ]

pub add-Gains :
    (micros : ℤ → ℕ) (env : Env) (tab : Table) (k key : Text) (p : Policy) (t w : ℕ)
    → Gains (env.now / 1000) t w (get_tat tab key) (get_tat (add micros env tab k p).0 key) false
unfolding add
add-Gains micros env tab k key p t w = add_checked-Gains micros env tab k key p (check p) t w
