-- ===== src/Approvals/Names.antt =====
-- Names that Request enters have the formats of the CHECK constraints: an action's because Register
-- tests it, a right's because every key of the catalogue has it.
use wf_all.Prelude.{
  ◌≡◌, refl, sym, subst, true, List, [], ◌∷◌, Option, none, some, String, str_eq, str_eq_iff, arith,
  Bool-cases, Option-cases, inl, inr, All,
}
use wf_all.Perm
use wf_all.Perm.Laws.{lookup-key}
use wf_all.Approvals.{Row, ExecError}
use wf_all.Approvals.Formats.{View, is_versioned, has_version, is_action_name, is_permission_name}
use wf_all.Approvals.Registry.{
  Action, Registry, action, find_action, register, set_initiator_check, check_permission,
}

pub check_permission-name : (k : String) → check_permission k ≡ true → is_permission_name k ≡ true
unfolding check_permission Perm.rows is_permission_name
check_permission-name k h = elim (Option-cases (Perm.lookup k)) [
  | inl n ↦ absurd (ground arith)
  | inr (p, e) ↦ lookup-key is_permission_name k p refl e
]

pub versioned : (v : View) → is_versioned v ≡ true → has_version v ≡ true
unfolding is_versioned has_version
versioned v h = ground arith

module _ {W P : Type 0} where
  -- The registries that NewRegistry, Register and SetInitiatorCheck make, without a panic.
  pub data Built : Registry W P → Type 0 where
    fresh : Built (record { actions = []; check = none })
    registered :
        {reg reg' : Registry W P}
        → Built reg
        → (a : Action W P) → register reg a ≡ some reg'
        → Built reg'
    with_check :
        {reg reg' : Registry W P}
        → Built reg
        → (c : W → Row P → Option ExecError) → set_initiator_check reg c ≡ some reg'
        → Built reg'

  abbrev Named : Action W P → Type 0
  Named a = is_action_name a.name ≡ true

  register-Named :
      (reg reg' : Registry W P) (a : Action W P)
      → register reg a ≡ some reg'
      → Named a × (reg'.actions ≡ a ∷ reg.actions)
  unfolding register
  register-Named reg reg' a h = ground arith

  check-same :
      (reg reg' : Registry W P) (c : W → Row P → Option ExecError)
      → set_initiator_check reg c ≡ some reg'
      → reg'.actions ≡ reg.actions
  unfolding set_initiator_check
  check-same reg reg' c h = ground arith

  Built-Named : (reg : Registry W P) → Built reg → All Named reg.actions
  Built-Named _ fresh = tt
  Built-Named _ (registered {reg = reg} {reg' = reg'} b a h) =
      let n = register-Named reg reg' a h in subst (All Named) (sym n.1) (n.0, Built-Named reg b)
  Built-Named _ (with_check {reg = reg} {reg' = reg'} b c h) =
      subst (All Named) (sym (check-same reg reg' c h)) (Built-Named reg b)

  find_action-name :
      (acts : List (Action W P)) (name : String) (a : Action W P)
      → All Named acts
      → find_action acts name ≡ some a
      → is_action_name name ≡ true
  unfolding find_action
  find_action-name [] name a n h = absurd (cc)
  find_action-name (x ∷ acts) name a n h = elim (Bool-cases (str_eq x.name name)) [
    | inl s ↦ subst (λ k. is_action_name k ≡ true) ((str_eq_iff x.name name).0 s) n.0
    | inr s ↦ find_action-name acts name a n.1 (ground arith)
  ]

  pub action-named :
      (reg : Registry W P) (name : String) (a : Action W P)
      → Built reg
      → action reg name ≡ some a
      → is_action_name name ≡ true
  unfolding action
  action-named reg name a b h = find_action-name reg.actions name a (Built-Named reg b) h
