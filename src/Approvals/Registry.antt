-- ===== src/Approvals/Registry.antt =====
-- approvals.go: the actions that modules register, and the check of the initiator.
use wf_all.Prelude.{
  ℕ, Bool, true, false, not, List, [], ◌∷◌, Option, none, some, String, str_eq, if◌then◌else◌,
}
use wf_all.Auth.{Staff}
use wf_all.Perm
use wf_all.Approvals.{Row, ExecError}
use wf_all.Approvals.Formats.{is_action_name}

-- A call of CancelByInitiator that an executor makes in the transaction of Approve: whose requests,
-- when, and which rows another transaction holds.
pub record Cancelling : Type 0 where
  pub initiator : ℕ
  pub at : ℕ
  pub locked : ℕ → Bool

pub data ExecResult (W : Type 0) : Type 0 where
  done : W → List Cancelling → ExecResult W
  refused : ExecError → ExecResult W

-- `permit` answers `none` where it returns an error; `target` gives the target and the city.
pub record Action (W P : Type 0) : Type 0 where
  pub name : String
  pub permission : String
  pub permit : Option (P → Option String)
  pub exec : Option (W → P → Staff → ExecResult W)
  pub target : Option (P → ℕ × ℕ)

pub record Registry (W P : Type 0) : Type 0 where
  pub actions : List (Action W P)
  pub check : Option (W → Row P → Option ExecError)

abbrev is_draft_or_missing : Option Perm.Permission → Bool
is_draft_or_missing none = true
is_draft_or_missing (some p) = p.is_draft

-- `checkPermission`: the right stands in the catalogue and is no draft.
unfoldable pub check_permission : String → Bool
check_permission key = not (is_draft_or_missing (Perm.lookup key))

abbrev is_none {ℓ} : {A : Type ℓ} → Option A → Bool
is_none none = true
is_none (some _) = false

module _ {W P : Type 0} where
  -- `Registry.action`.
  unfoldable pub find_action : List (Action W P) → String → Option (Action W P)
  find_action [] name = none
  find_action (a ∷ rest) name = if str_eq a.name name then some a else find_action rest name

  unfoldable pub action : Registry W P → String → Option (Action W P)
  unfolding find_action
  action reg name = find_action reg.actions name

  -- `Register`; `none` is a panic.
  unfoldable pub register : Registry W P → Action W P → Option (Registry W P)
  unfolding action is_action_name
  register reg a =
      if not (is_action_name a.name)
      then none
      else if is_none a.exec
      then none
      else if not (check_permission a.permission)
      then none
      else elim (action reg a.name) [
        | some _ ↦ none
        | none ↦ some (record reg { actions = a ∷ reg.actions })
      ]

  -- `SetInitiatorCheck`: a second call panics.
  unfoldable pub set_initiator_check :
      Registry W P → (W → Row P → Option ExecError) → Option (Registry W P)
  set_initiator_check reg c = elim reg.check [
    | some _ ↦ none
    | none ↦ some (record reg { check = some c })
  ]

  -- `Validate`, true where there is no error.
  unfoldable pub validate : Registry W P → Bool
  validate reg = elim reg.actions [ [] ↦ true | _ ∷ _ ↦ not (is_none reg.check) ]
