-- ===== src/Approvals/Stored.antt =====
-- The CHECK constraints of the table approvals (backend/migrations/0020_staff.sql, approvals_*), as what every
-- row satisfies, and that each decision of the service keeps to them.
use wf_all.Prelude.{
  ℕ, ◌<◌, ◌≤◌, ◌≡◌, refl, ◌≢◌, ◌⊎◌, Bool, true, false, [], ◌∷◌, Option, none, some, String, Text,
  arith, length, trim, is_empty, ltb, ◌||◌, if◌then◌else◌,
}
use wf_all.Approvals.{
  Status, pending, executed, rejected, cancelled, expired, failed, Row, Actor, system_label,
}
use wf_all.Approvals.Formats.{View, is_action_name, is_permission_name, has_version}
use wf_all.Approvals.Labels.{shows, shows-trim}
use wf_all.Approvals.Decide.{apply, decision_of}
use wf_all.Approvals.Service.{snapshot, given, too_long, optional_comment}
use wf_all.Approvals.Outcomes.{Deciding, expiry_of}

-- executed, rejected or failed.
abbrev pub is_verdict : Status → Bool
is_verdict executed = true
is_verdict rejected = true
is_verdict failed = true
is_verdict _ = false

-- A label and a comment have a character that is no space, so that btrim leaves one.
abbrev pub IsLabel : Text → Type 0
IsLabel t = (shows t ≡ true) × (length t ≤ 120)

abbrev pub IsLabel? : Option Text → Type 0
IsLabel? none = Unit
IsLabel? (some t) = IsLabel t

abbrev pub FitsComment : Option Text → Type 0
FitsComment none = Unit
FitsComment (some t) = (shows t ≡ true) × (length t ≤ 1000)

module _ {P : Type 0} (view : P → View) where
  pub record IsStored (r : Row P) : Type 0 where
    pub action_format : is_action_name r.action ≡ true
    pub permission_format : is_permission_name r.permission ≡ true
    pub payload_versioned : has_version (view r.payload) ≡ true
    pub expiry : r.requested_at < r.expires_at
    pub requested_label : IsLabel r.requested_by_label
    pub decided_label : IsLabel? r.decided_by_label
    pub comment_check : FitsComment r.decision_comment
    pub pending_undecided :
        r.status ≡ pending
        → (r.decided_at ≡ none) × (r.decided_by ≡ none) × (r.decided_by_label ≡ none)
    pub decided_at_check : r.status ≢ pending → r.decided_at ≢ none
    pub decider_label : r.decided_by ≢ none → r.decided_by_label ≢ none
    pub system_decider :
        r.decided_by ≡ none
        → r.status ≢ pending
        → ((r.status ≡ expired) ⊎ (r.status ≡ cancelled)) × (r.decided_by_label ≡ some system_label)
    pub decider_required : is_verdict r.status ≡ true → r.decided_by ≢ none
    pub two_hands :
        is_verdict r.status ≡ true
        → (r.decided_by ≢ some r.requested_by) × (r.decided_by ≢ r.target_id)
    pub cancel_by_initiator :
        r.status ≡ cancelled
        → (r.decided_by ≡ none) ⊎ ((r.decided_by ≡ some r.requested_by) × (r.error ≡ none))
    pub reject_comment : r.status ≡ rejected → r.decision_comment ≢ none
    pub failed_error : r.status ≡ failed → r.error ≢ none
    pub no_error : r.status ≢ failed → r.status ≢ cancelled → r.error ≡ none

  -- A verdict of somebody whom the gate let through.
  pub verdict-IsStored :
      (r : Row P) (to : Status) (by : Actor) (c : Option Text) (f : Option String) (at now : ℕ)
      → IsStored r
      → Deciding by.staff r at
      → IsLabel by.label
      → FitsComment c
      → is_verdict to ≡ true
      → (to ≡ rejected → c ≢ none)
      → (to ≡ failed → f ≢ none)
      → (to ≢ failed → f ≡ none)
      → IsStored (apply (decision_of r to (some by) c f now) r)
  unfolding apply decision_of
  verdict-IsStored r to by c f at now h d l k v m p q = record {
    action_format = h.action_format;
    permission_format = h.permission_format;
    payload_versioned = h.payload_versioned;
    expiry = h.expiry;
    requested_label = h.requested_label;
    decided_label = l;
    comment_check = k;
    pending_undecided = λ e. absurd (ground arith);
    decided_at_check = λ _. λ e. cc;
    decider_label = λ _. λ e. cc;
    system_decider = λ e. absurd (cc);
    decider_required = λ _. λ e. cc;
    two_hands = λ _. (λ e. ground arith, λ e. ground arith);
    cancel_by_initiator = λ e. absurd (ground arith);
    reject_comment = m;
    failed_error = p;
    no_error = λ n _. q n;
  }

  pub cancel-IsStored :
      (r : Row P) (by : Actor) (now : ℕ)
      → IsStored r
      → r.requested_by ≡ by.staff.staff_id
      → IsLabel by.label
      → IsStored (apply (decision_of r cancelled (some by) none none now) r)
  unfolding apply decision_of
  cancel-IsStored r by now h e l = ground arith

  pub expiry-IsStored : (r : Row P) (now : ℕ) → IsStored r → IsStored (apply (expiry_of r now) r)
  unfolding apply decision_of
  expiry-IsStored r now h = ground arith

pub snapshot-IsLabel : (l t : Text) → snapshot l ≡ some t → IsLabel t
unfolding snapshot
snapshot-IsLabel l t h = label_of (trim l) (shows-trim l) h
  where
    label_of :
        (t' : Text)
        → (is_empty t' ≡ false → shows t' ≡ true)
        → (if is_empty t' || ltb 120 (length t') then none else some t') ≡ some t
        → IsLabel t
    label_of [] p e = absurd (cc)
    label_of (x ∷ xs) p e = ground (arith, p refl)

pub optional_comment-FitsComment :
    (text : Text) (c : Option Text) → optional_comment text ≡ given c → FitsComment c
unfolding optional_comment
optional_comment-FitsComment text c h = fits (trim text) (shows-trim text) h
  where
    fits :
        (t : Text)
        → (is_empty t ≡ false → shows t ≡ true)
        → (if is_empty t
            then given none
            else if ltb 500 (length t)
            then too_long
            else given (some t))
          ≡ given c
        → FitsComment c
    fits [] p e = ground arith
    fits (x ∷ xs) p e = ground (arith, p refl)
