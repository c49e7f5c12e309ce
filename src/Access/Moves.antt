-- ===== src/Access/Moves.antt =====
-- Every call that moves the failures of an account makes one of the moves of Tally, and moves the
-- accounts of the others by none.
use wf_all.Prelude.{
  ℕ, ◌==◌, ◌≡◌, refl, sym, ap, ◌∙◌, subst, true, false, Option, none, some, Bool-cases, inl, inr,
  arith, ==_iff, List, [], ◌∷◌, ◌++◌,
}
use wf_all.Access.{Account, Db, AuditEntry, no_randomness, replaced}
use wf_all.Access.Tx.{◌>>=◌, ◌>>◌, pure, or_raise, modify}
use wf_all.Access.Store.{
  lock_account, set_account, write_audit, insert_session, revoke_where, is_session,
}
use wf_all.Access.Factor.{Env}
use wf_all.Access.Guarded.{NewSession, replace_session, session_of}
use wf_all.Access.Logic.{Ends}
use wf_all.Access.Rows.{
  map_some, lock_account-set_account, lock_account-set_account_other, lock_account-id,
}
use wf_all.Access.Tally.{
  tally, tally_of, tally_of-quiet, pass_detail, fail_detail, count-skip, count-hit, Move, idle,
  passes, pass_tally, is_fail, is_pass,
}

-- One move of every account at a time.
abbrev pub Moves : (now : ℕ) → Db → Db → Type 0
Moves now db db' = (j : ℕ) → Move now (tally j db) (tally j db')

-- One that leaves each as it is.
abbrev pub Idle : Db → Db → Type 0
Idle db db' = (j : ℕ) → tally j db' ≡ tally j db

pub Idle-Moves : (now : ℕ) (db db' : Db) → Idle db db' → Moves now db db'
Idle-Moves now db db' h j = subst (Move now (tally j db)) (sym (h j)) idle

abbrev pub SameRows : Db → Db → Type 0
SameRows db db' = (db'.accounts ≡ db.accounts) × (db'.audit ≡ db.audit)

pub SameRows-Idle : (db db' : Db) → SameRows db db' → Idle db db'
unfolding tally lock_account
SameRows-Idle db db' h j = rw (h.0, h.1) refl

tally_of-map :
    (j : ℕ) (change : Account → Account) (o : Option Account) (es : List AuditEntry)
    → ((a : Account) → (change a).failures ≡ a.failures)
    → ((a : Account) → (change a).locked_until ≡ a.locked_until)
    → tally_of j (map_some change o) es ≡ tally_of j o es
unfolding tally_of
tally_of-map j change none es g h = refl
tally_of-map j change (some a) es g h = rw (g a, h a) refl

-- A change of an account that keeps its count and its lock.
pub set_account-Idle :
    (i : ℕ) (change : Account → Account) (db : Db)
    → ((a : Account) → (change a).id ≡ a.id)
    → ((a : Account) → (change a).failures ≡ a.failures)
    → ((a : Account) → (change a).locked_until ≡ a.locked_until)
    → Idle db (set_account i change db)
unfolding tally set_account
set_account-Idle i change db f g h j = elim (Bool-cases (j == i)) [
  | inl e ↦
      subst (λ k. tally j (set_account k change db) ≡ tally j db) ((==_iff j i).0 e)
        (rw (lock_account-set_account j change db f)
          (tally_of-map j change (lock_account j db) db.audit g h))
  | inr e ↦ rw (lock_account-set_account_other j i change db f e) refl
]

passed_tally_of :
    (a b : Account) (es : List AuditEntry) (e : AuditEntry)
    → (b.failures ≡ 0) × (b.locked_until ≡ a.locked_until)
    → (pass_detail e.detail ≡ true) × (fail_detail e.detail ≡ false) × (e.object ≡ a.id)
    → tally_of a.id (some b) (es ++ (e ∷ [])) ≡ pass_tally (tally_of a.id (some a) es)
unfolding tally_of pass_tally
passed_tally_of a b es e h p =
    ground (arith, count-hit (is_pass a.id) es e, count-skip (is_fail a.id) es e)

foreign :
    (i j : ℕ) (e : AuditEntry)
    → (i == j) ≡ false
    → (pass_detail e.detail ≡ true) × (fail_detail e.detail ≡ false) × (e.object ≡ j)
    → (is_fail i e ≡ false) × (is_pass i e ≡ false)
foreign i j e h p = ground arith

-- A pass: the count is cleared, and the audit has it.
pub set_account-passes :
    (now : ℕ) (a : Account) (change : Account → Account) (entry : AuditEntry) (db : Db)
    → lock_account a.id db ≡ some a
    → ((x : Account) → (change x).id ≡ x.id)
    → ((x : Account) → (change x).failures ≡ 0)
    → ((x : Account) → (change x).locked_until ≡ x.locked_until)
    → (pass_detail entry.detail ≡ true) × (fail_detail entry.detail ≡ false) × (entry.object ≡ a.id)
    → Moves now db (write_audit entry (set_account a.id change db))
unfolding tally set_account lock_account pass_tally
set_account-passes now a change entry db e f g h p j = elim (Bool-cases (j == a.id)) [
  | inl d ↦
      let here = lock_account-set_account a.id change db f ∙ ap (map_some change) e in
      let db1 = write_audit entry (set_account a.id change db) in
      let move : tally a.id db1 ≡ pass_tally (tally a.id db) =
        rw (here, e) (passed_tally_of a (change a) db.audit entry (g a, h a) p) in
      subst (λ k. Move now (tally k db) (tally k db1)) (sym ((==_iff j a.id).0 d))
        (subst (Move now (tally a.id db)) (sym move) passes)
  | inr d ↦
      let quiet = tally_of-quiet j (lock_account j db) db.audit entry (foreign j a.id entry d p) in
      let same : tally j (write_audit entry (set_account a.id change db)) ≡ tally j db =
        rw (lock_account-set_account_other j a.id change db f d) quiet in
      subst (Move now (tally j db)) (sym same) idle
]

-- The same, of the account that was found.
pub set_account-passed :
    (now i : ℕ) (a : Account) (change : Account → Account) (entry : AuditEntry) (db : Db)
    → lock_account i db ≡ some a
    → ((x : Account) → (change x).id ≡ x.id)
    → ((x : Account) → (change x).failures ≡ 0)
    → ((x : Account) → (change x).locked_until ≡ x.locked_until)
    → (pass_detail entry.detail ≡ true) × (fail_detail entry.detail ≡ false) × (entry.object ≡ a.id)
    → Moves now db (write_audit entry (set_account i change db))
set_account-passed now i a change entry db e f g h p =
    let same = lock_account-id i a db e in
    subst (λ k. Moves now db (write_audit entry (set_account k change db))) same
      (set_account-passes now a change entry db
        (subst (λ k. lock_account k db ≡ some a) (sym same) e) f g h p)

pub lock_account-SameRows :
    (i : ℕ) (db db1 : Db) (a : Account)
    → SameRows db db1
    → lock_account i db ≡ some a
    → lock_account i db1 ≡ some a
unfolding lock_account
lock_account-SameRows i db db1 a h e = rw (h.0) e

-- The same, before a state that moves on.
pub Moves-after : (now : ℕ) (db db1 db2 : Db) → Idle db db1 → Moves now db1 db2 → Moves now db db2
Moves-after now db db1 db2 h g j = subst (λ t. Move now t (tally j db2)) (h j) (g j)

new_session-SameRows :
    (env : Env) (ns : NewSession) (t : Option (ℕ × ℕ)) (db : Db)
    → Ends
        (λ _. SameRows db)
        ((or_raise t no_randomness >>= λ t.
            modify (insert_session (session_of env ns t.1)) >> pure t.0)
          db)
unfolding insert_session
new_session-SameRows env ns none db = tt
new_session-SameRows env ns (some t) db = (refl, refl)

-- replaceSession writes sessions only.
pub replace_session-SameRows :
    (env : Env) (old : ℕ) (ns : NewSession) (db : Db)
    → Ends (λ _. SameRows db) (replace_session env old ns db)
unfolding replace_session insert_session revoke_where
replace_session-SameRows env old ns db = elim (Bool-cases (old == 0)) [
  | inl e ↦ rw e (new_session-SameRows env ns env.fresh db)
  | inr e ↦
      rw e
        (new_session-SameRows env ns env.fresh (revoke_where (is_session old) env.now replaced db))
]
