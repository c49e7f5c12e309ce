-- ===== src/Idempotency/Cleanup.antt =====
-- DeleteExpired of table.go.
use wf_all.Prelude.{ℕ, Bool, not, leb}
use wf_all.Idempotency.{KeyRow}

-- The keys that have not run out.
abbrev pub stays : ℕ → KeyRow → Bool
stays now r = not (leb r.expires_at now)
