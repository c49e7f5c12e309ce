-- ===== src/Idempotency/Handler.antt =====
-- backend/internal/platform: the buffer of a response (idempotency/buffer.go), the handler of a
-- request, which runs transactions and answers, and InTx of db/tx.go with the hook of the claim.
use wf_all.Prelude.{ℕ, ◌==◌, true, false, List, [], ◌++◌, Option, none, some, Text, if◌then◌else◌}
use wf_all.Idempotency.{
  Keys, Claim, ClaimState, TxEnv, Problem, Hooked, refused, stuck, claimed, hook, settle,
}

pub record Buffer : Type 0 where
  pub headers : List (Text × Text)
  pub status : ℕ
  pub body : Text

abbrev pub new_buffer : Buffer
new_buffer = record { headers = []; status = 0; body = [] }

unfoldable pub write_header : ℕ → Buffer → Buffer
write_header s b = if b.status == 0 then record b { status = s } else b

unfoldable pub write : Text → Buffer → Buffer
unfolding write_header
write t b = let b' = write_header 200 b in record b' { body = b'.body ++ t }

unfoldable pub code : Buffer → ℕ
code b = if b.status == 0 then 200 else b.status

-- How InTx ends for the handler.
pub data TxEnd : Type 0 where
  done : TxEnd
  hook_failed : Problem → TxEnd
  body_failed db_failed : TxEnd

-- A handler: transactions, each by what it makes of the state, none for an error, and what follows
-- its end; and at last an answer.
pub data Handler (W : Type 0) : Type 0 where
  answer : Buffer → Handler W
  transact : TxEnv → (W → Option W) → (TxEnd → Handler W) → Handler W

module _ {W : Type 0} where
  -- The end of the transaction of a claimed key.
  unfoldable pub close :
      TxEnv → ClaimState → Keys → Keys → W → Option W → (Keys × W) × ClaimState × TxEnd
  unfolding settle
  close env st keys keys' w none = ((keys, w), settle false st, body_failed)
  close env st keys keys' w (some w') =
      if env.commit_fails
      then ((keys, w), settle false st, db_failed)
      else ((keys', w'), settle true st, done)

  unfoldable pub after_hook :
      TxEnv → Keys → (W → Option W) → W → Hooked → (Keys × W) × ClaimState × TxEnd
  unfolding close settle
  after_hook env keys f w (refused st p) = ((keys, w), st, hook_failed p)
  after_hook env keys f w (stuck st p) = ((keys, w), settle false st, hook_failed p)
  after_hook env keys f w (claimed st keys') = close env st keys keys' w (f w)

  -- InTx with the hook.
  unfoldable pub in_tx :
      TxEnv → Claim → (W → Option W) → ClaimState → Keys → W → (Keys × W) × ClaimState × TxEnd
  unfolding after_hook hook
  in_tx env c f st keys w =
      if env.begin_fails
      then ((env.others keys, w), st, db_failed)
      else after_hook env (env.others keys) f w (hook env c st (env.others keys))

  -- next.ServeHTTP with the hook in the context.
  unfoldable pub run : Claim → Handler W → ClaimState → Keys → W → (Keys × W) × ClaimState × Buffer
  unfolding in_tx
  run c (answer b) st keys w = ((keys, w), st, b)
  run c (transact env f next) st keys w =
      let ((keys', w'), st', e) = in_tx env c f st keys w in run c (next e) st' keys' w'

  -- InTx without a hook.
  unfoldable pub plain_tx : TxEnv → (W → Option W) → W → W × TxEnd
  plain_tx env f w = if env.begin_fails then (w, db_failed) else ended (f w)
    where
      ended : Option W → W × TxEnd
      ended none = (w, body_failed)
      ended (some w') = if env.commit_fails then (w, db_failed) else (w', done)

  unfoldable pub run_plain : Handler W → W → W × Buffer
  unfolding plain_tx
  run_plain (answer b) w = (w, b)
  run_plain (transact env f next) w = let (w', e) = plain_tx env f w in run_plain (next e) w'
