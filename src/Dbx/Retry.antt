-- ===== src/Dbx/Retry.antt =====
-- common/dbx/db.go, `retryIfLocked`: a transaction is run again while the database is locked, and
-- what it did is kept only if a run and the commit behind it succeed.
use lomo_backup.Common.{
  ℕ, zero, suc, ◌+◌, ◌<◌, ◌≡◌, refl, subst, Option, none, some, inl, inr, Option-cases, arith,
}

-- `maxRetry`
abbrev pub max_retry : ℕ
max_retry = 100000

-- An error that says that the database is locked, and any other error of a run.
pub data RunError : Type 0 where
  busy : RunError
  other : ℕ → RunError

-- What one run leaves in the transaction and in the variables of the caller, and its error.
pub record Run (T V : Type 0) : Type 0 where
  pub tx : T
  pub vars : V
  pub error : Option RunError

-- What the caller gets: the database, the variables, and the error.
abbrev pub Answer : Type 0 → Type 0 → Type 0
Answer = Run

-- `begun` and `commit` are the errors of `Begin` and of `Commit`; `run` gets the number of the attempt,
-- by which the database may be locked or not.
module _ {T V : Type 0} (begun : Option RunError) (run : ℕ → T → V → Run T V)
    (commit : T → Option RunError) (db : T) where
  -- A commit that fails is not tried again, also if the database is locked, and leaves the database as it
  -- was.
  committed : T → V → Answer T V
  committed tx vars = elim (commit tx) [
    | none ↦ record { tx = tx; vars = vars; error = none }
    | some e ↦ record { tx = db; vars = vars; error = some e }
  ]

  -- What follows an attempt with its error: if the database is locked, another one in the same
  -- transaction, with what this one has left in it. `tx.Rollback` leaves the database as it was.
  retried : (T → V → Answer T V) → T → V → Option RunError → Answer T V
  unfolding committed
  retried again tx vars none = committed tx vars
  retried again tx vars (some busy) = again tx vars
  retried again tx vars (some (other n)) = record { tx = db; vars = vars; error = some (other n) }

  -- `left` attempts from number `retry` on.
  retry_loop : ℕ → ℕ → T → V → Answer T V
  unfolding retried
  retry_loop zero retry tx vars = record { tx = db; vars = vars; error = some busy }
  retry_loop (suc left) retry tx vars =
      let r = run retry tx vars in retried (retry_loop left (suc retry)) r.tx r.vars r.error

  behind_begin : V → Option RunError → Answer T V
  unfolding retry_loop
  behind_begin vars (some e) = record { tx = db; vars = vars; error = some e }
  behind_begin vars none = retry_loop max_retry 0 db vars

  unfoldable pub retry_if_locked : V → Answer T V
  unfolding behind_begin
  retry_if_locked vars = behind_begin vars begun

  module _ (vars : V) where
    -- Attempt `k` finds this in the transaction and in the variables, after attempts in each of which the
    -- database was locked.
    pub data Reached : ℕ → T → V → Type 0 where
      first : Reached 0 db vars
      again :
          {k : ℕ} {tx : T} {v : V}
          → Reached k tx v
          → (run k tx v).error ≡ some busy
          → Reached (suc k) (run k tx v).tx (run k tx v).vars

    -- How a call may end.
    pub data Ends : Answer T V → Type 0 where
      not_begun :
          {e : RunError} → begun ≡ some e → Ends (record { tx = db; vars = vars; error = some e })
      kept :
          {k : ℕ} {tx : T} {v : V}
          → begun ≡ none
          → k < max_retry
          → Reached k tx v
          → (run k tx v).error ≡ none
          → commit (run k tx v).tx ≡ none
          → Ends (record { tx = (run k tx v).tx; vars = (run k tx v).vars; error = none })
      not_committed :
          {k : ℕ} {tx : T} {v : V} {e : RunError}
          → begun ≡ none
          → k < max_retry
          → Reached k tx v
          → (run k tx v).error ≡ none
          → commit (run k tx v).tx ≡ some e
          → Ends (record { tx = db; vars = (run k tx v).vars; error = some e })
      failed :
          {k : ℕ} {tx : T} {v : V} {n : ℕ}
          → begun ≡ none
          → k < max_retry
          → Reached k tx v
          → (run k tx v).error ≡ some (other n)
          → Ends (record { tx = db; vars = (run k tx v).vars; error = some (other n) })
      locked :
          {tx : T} {v : V}
          → begun ≡ none
          → Reached max_retry tx v
          → Ends (record { tx = db; vars = v; error = some busy })

    loop-Ends :
        (left retry : ℕ) (tx : T) (v : V)
        → begun ≡ none
        → retry + left ≡ max_retry
        → Reached retry tx v
        → Ends (retry_loop left retry tx v)
    unfolding retry_loop retried committed
    loop-Ends zero retry tx v b h r =
        let all : retry ≡ max_retry = omega arith in locked b (subst (λ k. Reached k tx v) all r)
    loop-Ends (suc left) retry tx v b h r =
        let more : retry < max_retry = omega arith in
        elim (Option-cases (run retry tx v).error) [
          | inl e ↦ elim (Option-cases (commit (run retry tx v).tx)) [
            | inl c ↦ rw (e, committed, c) (kept b more r e c)
            | inr (x, c) ↦ rw (e, committed, c) (not_committed b more r e c)
          ]
          | inr (busy, e) ↦ rw e (
              loop-Ends left (suc retry) (run retry tx v).tx (run retry tx v).vars b (omega arith)
                (again r e))
          | inr (other n, e) ↦ rw e (failed b more r e)
        ]

    behind_begin-Ends : (b : Option RunError) → begun ≡ b → Ends (behind_begin vars b)
    unfolding behind_begin
    behind_begin-Ends none e = loop-Ends max_retry 0 db vars e (omega arith) first
    behind_begin-Ends (some x) e = not_begun e

    -- However often the database is locked, and whether or not the transaction begins and commits: a call
    -- returns, and in one of these ways only. It does not begin, and the database is unchanged; or one of
    -- at most 100000 attempts, each of which finds what the locked ones before it have left, ends without
    -- an error, and then the database is what it leaves if the commit succeeds, and is unchanged, with
    -- the error of the commit, if not; or an attempt ends with another error, and the database is
    -- unchanged; or the database is locked in all of them, and is unchanged.
    pub retry_if_locked-Ends : Ends (retry_if_locked vars)
    unfolding retry_if_locked
    retry_if_locked-Ends = behind_begin-Ends begun refl
