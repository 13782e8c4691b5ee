-- ===== src/Shared/Transaction.antt =====
-- src/shared/database/transactions.ts: work on one open transaction, and `withTransaction`.
-- A transaction's state is the database as its own statements have left it.
use workflow_spec.Shared.Errors.{
  PlatformError, Failure, platform, database, Result, returns, throws,
}

-- `thrown` keeps the state: a caller inside the same transaction may catch the error and go on.
-- `aborted` has none: after a statement fails the database refuses every later one, so the error
-- reaches whoever opened the transaction, and it is rolled back.
pub data Outcome {ℓ} (S A : Type ℓ) : Type ℓ where
  ok : A → S → Outcome S A
  thrown : PlatformError → S → Outcome S A
  aborted : Outcome S A

abbrev pub Tx {ℓ} : Type ℓ → Type ℓ → Type ℓ
Tx S A = S → Outcome S A

module _ {ℓ} {S A : Type ℓ} where
  abbrev pub pure : A → Tx S A
  pure a s = ok a s

  abbrev pub throw : PlatformError → Tx S A
  throw e s = thrown e s

  abbrev pub lift : Result A → Tx S A
  lift (returns a) s = ok a s
  lift (throws e) s = thrown e s

  -- A query that reads, and a statement that writes.
  abbrev pub gets : (S → A) → Tx S A
  gets f s = ok (f s) s

abbrev pub modify {ℓ} : {S : Type ℓ} → (S → S) → Tx S Unit
modify f s = ok tt (f s)

module _ {ℓ} {S A B : Type ℓ} where
  infixl 5 ◌>>=◌ ◌>>◌
  abbrev pub ◌>>=◌ : Tx S A → (A → Tx S B) → Tx S B
  ◌>>=◌ m f s = elim (m s) [ ok a s' ↦ f a s' | thrown e s' ↦ thrown e s' | aborted ↦ aborted ]

  abbrev pub ◌>>◌ : Tx S A → Tx S B → Tx S B
  m >> k = m >>= λ _. k

pub data Settled {ℓ} (A : Type ℓ) : Type ℓ where
  resolved : A → Settled A
  rejected : Failure → Settled A

module _ {ℓ} {S A : Type ℓ} where
  abbrev commit_or_rollback : S → Outcome S A → Settled A × S
  commit_or_rollback s (ok a s') = (resolved a, s')
  commit_or_rollback s (thrown e _) = (rejected (platform e), s)
  commit_or_rollback s aborted = (rejected database, s)

  -- BEGIN, the work, then COMMIT, or ROLLBACK and the error again.
  unfoldable pub with_transaction : Tx S A → S → Settled A × S
  with_transaction work s = commit_or_rollback s (work s)
