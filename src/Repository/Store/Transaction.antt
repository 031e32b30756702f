-- ===== src/Repository/Store/Transaction.antt =====
-- `ExecTx`: what it leaves behind on success, on an error and on a panic.
use shark_42tokyo_tuning.Prelude.{
  ◌≡◌, ◌≢◌, refl, sym, ap, inl, inr, ◌⊎◌, Result, ok, err, panic, Result-cases,
}
use shark_42tokyo_tuning.Env.{Env}
use shark_42tokyo_tuning.World.{pool, tx, World, Action}
use shark_42tokyo_tuning.Repository.Store.{exec_tx, on_conn, in_tx, finish_tx, commit_tx}
use shark_42tokyo_tuning.Repository.Order.Coherent.{DbLaws, SameReads, Serves, Serves-reads}

module _ {e : Env} {A : Type 0} where
  -- The function has returned `a` in a transaction that began on `w`, and the commit went through.
  pub record Committed (fn : Action e A) (w : World e) (a : A) (w' : World e) : Type 0 where
    pub begun : e.Db
    pub left : World e
    pub db' : e.Db
    pub begin_ok : e.begin w.db ≡ ok begun
    pub ran : fn (record w { conn = tx; db = begun }) ≡ (ok a, left)
    pub commit_ok : e.commit w.db left.db ≡ ok db'
    pub result : w' ≡ record left { conn = pool; db = db' }

  -- The caches are not rolled back: they are as the function left them, if it ran.
  abbrev pub CachesLeft : Action e A → World e → World e → Type 0
  CachesLeft fn w w' =
      (w'.order_state ≡ w.order_state)
      ⊎ ((v : e.Db) × (e.begin w.db ≡ ok v)
          × (w'.order_state ≡ ((fn (record w { conn = tx; db = v })).1).order_state))

  -- The outcome is a commit of what the function did, or the database is as before.
  abbrev pub TxOutcome : Action e A → World e → Result A × World e → Type 0
  TxOutcome fn w (r, w') =
      ((a : A) × (r ≡ ok a) × Committed fn w a w')
      ⊎ ((w'.db ≡ w.db) × (w'.conn ≡ pool) × ((a : A) → r ≢ ok a) × CachesLeft fn w w')

  left_eq :
      (fn : Action e A) {w left : World e} {r : Result A}
      → fn w ≡ (r, left)
      → left.order_state ≡ ((fn w).1).order_state
  left_eq fn ran = sym (ap (λ (p : Result A × World e). (p.1).order_state) ran)

  finish_tx-TxOutcome :
      (fn : Action e A) (w : World e) (v : e.Db) (r : Result A) (left : World e)
      → e.begin w.db ≡ ok v
      → fn (record w { conn = tx; db = v }) ≡ (r, left)
      → TxOutcome fn w (finish_tx w.db r left)
  unfolding finish_tx
  finish_tx-TxOutcome fn w v (ok a) left b ran = elim (Result-cases (e.commit w.db left.db)) [
    | inl (d, c) ↦
        rw (c, commit_tx)
          (inl (
            a,
            refl,
            record {
              begun = v;
              left = left;
              db' = d;
              begin_ok = b;
              ran = ran;
              commit_ok = c;
              result = refl;
            },
          ))
    | inr (inl (x, c)) ↦
        rw (c, commit_tx) (inr (refl, refl, λ a' p. cc, inr (v, b, left_eq fn ran)))
    | inr (inr c) ↦ rw (c, commit_tx) (inr (refl, refl, λ a' p. cc, inr (v, b, left_eq fn ran)))
  ]
  finish_tx-TxOutcome fn w v (err x) left b ran =
      inr (refl, refl, λ a' p. cc, inr (v, b, left_eq fn ran))
  finish_tx-TxOutcome fn w v panic left b ran =
      inr (refl, refl, λ a' p. cc, inr (v, b, left_eq fn ran))

  exec_tx-pool :
      (fn : Action e A) (w : World e) → w.conn ≡ pool → exec_tx fn w ≡ in_tx (e.begin w.db) fn w
  unfolding exec_tx
  exec_tx-pool fn w h = ap (λ c. on_conn c fn w) h

  in_tx-TxOutcome :
      (fn : Action e A) (w : World e) (r : Result e.Db)
      → w.conn ≡ pool
      → e.begin w.db ≡ r
      → TxOutcome fn w (in_tx r fn w)
  unfolding in_tx
  in_tx-TxOutcome fn w (ok v) h b = finish_tx-TxOutcome fn w v _ _ b refl
  in_tx-TxOutcome fn w (err x) h b = inr (refl, h, λ a p. cc, inl refl)
  in_tx-TxOutcome fn w panic h b = inr (refl, h, λ a p. cc, inl refl)

  pub exec_tx-TxOutcome :
      (fn : Action e A) (w : World e) → w.conn ≡ pool → TxOutcome fn w (exec_tx fn w)
  exec_tx-TxOutcome fn w h = rw (exec_tx-pool fn w h) (in_tx-TxOutcome fn w (e.begin w.db) h refl)

  -- `fn`, in a transaction, leaves caches that serve what the transaction reads, and what the base
  -- of the transaction reads.
  abbrev pub ServesBoth : Action e A → Type 0
  ServesBoth fn =
      (w : World e) (base : e.Db)
      → SameReads e base w.db
      → Serves e base w.order_state
      → Serves e base ((fn w).1).order_state × Serves e ((fn w).1).db ((fn w).1).order_state

  -- If so, the caches serve the database after the transaction, whatever its outcome.
  pub exec_tx-Serves :
      (laws : DbLaws e) (fn : Action e A) (w : World e)
      → ServesBoth fn
      → w.conn ≡ pool
      → Serves e w.db w.order_state
      → Serves e ((exec_tx fn w).1).db ((exec_tx fn w).1).order_state
  exec_tx-Serves laws fn w both h serves = elim (exec_tx-TxOutcome fn w h) [
    | inl (a, p, c) ↦ rw c.result (
        Serves-reads (laws.commit_reads w.db c.left.db c.db' c.commit_ok) (
          rw c.ran at
            (both (record w { conn = tx; db = c.begun }) w.db
              (laws.begin_reads w.db c.begun c.begin_ok) serves).1))
    | inr (d, p, q, inl s) ↦ rw (d, s) serves
    | inr (d, p, q, inr (v, b, s)) ↦ rw (d, s) (both _ w.db (laws.begin_reads w.db v b) serves).0
  ]
