-- ===== src/Table/Result/Keeps.antt =====
-- What the table operations leave alone in a transaction, whatever they answer.
use mini_database_v.Base.{Bool, true, false, Option, none, some}
use mini_database_v.Tx.State.{Kvtx}
use mini_database_v.Tx.Ops.{TxResult}
use mini_database_v.Tx.Ops.Frame.{Frame-refl, Framed, Framed-trans}
use mini_database_v.Table.Result.{
  DbError, Res, ok, err, M, pure, panic, check, total, assert_that, ◌>>=◌, of_tx,
}

module _ {T : Type 0} where
  pub record Keeps {A : Type 0} (m : M (Kvtx T) A) : Type 0 where
    pub framed : (tx : Kvtx T) → Framed tx (m tx)

  pub pure-Keeps : {A : Type 0} (a : A) → Keeps (pure a)
  unfolding pure
  pure-Keeps a = record { framed = λ tx. Frame-refl tx }

  pub panic-Keeps : {A : Type 0} → Keeps (panic {A = A})
  unfolding panic
  panic-Keeps = record { framed = λ tx. tt }

  pub check-Keeps : {A : Type 0} (r : Option (Res A)) → Keeps (check r)
  unfolding check
  check-Keeps none = record { framed = λ tx. tt }
  check-Keeps (some r) = record { framed = λ tx. Frame-refl tx }

  pub total-Keeps : {A : Type 0} (r : Option A) → Keeps (total r)
  unfolding total
  total-Keeps none = record { framed = λ tx. tt }
  total-Keeps (some r) = record { framed = λ tx. Frame-refl tx }

  pub assert_that-Keeps : (b : Bool) → Keeps (assert_that b)
  unfolding assert_that
  assert_that-Keeps true = record { framed = λ tx. Frame-refl tx }
  assert_that-Keeps false = record { framed = λ tx. tt }

  after :
      {A B : Type 0} (f : A → M (Kvtx T) B) (tx : Kvtx T) (o : Option (Res A × Kvtx T))
      → Framed tx o
      → ((a : A) → Keeps (f a))
      → Framed tx
          (elim o [ none ↦ none | some (err e, s') ↦ some (err e, s') | some (ok a, s') ↦ f a s' ])
  after f tx none h k = tt
  after f tx (some (err e, tx')) h k = h
  after f tx (some (ok a, tx')) h k = Framed-trans tx tx' (f a tx') h ((k a).framed tx')

  pub bind-Keeps :
      {A B : Type 0} {m : M (Kvtx T) A} {f : A → M (Kvtx T) B}
      → Keeps m
      → ((a : A) → Keeps (f a))
      → Keeps (m >>= f)
  unfolding ◌>>=◌
  bind-Keeps {m = m} {f = f} p k = record { framed = λ tx. after f tx (m tx) (p.framed tx) k }

  of :
      {A : Type 0} (tx : Kvtx T) (o : Option (TxResult A × Kvtx T))
      → Framed tx o
      → Framed tx (elim o [
        | none ↦ none
        | some (TxResult.ok a, s') ↦ some (ok a, s')
        | some (TxResult.err e, s') ↦ some (err (DbError.kv e), s')
      ])
  of tx none h = tt
  of tx (some (TxResult.ok a, tx')) h = h
  of tx (some (TxResult.err e, tx')) h = h

  pub of_tx-Keeps :
      {A : Type 0} (m : Kvtx T → Option (TxResult A × Kvtx T))
      → ((tx : Kvtx T) → Framed tx (m tx))
      → Keeps (of_tx m)
  unfolding of_tx
  of_tx-Keeps m h = record { framed = λ tx. of tx (m tx) (h tx) }
