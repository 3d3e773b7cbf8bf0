-- ===== src/Postgres/Transaction.antt =====
-- transaction.go of internal/adapters/outbound/postgres, and the environment of the services.
pub mod Laws
use spec_star_go.Prelude.{ℕ, suc, String, Option, none, some}
use spec_star_go.Decimal.{Decimal}
use spec_star_go.Domain.Errors.{Error, wrap, message, join}
use spec_star_go.Domain.Effect.{Result, ok, err, Action}
use spec_star_go.Ports.{UnitOfWork, Environment, Codec}
use spec_star_go.Postgres.World.{World, Tables, Sql, system}
use spec_star_go.Postgres.Repositories.{client_repository, asset_repository, command_repository}
use spec_star_go.Postgres.PositionRepository.{position_repository}

module _ {D : Type 0} where
  abbrev after_use : World D → World D
  after_use w = record w { faults = λ i. w.faults (suc i) }

  -- The tables are again as they were when the transaction began.
  abbrev pub restored : World D → World D → World D
  restored begun w = record w { tables = begun.tables }

  -- what follows the function that ran in the transaction
  unfoldable pub conclude : {A : Type 0} → World D → Result A → World D → Result A × World D
  conclude begun (err e) w = (
    elim (w.faults 0) [ none ↦ err e | some text ↦ err (join e (message text)) ],
    restored begun (after_use w),
  )
  conclude begun (ok a) w = elim (w.faults 0) [
    | none ↦ (ok a, after_use w)
    | some text ↦ (err (wrap "committing transaction" (message text)), restored begun (after_use w))
  ]

  -- `TransactionRunner.Do`: begin, run, then commit or roll back
  unfoldable pub transact : {A : Type 0} → Action (World D) A → Action (World D) A
  unfolding conclude
  transact fn w = elim (w.faults 0) [
    | some text ↦ (err (wrap "beginning transaction" (message text)), after_use w)
    | none ↦ let (r, w') = fn (after_use w) in conclude (after_use w) r w'
  ]

  abbrev pub transaction_runner : UnitOfWork (World D)
  transaction_runner = record { run = transact }

  -- the wiring of cmd/http-lambda/main.go
  abbrev pub environment : ⦃d : Decimal D⦄ → Sql D → Codec → Environment (World D) D
  environment sql codec = record {
    clients = client_repository sql codec;
    assets = asset_repository sql codec;
    positions = position_repository sql codec;
    processed_commands = command_repository sql codec;
    unit_of_work = transaction_runner;
    system = system;
  }
