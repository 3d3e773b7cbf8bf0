-- ===== src/Postgres/World.antt =====
-- The tables of migrations/001_initial_schema.sql, and the state of the outside: the tables, and the
-- faults, identifiers and readings of the clock that are still to come.
-- What PostgreSQL and its driver do with single values is a parameter, `Sql`.
pub mod Laws
use spec_star_go.Prelude.{ℕ, suc, ◌+◌, String, List, Option, none, some}
use spec_star_go.Domain.Client.{Client}
use spec_star_go.Domain.Position.{Position}
use spec_star_go.Domain.ProcessedCommand.{ProcessedCommand}
use spec_star_go.Ports.{System}

-- a row of `assets`, with its nullable columns
pub record AssetRow : Type 0 where
  pub asset_id : ℕ
  pub instrument_id : String
  pub product_type : String
  pub offer_id : Option String
  pub emission_entity_id : String
  pub issuer_document_id : Option String
  pub market_code : Option String
  pub asset_name : String
  pub issuance_date : ℕ
  pub maturity_date : ℕ
  pub created_at : ℕ

-- The columns of `clients`, `positions` and `processed_commands` are the fields of the entities.
pub record Tables (D : Type 0) : Type 0 where
  pub clients : List Client
  pub assets : List AssetRow
  pub positions : List (Position D)
  pub processed_commands : List ProcessedCommand

-- an error of `Scan`, `Query` or `Exec`: `pgx.ErrNoRows`, a `*pgconn.PgError` with its code, or
-- anything else, such as a lost connection
pub data DbError : Type 0 where
  no_rows : DbError
  pg_error : (code text : String) → DbError
  lost : String → DbError

pub data DbResult {ℓ} (A : Type ℓ) : Type ℓ where
  done : A → DbResult A
  fail : DbError → DbResult A

infixl 5 ◌>>=◌ ◌>>◌
abbrev pub ◌>>=◌ {ℓ κ} : {A : Type ℓ} {B : Type κ} → DbResult A → (A → DbResult B) → DbResult B
done a >>= f = f a
fail e >>= f = fail e

abbrev pub ◌>>◌ {ℓ κ} : {A : Type ℓ} {B : Type κ} → DbResult A → DbResult B → DbResult B
m >> k = m >>= λ _. k

pub record World (D : Type 0) : Type 0 where
  pub tables : Tables D
  -- whether the next uses of the connection fail, and with what text
  pub faults : ℕ → Option String
  pub uuids : ℕ → ℕ
  pub times : ℕ → ℕ

-- How PostgreSQL takes and gives the values of its column types.
pub record Sql (D : Type 0) : Type 0 where
  -- the text of a number, assigned to a column NUMERIC(precision, scale)
  pub numeric : (precision scale : ℕ) → String → DbResult D
  -- the text of a number in a column of that scale
  pub numeric_text : ℕ → D → String
  pub timestamptz : ℕ → ℕ
  pub date : ℕ → ℕ
  -- a document, assigned to a column JSONB and read back
  pub jsonb : String → DbResult String

abbrev pub Db : Type 0 → Type 0 → Type 0
Db D A = World D → DbResult A × World D

module _ {D : Type 0} where
  -- One use of the connection: it fails and changes nothing, or it does what `f` says.
  unfoldable pub statement : {A : Type 0} → (Tables D → DbResult (A × Tables D)) → Db D A
  statement f w =
      let w' = record w { faults = λ i. w.faults (suc i) } in
      elim (w.faults 0) [
        | some text ↦ (fail (lost text), w')
        | none ↦ elim (f w.tables) [
          | done (a, t) ↦ (done a, record w' { tables = t })
          | fail e ↦ (fail e, w')
        ]
      ]

  abbrev pub system : System (World D)
  system = record {
    new_uuid = λ w. (w.uuids 0, record w { uuids = λ i. w.uuids (suc i) });
    now = λ w. (w.times 0, record w { times = λ i. w.times (suc i) });
    clock = λ n w. (w.times, record w { times = λ i. w.times (n + i) });
  }
