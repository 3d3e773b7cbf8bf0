-- ===== src/Postgres/Reads.antt =====
-- Reading leaves the tables as they are, whether it succeeds or not.
use spec_star_go.Prelude.{ℕ, String, ◌≡◌, refl, arith, inl, inr}
use spec_star_go.Decimal.{Decimal}
use spec_star_go.Ports.{Codec}
use spec_star_go.Postgres.World.{World, Tables, Sql, DbResult, done, statement}
use spec_star_go.Postgres.World.Laws.{statement-cases}
use spec_star_go.Postgres.Statements.{select_client, select_asset, select_command}
use spec_star_go.Postgres.Repositories.{find_client, find_asset, find_command}

-- a statement that gives back the tables that it was given
abbrev Reads : {D A : Type 0} → (Tables D → DbResult (A × Tables D)) → Type 0
Reads {D} {A} f = (t t' : Tables D) (a : A) → f t ≡ done (a, t') → t' ≡ t

pub statement-tables :
    {D A : Type 0} (f : Tables D → DbResult (A × Tables D)) (w : World D)
    → Reads f
    → (statement f w).1.tables ≡ w.tables
statement-tables f w reads = elim (statement-cases f w) [
  | inl (text, e) ↦ rw e refl
  | inr (inl (a, t, done_at, e)) ↦ rw e (reads w.tables t a done_at)
  | inr (inr (why, failed, e)) ↦ rw e refl
]

module _ {D : Type 0} ⦃d : Decimal D⦄ (sql : Sql D) (codec : Codec) (w : World D) where
  pub find_command-tables :
      (command_type order_id : String)
      → (find_command sql codec command_type order_id w).1.tables ≡ w.tables
  unfolding find_command
  find_command-tables command_type order_id =
      statement-tables (select_command command_type order_id) w
        λ t t' a h. unfold select_command in ground arith

  pub find_client-tables : (id : ℕ) → (find_client sql codec id w).1.tables ≡ w.tables
  unfolding find_client
  find_client-tables id =
      statement-tables (select_client id) w λ t t' a h. unfold select_client in ground arith

  pub find_asset-tables : (id : ℕ) → (find_asset sql codec id w).1.tables ≡ w.tables
  unfolding find_asset
  find_asset-tables id =
      statement-tables (select_asset id) w λ t t' a h. unfold select_asset in ground arith
