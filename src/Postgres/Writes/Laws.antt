-- ===== src/Postgres/Writes/Laws.antt =====
-- What an INSERT that goes through has checked and changed.
use spec_star_go.Prelude.{
  ◌≡◌, true, false, String, arith, inl, inr, Bool, List, [], ◌∷◌, ◌++◌, some,
}
use spec_star_go.Decimal.{Decimal}
use spec_star_go.Domain.Position.{Position}
use spec_star_go.Domain.ProcessedCommand.{ProcessedCommand}
use spec_star_go.Postgres.World.{Tables, Sql, done}
use spec_star_go.Postgres.World.Laws.{DbResult-cases}
use spec_star_go.Postgres.Statements.{
  exists, find, has_key, has_position_id, has_client_id, has_asset_id,
}
use spec_star_go.Postgres.Writes.{
  PositionArguments, assign_position, check_position, insert_position, insert_command,
}

module _ {ℓ} {A : Type ℓ} where
  -- a row that is not there is found once it is appended
  pub find-append :
      (p : A → Bool) (xs : List A) (x : A)
      → exists p xs ≡ false
      → p x ≡ true
      → find p (xs ++ x ∷ []) ≡ some x
  find-append p [] x h e = ground arith
  find-append p (y ∷ ys) x h e = ground (arith, find-append p ys x)

-- the stored row of a command
abbrev pub stored_command : {D : Type 0} → Sql D → ProcessedCommand → String → ProcessedCommand
stored_command sql c snapshot = record c {
  response_snapshot = snapshot;
  created_at = sql.timestamptz c.created_at;
}

module _ {D : Type 0} ⦃d : Decimal D⦄ (sql : Sql D) (t t' : Tables D) where
  pub insert_command_lem :
      (c : ProcessedCommand)
      → insert_command sql c t ≡ done (tt, t')
      → (snapshot : String) × (sql.jsonb c.response_snapshot ≡ done snapshot)
        × (exists (has_key c.command_type c.order_id) t.processed_commands ≡ false)
        × (t' ≡ record t {
          processed_commands = t.processed_commands ++ stored_command sql c snapshot ∷ [];
        })
  unfolding insert_command
  insert_command_lem c h = elim (DbResult-cases (sql.jsonb c.response_snapshot)) [
    | inl (snapshot, e) ↦ (snapshot, e, ground arith, ground arith)
    | inr (why, e) ↦ ground arith
  ]

  pub insert_position_lem :
      (a : PositionArguments)
      → insert_position sql a t ≡ done (tt, t')
      → (p : Position D) × (assign_position sql a ≡ done p)
        × (check_position p ≡ done tt)
        × (exists (has_position_id p.position_id) t.positions ≡ false)
        × (exists (has_client_id p.client_id) t.clients ≡ true)
        × (exists (has_asset_id p.asset_id) t.assets ≡ true)
        × (t' ≡ record t { positions = t.positions ++ p ∷ [] })
  unfolding insert_position
  insert_position_lem a h = elim (DbResult-cases (assign_position sql a)) [
    | inl (p, e) ↦ elim (DbResult-cases (check_position p)) [
      | inl (_, c) ↦ (p, e, c, ground arith, ground arith, ground arith, ground arith)
      | inr (why, c) ↦ ground arith
    ]
    | inr (why, e) ↦ ground arith
  ]
