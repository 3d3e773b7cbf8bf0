-- ===== src/Postgres/Repositories/RoundTrips.antt =====
-- What is created is found again, and is not created twice.
use spec_star_go.Prelude.{
  String, ◌≡◌, refl, sym, ap, inl, inr, true, List, [], ◌∷◌, none, some, arith, ==_iff, Bool,
  Bool-cases, ◌++◌, str_eq, eq_iff, ◌==◌,
}
use spec_star_go.Decimal.{Decimal}
use spec_star_go.Domain.Errors.{wrap, sentinel, duplicate}
use spec_star_go.Domain.Effect.{ok, err}
use spec_star_go.Domain.Asset.{Asset}
use spec_star_go.Domain.ProcessedCommand.{ProcessedCommand}
use spec_star_go.Ports.{Codec}
use spec_star_go.Postgres.World.{AssetRow, World, Tables, Sql, done, fail, pg_error}
use spec_star_go.Postgres.World.Laws.{used, statement_done, statement_fail}
use spec_star_go.Postgres.Statements.{
  unique_violation, find, exists, has_key, has_asset_id, select_asset,
}
use spec_star_go.Postgres.Writes.{insert_asset, insert_command}
use spec_star_go.Postgres.Writes.Laws.{find-append}
use spec_star_go.Postgres.Creates.{returning_ok, create_command-eq_ok}
use spec_star_go.Postgres.Repositories.{
  nullable_string, string_from_nullable, scan_asset, asset_row, create_asset, find_asset,
  create_command, command_label,
}

-- An empty text is stored as NULL, and NULL is read as the empty text: every text comes back.
pub nullable_string_round_trip : (s : String) → string_from_nullable (nullable_string s) ≡ s
unfolding nullable_string string_from_nullable
nullable_string_round_trip s = elim (Bool-cases (str_eq s "")) [
  | inl h ↦ rw (h, nullable_string) (sym ((eq_iff s "").0 h))
  | inr h ↦ rw (h, nullable_string) refl
]

scan_asset-asset_row : (a : Asset) → scan_asset (asset_row a) ≡ a
unfolding scan_asset asset_row
scan_asset-asset_row a =
    let offer = nullable_string_round_trip a.offer_id in
    let document = nullable_string_round_trip a.issuer_document_id in
    let market = nullable_string_round_trip a.market_code in
    unfold nullable_string in rw (offer, document, market) refl

-- a row that is found exists
exists-find :
    {A : Type 0} (p : A → Bool) (xs : List A) (x : A) → find p xs ≡ some x → exists p xs ≡ true
exists-find p [] x h = ground arith
exists-find p (y ∷ ys) x h = ground (arith, exists-find p ys x)

module _ {D : Type 0} ⦃d : Decimal D⦄ (sql : Sql D) where
  -- an asset as the database stores it
  abbrev pub stored_asset : Asset → Asset
  stored_asset a = record a {
    issuance_date = sql.date a.issuance_date;
    maturity_date = sql.date a.maturity_date;
    created_at = sql.timestamptz a.created_at;
  }

  abbrev stored_row : AssetRow → AssetRow
  stored_row a = record a {
    issuance_date = sql.date a.issuance_date;
    maturity_date = sql.date a.maturity_date;
    created_at = sql.timestamptz a.created_at;
  }

  insert_asset_found :
      (a : AssetRow) (t t' : Tables D)
      → insert_asset sql a t ≡ done (tt, t')
      → find (has_asset_id a.asset_id) t'.assets ≡ some (stored_row a)
  unfolding insert_asset
  insert_asset_found a t t' h = elim (Bool-cases (exists (has_asset_id a.asset_id) t.assets)) [
    | inl e ↦ ground arith
    | inr e ↦
        let appended : t'.assets ≡ t.assets ++ stored_row a ∷ [] = ground arith in
        rw appended (
          find-append (has_asset_id a.asset_id) t.assets _ e
            ((==_iff a.asset_id a.asset_id).1 refl))
  ]

  -- a command whose key is taken violates a unique index
  insert_command_taken :
      (c : ProcessedCommand) (t : Tables D) (snapshot : String)
      → sql.jsonb c.response_snapshot ≡ done snapshot
      → exists (has_key c.command_type c.order_id) t.processed_commands ≡ true
      → (text : String) × (insert_command sql c t ≡ fail (pg_error unique_violation text))
  unfolding insert_command
  insert_command_taken c t snapshot document taken =
      elim (Bool-cases (exists (λ r. r.command_id == c.command_id) t.processed_commands)) [
        | inl h ↦ ("processed_commands_pkey", rw (document, h, insert_command) refl)
        | inr h ↦
            ("idx_processed_commands_type_order", rw (document, h, taken, insert_command) refl)
      ]

module _ {D : Type 0} ⦃d : Decimal D⦄ (sql : Sql D) (codec : Codec) (w w' : World D) where
  -- An asset that was created is found under its identifier, while the connection holds, with its
  -- dates and its time as the database stores them and every other field as it was.
  pub create_find_asset :
      (a : Asset)
      → create_asset sql codec a w ≡ (ok tt, w')
      → w'.faults 0 ≡ none
      → find_asset sql codec a.asset_id w' ≡ (ok (stored_asset sql a), used w')
  unfolding create_asset find_asset select_asset asset_row
  create_find_asset a h holds =
      let inserted = returning_ok (insert_asset sql (asset_row a)) _ w w' h in
      let found = insert_asset_found sql (asset_row a) w.tables w'.tables inserted in
      let run =
        statement_done (select_asset a.asset_id) w' (stored_row sql (asset_row a)) w'.tables holds
          (rw found refl) in
      rw run (ap (λ x. (ok x, used w')) (scan_asset-asset_row (stored_asset sql a)))

  -- A command that was created cannot be created again: a second one of the same type and order is
  -- refused as a duplicate and changes nothing, while the connection holds and its snapshot is a
  -- document.
  pub create_command_once :
      (c c' : ProcessedCommand) (snapshot : String)
      → create_command sql codec c w ≡ (ok tt, w')
      → c'.command_type ≡ c.command_type
      → c'.order_id ≡ c.order_id
      → w'.faults 0 ≡ none
      → sql.jsonb c'.response_snapshot ≡ done snapshot
      → create_command sql codec c' w' ≡ (
        err (wrap (command_label sql codec c'.command_type c'.order_id) (sentinel duplicate)),
        used w',
      )
  unfolding create_command
  create_command_once c c' snapshot h same_type same_order holds document =
      let (_, _, found, _) = create_command-eq_ok sql codec w w' c h in
      let taken = exists-find (has_key c.command_type c.order_id) _ _ found in
      let (text, refused) =
        insert_command_taken sql c' w'.tables snapshot document
          (rw (same_type, same_order) taken) in
      let run =
        statement_fail (insert_command sql c') w' (pg_error unique_violation text) holds refused in
      rw run refl
