-- ===== src/Postgres/Writes/Invariant.antt =====
-- The constraints of the schema, as an invariant of the tables that every statement keeps.
use spec_star_go.Prelude.{
  ℕ, ◌==◌, ◌≡◌, refl, ◌∙◌, ap, true, false, Bool, Bool-cases, ◌||◌, List, [], ◌∷◌, ◌++◌, map, All,
  All-append, inl, inr, arith, ◌⊎◌,
}
use spec_star_go.Decimal.{Decimal}
use spec_star_go.Domain.Client.{Client}
use spec_star_go.Domain.Position.{Position}
use spec_star_go.Domain.ProcessedCommand.{ProcessedCommand}
use spec_star_go.Postgres.World.{AssetRow, Tables, Sql, done}
use spec_star_go.Postgres.World.Laws.{DbResult-cases}
use spec_star_go.Postgres.Statements.{exists, has_client_id, has_asset_id, has_position_id, has_key}
use spec_star_go.Postgres.Writes.{
  PositionArguments, insert_client, insert_asset, insert_position, insert_command, update_position,
  update_rows, is_at_version, assign_position, check_position,
}
use spec_star_go.Postgres.Writes.Checked.{IsChecked, check_position-IsChecked, updated-IsChecked}
use spec_star_go.Postgres.Writes.Laws.{insert_position_lem, insert_command_lem}

module _ {A : Type 0} (is_same : A → A → Bool) where
  -- no entry has the key of an earlier one
  abbrev pub Apart : List A → Type 0
  Apart [] = Unit
  Apart (x ∷ xs) = All (λ y. is_same y x ≡ false) xs × Apart xs

  Apart-append :
      (xs : List A) (x : A) → Apart xs → exists (is_same x) xs ≡ false → Apart (xs ++ x ∷ [])
  Apart-append [] x _ h = (tt, tt)
  Apart-append (y ∷ ys) x (before, rest) h =
      (All-append _ ys (x ∷ []) before (ground arith, tt), Apart-append ys x rest (ground arith))

pub exists-append :
    {A : Type 0} (p : A → Bool) (xs : List A) (x : A)
    → exists p xs ≡ true
    → exists p (xs ++ x ∷ []) ≡ true
exists-append p [] x h = ground arith
exists-append p (y ∷ ys) x h = ground (arith, exists-append p ys x)

module _ {D : Type 0} ⦃d : Decimal D⦄ where
  -- the CHECK constraints and the foreign keys of a row of `positions`
  pub record IsStored (clients : List Client) (assets : List AssetRow) (p : Position D)
      : Type 0 where
    pub checked : IsChecked p
    pub client : exists (has_client_id p.client_id) clients ≡ true
    pub asset : exists (has_asset_id p.asset_id) assets ≡ true

  abbrev pub id_of : Position D → ℕ
  id_of p = p.position_id

  -- what the schema promises of the tables
  pub record IsWellFormed (t : Tables D) : Type 0 where
    pub positions_stored : All (IsStored t.clients t.assets) t.positions
    pub positions_apart : Apart (λ j i. i == j) (map id_of t.positions)
    pub commands_apart : Apart (λ c. has_key c.command_type c.order_id) t.processed_commands

  -- one statement that went through
  pub data Write (sql : Sql D) (t t' : Tables D) : Type 0 where
    client : (c : Client) → insert_client sql c t ≡ done (tt, t') → Write sql t t'
    asset : (a : AssetRow) → insert_asset sql a t ≡ done (tt, t') → Write sql t t'
    position : (a : PositionArguments) → insert_position sql a t ≡ done (tt, t') → Write sql t t'
    command : (c : ProcessedCommand) → insert_command sql c t ≡ done (tt, t') → Write sql t t'
    update :
        (a : PositionArguments) (version n : ℕ)
        → update_position sql a version t ≡ done (n, t')
        → Write sql t t'

  All-IsStored :
      (clients clients' : List Client) (assets assets' : List AssetRow)
      → ((id : ℕ)
          → exists (has_client_id id) clients ≡ true
          → exists (has_client_id id) clients' ≡ true)
      → ((id : ℕ)
          → exists (has_asset_id id) assets ≡ true
          → exists (has_asset_id id) assets' ≡ true)
      → (rows : List (Position D)) → All (IsStored clients assets) rows
      → All (IsStored clients' assets') rows
  All-IsStored clients clients' assets assets' f g [] _ = tt
  All-IsStored clients clients' assets assets' f g (p ∷ rest) (s, ss) = (
    record { checked = s.checked; client = f p.client_id s.client; asset = g p.asset_id s.asset },
    All-IsStored clients clients' assets assets' f g rest ss,
  )

  exists-id :
      (id : ℕ) (rows : List (Position D))
      → exists (λ i. i == id) (map id_of rows) ≡ exists (has_position_id id) rows
  exists-id id [] = refl
  exists-id id (p ∷ rest) = ap (λ b. (p.position_id == id) || b) (exists-id id rest)

  map-append_one :
      (rows : List (Position D)) (p : Position D)
      → map id_of (rows ++ p ∷ []) ≡ map id_of rows ++ p.position_id ∷ []
  map-append_one [] p = refl
  map-append_one (q ∷ rest) p = ap (λ xs. q.position_id ∷ xs) (map-append_one rest p)

  module _ (new : Position D) (version : ℕ) where
    pub map-update_rows :
        (rows : List (Position D)) → map id_of (update_rows new version rows).0 ≡ map id_of rows
    unfolding update_rows
    map-update_rows [] = refl
    map-update_rows (p ∷ rest) =
        let below = map-update_rows rest in
        elim (Bool-cases (is_at_version new.position_id version p)) [
          | inl h ↦ rw (h, update_rows) (ap (λ xs. p.position_id ∷ xs) below)
          | inr h ↦ rw (h, update_rows) (ap (λ xs. p.position_id ∷ xs) below)
        ]

    All-update_rows :
        (clients : List Client) (assets : List AssetRow) (rows : List (Position D))
        → IsChecked new
        → All (IsStored clients assets) rows
        → All (IsStored clients assets) (update_rows new version rows).0
    unfolding update_rows
    All-update_rows clients assets [] ok _ = tt
    All-update_rows clients assets (p ∷ rest) c (s, ss) =
        let below = All-update_rows clients assets rest c ss in
        elim (Bool-cases (is_at_version new.position_id version p)) [
          | inl h ↦
              rw (h, update_rows)
                (
                  record {
                    checked = updated-IsChecked new p c;
                    client = s.client;
                    asset = s.asset;
                  },
                  below,
                )
          | inr h ↦ rw (h, update_rows) (s, below)
        ]

  module _ (sql : Sql D) (t t' : Tables D) where
    pub insert_client_lem :
        (c : Client)
        → insert_client sql c t ≡ done (tt, t')
        → t' ≡ record t {
          clients = t.clients ++ record c { created_at = sql.timestamptz c.created_at } ∷ [];
        }
    unfolding insert_client
    insert_client_lem c h = ground arith

    pub insert_asset_lem :
        (a : AssetRow)
        → insert_asset sql a t ≡ done (tt, t')
        → (b : AssetRow) × (t' ≡ record t { assets = t.assets ++ b ∷ [] })
    unfolding insert_asset
    insert_asset_lem a h = (
      record a {
        issuance_date = sql.date a.issuance_date;
        maturity_date = sql.date a.maturity_date;
        created_at = sql.timestamptz a.created_at;
      },
      ground arith,
    )

    -- an UPDATE changes nothing, or sets the columns of the rows at the version to checked values
    update_position_lem :
        (a : PositionArguments) (version n : ℕ)
        → update_position sql a version t ≡ done (n, t')
        → (t' ≡ t)
          ⊎ ((p : Position D) × (check_position p ≡ done tt)
              × (t' ≡ record t { positions = (update_rows p version t.positions).0 }))
    unfolding update_position
    update_position_lem a version n h = elim (DbResult-cases (assign_position sql a)) [
      | inr (why, e) ↦ ground arith
      | inl (p, e) ↦ elim (Bool-cases ((update_rows p version t.positions).1 == 0)) [
        | inl z ↦ inl (ground arith)
        | inr z ↦ elim (DbResult-cases (check_position p)) [
          | inl (_, c) ↦ inr (p, c, ground arith)
          | inr (why, c) ↦ ground arith
        ]
      ]
    ]

    -- Every statement that goes through keeps what the schema promises: every row of `positions`
    -- has amounts, prices and values that are not negative, a total value that is the amount at the
    -- unit price, and a version between 1 and 2^31, and refers to a client and an asset that exist;
    -- no two rows have the same identifier, and no two commands have the same type and order.
    pub Write-IsWellFormed : Write sql t t' → IsWellFormed t → IsWellFormed t'
    Write-IsWellFormed (client c h) v = rw (insert_client_lem c h) (record {
      positions_stored =
          All-IsStored t.clients _ t.assets t.assets
            (λ id e. exists-append (has_client_id id) _ _ e) (λ id e. e) t.positions
            v.positions_stored;
      positions_apart = v.positions_apart;
      commands_apart = v.commands_apart;
    })
    Write-IsWellFormed (asset a h) v =
        let (b, e) = insert_asset_lem a h in
        rw e (record {
          positions_stored =
              All-IsStored t.clients t.clients t.assets _ (λ id e. e)
                (λ id e. exists-append (has_asset_id id) _ _ e) t.positions v.positions_stored;
          positions_apart = v.positions_apart;
          commands_apart = v.commands_apart;
        })
    Write-IsWellFormed (position a h) v =
        let (p, assigned, checked, fresh, c, s, e) = insert_position_lem sql t t' a h in
        rw e (record {
          positions_stored =
              All-append (IsStored t.clients t.assets) t.positions (p ∷ []) v.positions_stored (
                record { checked = check_position-IsChecked p checked; client = c; asset = s },
                tt,
              );
          positions_apart = rw (map-append_one t.positions p) (
              Apart-append (λ j i. i == j) (map id_of t.positions) p.position_id v.positions_apart
                (exists-id p.position_id t.positions ∙ fresh));
          commands_apart = v.commands_apart;
        })
    Write-IsWellFormed (command c h) v =
        let (snapshot, document, fresh, e) = insert_command_lem sql t t' c h in
        rw e (record {
          positions_stored = v.positions_stored;
          positions_apart = v.positions_apart;
          commands_apart =
              Apart-append (λ c. has_key c.command_type c.order_id) t.processed_commands _
                v.commands_apart fresh;
        })
    Write-IsWellFormed (update a version n h) v = elim (update_position_lem a version n h) [
      | inl e ↦ rw e v
      | inr (p, checked, e) ↦ rw e (record {
        positions_stored =
            All-update_rows p version t.clients t.assets t.positions
              (check_position-IsChecked p checked) v.positions_stored;
        positions_apart = rw (map-update_rows p version t.positions) v.positions_apart;
        commands_apart = v.commands_apart;
      })
    ]
