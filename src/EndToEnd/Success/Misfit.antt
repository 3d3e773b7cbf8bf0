-- ===== src/EndToEnd/Success/Misfit.antt =====
-- A deposit whose values the columns round so that a CHECK of the table refuses the row.
use Prim.Native.String.{◌++◌}
use spec_star_go.Prelude.{ℕ, String, ◌≡◌, refl, none, some, true, false, not, Bool}
use spec_star_go.Decimal.{Decimal}
use spec_star_go.Domain.Errors.{Error, wrap}
use spec_star_go.Domain.Effect.{ok, err, Action}
use spec_star_go.Domain.Client.{Client}
use spec_star_go.Domain.Position.{Position, new_position}
use spec_star_go.Domain.ProductType.{validate_product_type}
use spec_star_go.Ports.{Codec, Json}
use spec_star_go.Application.Flow.{failure, ◌>>=◌}
use spec_star_go.Application.Deposit.{
  DepositResponse, command_type_deposit, execute, steps, replay, settle, persist,
  to_deposit_response,
}
use spec_star_go.Application.Deposit.Request.{
  DepositRequest, ValidDeposit, validate_deposit_request,
}
use spec_star_go.Postgres.World.{AssetRow, DbResult, ◌>>◌, World, Tables, Sql, done, fail, pg_error}
use spec_star_go.Postgres.World.Laws.{used, statement_fail}
use spec_star_go.Postgres.Statements.{
  find, has_key, has_client_id, has_asset_id, check_violation, require,
}
use spec_star_go.Postgres.Writes.{insert_position, assign_position, check_position, is_version}
use spec_star_go.Postgres.Repositories.{scan_asset, driver_error}
use spec_star_go.Postgres.PositionRepository.{arguments, create_position}
use spec_star_go.Postgres.Transaction.{environment, transact, conclude}
use spec_star_go.EndToEnd.Success.{
  in_transaction, before_transaction, find_command-none, find_client-some, find_asset-some,
}

transact_err :
    {D A : Type 0} (fn : Action (World D) A) (w w' : World D) (e : Error)
    → w.faults 0 ≡ none
    → fn (used w) ≡ (err e, w')
    → w'.faults 0 ≡ none
    → transact fn w ≡ (err e, record (used w') { tables = w.tables })
unfolding transact conclude
transact_err fn w w' e h run k = rw (h, run, transact, k, conclude) refl

-- refused by some CHECK constraint
abbrev IsRefused : {A : Type 0} → DbResult A → Type 0
IsRefused r = (text : String) × (r ≡ fail (pg_error check_violation text))

require-IsRefused :
    {A : Type 0} (test : Bool) (text : String) (m : DbResult A)
    → IsRefused m
    → IsRefused (require test check_violation text >> m)
require-IsRefused true text m refused = refused
require-IsRefused false text m refused = (text, refl)

module _ {D : Type 0} ⦃d : Decimal D⦄ where
  check_position-IsRefused :
      (p : Position D)
      → d.equal p.total_value (d.mul p.amount p.unit_price) ≡ false
      → IsRefused (check_position p)
  unfolding check_position
  check_position-IsRefused p misfit =
      let derived = d.equal p.total_value (d.mul p.amount p.unit_price) in
      let last : IsRefused (require derived check_violation "total_value = amount * unit_price") =
        ("total_value = amount * unit_price", rw misfit refl) in
      let versioned = require-IsRefused (is_version p.row_version) "row_version > 0" _ last in
      let judiciary =
        require-IsRefused (not (d.less_than p.judiciary_collateral_value d.zero))
          "judiciary_collateral_value >= 0" _ versioned in
      let collateral =
        require-IsRefused (not (d.less_than p.collateral_value d.zero)) "collateral_value >= 0" _
          judiciary in
      let total =
        require-IsRefused (not (d.less_than p.total_value d.zero)) "total_value >= 0" _
          collateral in
      let price =
        require-IsRefused (not (d.less_than p.unit_price d.zero)) "unit_price >= 0" _ total in
      require-IsRefused (not (d.less_than p.amount d.zero)) "amount >= 0" _ price

module _ {D : Type 0} ⦃d : Decimal D⦄ (sql : Sql D) (codec : Codec)
    (json : Json DepositResponse) where
  insert_position-IsRefused :
      (p row : Position D) (t : Tables D)
      → assign_position sql (arguments sql codec p) ≡ done row
      → d.equal row.total_value (d.mul row.amount row.unit_price) ≡ false
      → IsRefused (insert_position sql (arguments sql codec p) t)
  unfolding insert_position
  insert_position-IsRefused p row t assigned misfit =
      let (text, refused) = check_position-IsRefused row misfit in
      (text, rw (assigned, refused) refl)

  abbrev insertion_error : Position D → String → Error
  insertion_error p text =
      wrap ("inserting position " ++ codec.uuid_string p.position_id)
        (driver_error (pg_error check_violation text))

  abbrev pub refusal : Position D → String → Error
  refusal p text = wrap "create position" (insertion_error p text)

  create_position-refused :
      (p : Position D) (v : World D) (text : String)
      → v.faults 0 ≡ none
      → insert_position sql (arguments sql codec p) v.tables ≡ fail (pg_error check_violation text)
      → create_position sql codec p v ≡ (err (insertion_error p text), used v)
  unfolding create_position
  create_position-refused p v text h refused =
      let run =
        statement_fail (insert_position sql (arguments sql codec p)) v
          (pg_error check_violation text) h refused in
      rw run refl

  -- Nothing stands against the deposit but its row: in the columns of the table the total value is
  -- not the amount at the unit price any more.
  pub record Misfit (req : DepositRequest) (w : World D) (p : Position D) : Type 0 where
    pub cmd : ValidDeposit D
    pub valid : validate_deposit_request codec req ≡ ok cmd
    pub unknown :
        find (has_key command_type_deposit req.order_id) w.tables.processed_commands ≡ none
    pub client : Client
    pub client_there : find (has_client_id cmd.client) w.tables.clients ≡ some client
    pub asset : AssetRow
    pub asset_there : find (has_asset_id cmd.asset) w.tables.assets ≡ some asset
    pub supported : validate_product_type asset.product_type ≡ ok tt
    pub made :
        new_position (w.uuids 0) (w.times 1) cmd.client cmd.asset cmd.quantity cmd.price (w.times 0)
        ≡ ok p
    pub text : String
    pub marshalled :
        json.marshal (to_deposit_response (environment sql codec) codec json p) ≡ ok text
    pub row : Position D
    pub assigned : assign_position sql (arguments sql codec p) ≡ done row
    pub misfit : d.equal row.total_value (d.mul row.amount row.unit_price) ≡ false

  module _ (req : DepositRequest) (w : World D) (holds : (i : ℕ) → w.faults i ≡ none)
      (p : Position D) (x : Misfit req w p) where
    persist_refused :
        (v : World D)
        → v.faults 0 ≡ none
        → (text : String) × (persist
              (environment sql codec)
              codec
              json
              p
              req.order_id
              x.cmd.client
              x.text
              v
            ≡ (err (refusal p text), used v))
    unfolding persist
    persist_refused v h =
        let (text, refused) = insert_position-IsRefused p x.row v.tables x.assigned x.misfit in
        let first = create_position-refused p v text h refused in (text, rw (first, persist) refl)

    -- A valid and new deposit of a client and a supported asset that exist is refused, while the
    -- connection holds, when the columns of `positions` round its values so that the total value is
    -- not the amount at the unit price any more: the status is 500, with the error of the CHECK
    -- behind `unit of work`, and the tables are as they were.
    pub deposit_misfit :
        let (r, w') = execute (environment sql codec) codec json req w in
        ((text : String) × (r ≡ failure 500 (wrap "unit of work" (refusal p text))))
        × (w'.tables ≡ w.tables)
    unfolding execute steps replay settle scan_asset ◌>>=◌
    deposit_misfit =
        let searched =
          find_command-none sql codec w (holds 0) command_type_deposit req.order_id x.unknown in
        let client =
          find_client-some sql codec (used w) (holds 1) x.cmd.client x.client x.client_there in
        let asset =
          find_asset-some sql codec (used (used w)) (holds 2) x.cmd.asset x.asset x.asset_there in
        let inside = in_transaction sql codec json w in
        let (text, refused) = persist_refused inside (holds 4) in
        let stored =
          transact_err
            (persist (environment sql codec) codec json p req.order_id x.cmd.client x.text)
            (before_transaction sql codec json w) (used inside) (refusal p text) (holds 3) refused
            (holds 5) in
        rw
          (
            x.valid, searched, replay, client, asset, x.supported, x.made, x.marshalled, stored,
            settle,
          )
          ((text, refl), refl)
