-- ===== src/Ports.antt =====
-- internal/ports: the interfaces through which the application reaches the database, and what else
-- of the outside it uses. `W` is the state of the outside.
use spec_star_go.Prelude.{ℕ, String, List, Option}
use spec_star_go.Domain.Effect.{Action, Result}
use spec_star_go.Domain.Client.{Client}
use spec_star_go.Domain.Asset.{Asset}
use spec_star_go.Domain.Position.{Position}
use spec_star_go.Domain.ProcessedCommand.{ProcessedCommand}

pub record ClientRepository (W : Type 0) : Type 0 where
  pub find_by_id : ℕ → Action W Client
  pub create : Client → Action W (Unit {0})

pub record AssetRepository (W : Type 0) : Type 0 where
  pub find_by_id : ℕ → Action W Asset
  pub find_by_instrument_id : String → Action W Asset
  pub create : Asset → Action W (Unit {0})

pub record PositionRepository (W D : Type 0) : Type 0 where
  pub find_by_id : ℕ → Action W (Position D)
  pub find_by_client_and_asset : (client_id asset_id : ℕ) → Action W (List (Position D))
  pub find_by_client_and_instrument : ℕ → String → Action W (List (Position D))
  pub create : Position D → Action W (Unit {0})
  pub update : Position D → Action W (Unit {0})

pub record ProcessedCommandRepository (W : Type 0) : Type 0 where
  pub find_by_type_and_order_id : (command_type order_id : String) → Action W ProcessedCommand
  pub create : ProcessedCommand → Action W (Unit {0})

-- `Do` runs the function inside a transaction. What the closure of the source leaves in a captured
-- variable is the value that the function returns.
pub record UnitOfWork (W : Type 0) : Type 1 where
  pub run : {A : Type 0} → Action W A → Action W A

-- `uuid.New()` and `time.Now()`; `clock n` gives the next `n` readings of the clock at once.
pub record System (W : Type 0) : Type 0 where
  pub new_uuid : W → ℕ × W
  pub now : W → ℕ × W
  pub clock : ℕ → W → (ℕ → ℕ) × W

-- All that a service is built from.
pub record Environment (W D : Type 0) : Type 1 where
  pub clients : ClientRepository W
  pub assets : AssetRepository W
  pub positions : PositionRepository W D
  pub processed_commands : ProcessedCommandRepository W
  pub unit_of_work : UnitOfWork W
  pub system : System W

-- `uuid.Parse` and `String` of github.com/google/uuid, and `Format(time.RFC3339)`.
pub record Codec : Type 0 where
  pub parse_uuid : String → Option ℕ
  pub uuid_string : ℕ → String
  pub format_rfc3339 : ℕ → String

-- `json.Marshal` and `json.Unmarshal` at one type
pub record Json (R : Type 0) : Type 0 where
  pub marshal : R → Result String
  pub unmarshal : String → Result R
