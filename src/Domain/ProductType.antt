-- ===== src/Domain/ProductType.antt =====
-- internal/domain/product_type.go
pub mod Laws
use Prim.Native.String.{◌++◌}
use spec_star_go.Prelude.{
  ◌≡◌, ◌↔◌, ◌⊎◌, inl, inr, Bool, true, false, ◌||◌, String, List, [], ◌∷◌, str_eq, eq_iff, arith,
  if◌then◌else◌, refl,
}
use spec_star_go.Domain.Errors.{Error, validation_error}
use spec_star_go.Domain.Effect.{Result, ok, err}

abbrev pub valid_product_types : List String
valid_product_types = "CDB" ∷ "LF" ∷ "LCI" ∷ "LCA" ∷ "CRI" ∷ "CRA" ∷ "LFT" ∷ []

-- `_, ok := validProductTypes[pt]`
abbrev pub contains : String → List String → Bool
contains pt [] = false
contains pt (t ∷ ts) = str_eq t pt || contains pt ts

unfoldable pub validate_product_type : String → Result (Unit {0})
validate_product_type pt =
    if contains pt valid_product_types
    then ok tt
    else err (validation_error ("invalid product type: " ++ pt))
