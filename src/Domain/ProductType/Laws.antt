-- ===== src/Domain/ProductType/Laws.antt =====
-- Which product types are valid.
use spec_star_go.Prelude.{
  String, ◌≡◌, ◌↔◌, ◌⊎◌, inl, inr, refl, true, List, [], ◌∷◌, str_eq, eq_iff, arith, Bool-cases,
}
use spec_star_go.Domain.Effect.{ok}
use spec_star_go.Domain.ProductType.{contains, valid_product_types, validate_product_type}

-- the text is one of those of the list
abbrev pub IsOneOf : String → List String → Type 0
IsOneOf pt [] = ⊥
IsOneOf pt (t ∷ ts) = (t ≡ pt) ⊎ IsOneOf pt ts

pub contains_iff : (pt : String) (ts : List String) → (contains pt ts ≡ true) ↔ IsOneOf pt ts
contains_iff pt [] = (λ h. ground arith, λ e. absurd e)
contains_iff pt (t ∷ ts) = elim (Bool-cases (str_eq t pt)) [
  | inl h ↦ (λ _. inl ((eq_iff t pt).0 h), λ _. rw h refl)
  | inr h ↦ (
    λ k. inr ((contains_iff pt ts).0 (rw h at k)),
    λ k. elim k [
      | inl e ↦ ground (arith, (eq_iff t pt).1 e)
      | inr m ↦ rw h ((contains_iff pt ts).1 m)
    ],
  )
]

-- A product type is accepted exactly when it is one of the seven.
pub validate_product_type_iff :
    (pt : String) → (validate_product_type pt ≡ ok tt) ↔ IsOneOf pt valid_product_types
unfolding validate_product_type
validate_product_type_iff pt = elim (Bool-cases (contains pt valid_product_types)) [
  | inl h ↦
      (λ _. (contains_iff pt valid_product_types).0 h, λ _. rw (h, validate_product_type) refl)
  | inr h ↦ (λ k. ground arith, λ m. ground (arith, (contains_iff pt valid_product_types).1 m))
]
