-- ===== src/Postgres/Statements/Ordering.antt =====
-- The lots of an instrument come in the order in which they were bought, and all of them come.
use mathlib.Core.List.{Perm}
use mathlib.Core.List.Perm
use spec_star_go.Prelude.{ℕ, ltb, ◌≤◌, List, [], ◌∷◌, Bool-cases, inl, inr, arith, All}
use spec_star_go.Domain.Position.{Position}
use spec_star_go.Postgres.Statements.{insert_ordered, order_by_purchased_at}

module _ {D : Type 0} where
  -- no row was bought before one that stands in front of it
  abbrev pub IsOldestFirst : List (Position D) → Type 0
  IsOldestFirst [] = Unit
  IsOldestFirst (p ∷ rest) = All (λ q. p.purchased_at ≤ q.purchased_at) rest × IsOldestFirst rest

  insert_ordered-Perm :
      (p : Position D) (rows : List (Position D)) → Perm (insert_ordered p rows) (p ∷ rows)
  unfolding insert_ordered
  insert_ordered-Perm p [] = Perm.refl _
  insert_ordered-Perm p (q ∷ rest) = elim (Bool-cases (ltb q.purchased_at p.purchased_at)) [
    | inl h ↦
        rw (h, insert_ordered)
          (Perm.trans (Perm.cons q (insert_ordered-Perm p rest)) (Perm.swap _ _ _))
    | inr h ↦ rw (h, insert_ordered) (Perm.refl _)
  ]

  All-insert_ordered :
      (P : Position D → Type 0) (p : Position D) (rows : List (Position D))
      → P p
      → All P rows
      → All P (insert_ordered p rows)
  unfolding insert_ordered
  All-insert_ordered P p [] x _ = (x, tt)
  All-insert_ordered P p (q ∷ rest) x (y, ys) =
      elim (Bool-cases (ltb q.purchased_at p.purchased_at)) [
        | inl h ↦ rw (h, insert_ordered) (y, All-insert_ordered P p rest x ys)
        | inr h ↦ rw (h, insert_ordered) (x, (y, ys))
      ]

  All-after :
      (m n : ℕ) (rows : List (Position D))
      → m ≤ n
      → All (λ q. n ≤ q.purchased_at) rows
      → All (λ q. m ≤ q.purchased_at) rows
  All-after m n [] h _ = tt
  All-after m n (q ∷ rest) h (x, xs) = (omega arith, All-after m n rest h xs)

  insert_ordered-IsOldestFirst :
      (p : Position D) (rows : List (Position D))
      → IsOldestFirst rows
      → IsOldestFirst (insert_ordered p rows)
  unfolding insert_ordered
  insert_ordered-IsOldestFirst p [] _ = (tt, tt)
  insert_ordered-IsOldestFirst p (q ∷ rest) (before, sorted) =
      elim (Bool-cases (ltb q.purchased_at p.purchased_at)) [
        | inl h ↦
            rw (h, insert_ordered)
              (
                All-insert_ordered (λ r. q.purchased_at ≤ r.purchased_at) p rest (ground arith)
                    before,
                insert_ordered-IsOldestFirst p rest sorted,
              )
        | inr h ↦
            let le : p.purchased_at ≤ q.purchased_at = ground arith in
            rw (h, insert_ordered) ((le, All-after _ _ rest le before), (before, sorted))
      ]

  pub order-Perm : (rows : List (Position D)) → Perm (order_by_purchased_at rows) rows
  unfolding order_by_purchased_at
  order-Perm [] = Perm.refl _
  order-Perm (p ∷ rest) =
      Perm.trans (insert_ordered-Perm p (order_by_purchased_at rest))
        (Perm.cons p (order-Perm rest))

  pub order-IsOldestFirst : (rows : List (Position D)) → IsOldestFirst (order_by_purchased_at rows)
  unfolding order_by_purchased_at
  order-IsOldestFirst [] = tt
  order-IsOldestFirst (p ∷ rest) =
      insert_ordered-IsOldestFirst p (order_by_purchased_at rest) (order-IsOldestFirst rest)
