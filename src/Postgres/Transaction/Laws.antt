-- ===== src/Postgres/Transaction/Laws.antt =====
-- A transaction is atomic: an error leaves the tables as they were when it began.
use spec_star_go.Prelude.{◌≡◌, refl, ◌⊎◌, inl, inr, String, Option-cases}
use spec_star_go.Domain.Errors.{Error, wrap, message, join}
use spec_star_go.Domain.Effect.{Result, ok, err, Action}
use spec_star_go.Postgres.World.{World}
use spec_star_go.Postgres.World.Laws.{used}
use spec_star_go.Postgres.Transaction.{transact, conclude}

module _ {D A : Type 0} (begun w : World D) where
  conclude_err :
      (e : Error)
      → ((conclude {A = A} begun (err e) w).1.tables ≡ begun.tables)
        × (((conclude {A = A} begun (err e) w).0 ≡ err e)
            ⊎ ((text : String) × ((conclude {A = A} begun (err e) w).0
                  ≡ err (join e (message text)))))
  unfolding conclude
  conclude_err e = elim (Option-cases (w.faults 0)) [
    | inl h ↦ rw (h, conclude) (refl, inl refl)
    | inr (text, h) ↦ rw (h, conclude) (refl, inr (text, refl))
  ]

  conclude_ok :
      (a : A)
      → (((conclude begun (ok a) w).0 ≡ ok a) × ((conclude begun (ok a) w).1.tables ≡ w.tables))
        ⊎ ((text : String) × ((conclude begun (ok a) w).0
              ≡ err (wrap "committing transaction" (message text)))
            × ((conclude begun (ok a) w).1.tables ≡ begun.tables))
  unfolding conclude
  conclude_ok a = elim (Option-cases (w.faults 0)) [
    | inl h ↦ rw (h, conclude) (inl (refl, refl))
    | inr (text, h) ↦ rw (h, conclude) (inr (text, refl, refl))
  ]

module _ {D A : Type 0} (fn : Action (World D) A) (w : World D) where
  -- the function failed with `e`, or the transaction could not begin or commit
  pub data Cause (e : Error) : Type 0 where
    body : (w' : World D) → fn (used w) ≡ (err e, w') → Cause e
    rollback_failed :
        {w' : World D} {e' : Error} {text : String}
        → fn (used w) ≡ (err e', w')
        → e ≡ join e' (message text)
        → Cause e
    connection : (prefix text : String) → e ≡ wrap prefix (message text) → Cause e

  abbrev Outcome : Result A × World D → Type 0
  Outcome s =
      ((e : Error) × Cause e × (s.0 ≡ err e) × (s.1.tables ≡ w.tables))
      ⊎ ((a : A) × (w' : World D) × (fn (used w) ≡ (ok a, w'))
          × (s.0 ≡ ok a)
          × (s.1.tables ≡ w'.tables))

  concluded :
      (r : Result A) (w' : World D) → fn (used w) ≡ (r, w') → Outcome (conclude (used w) r w')
  concluded (ok a) w' h = elim (conclude_ok (used w) w' a) [
    | inl (e, t) ↦ inr (a, w', h, e, t)
    | inr (text, e, t) ↦ inl (_, connection "committing transaction" text refl, e, t)
  ]
  concluded (err e) w' h =
      let (t, why) = conclude_err {A = A} (used w) w' e in
      elim why [
        | inl same ↦ inl (e, body w' h, same, t)
        | inr (text, joined) ↦ inl (_, rollback_failed h refl, joined, t)
      ]

  -- A transaction is atomic. Either it returns an error and the tables are as they were before it,
  -- and the error comes from the function, from a rollback that failed after it, or from the
  -- connection at the beginning or the commit; or it returns the value with which the function
  -- succeeded, and the tables are as the function left them.
  pub transact-cases :
      ((e : Error) × Cause e × ((transact fn w).0 ≡ err e) × ((transact fn w).1.tables ≡ w.tables))
      ⊎ ((a : A) × (w' : World D) × (fn (used w) ≡ (ok a, w'))
          × ((transact fn w).0 ≡ ok a)
          × ((transact fn w).1.tables ≡ w'.tables))
  transact-cases = elim (Option-cases (w.faults 0)) [
    | inr (text, h) ↦
        unfold transact in
        rw (h, transact) (inl (_, connection "beginning transaction" text refl, refl, refl))
    | inl h ↦
        let (r, w') = fn (used w) in
        let run : transact fn w ≡ conclude (used w) r w' = unfold transact in rw (h, transact) in
        rw run (concluded r w' refl)
  ]
