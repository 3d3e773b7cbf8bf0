-- ===== src/Postgres/World/Laws.antt =====
-- The three ways in which one use of the connection ends.
use spec_star_go.Prelude.{suc, String, ◌≡◌, refl, ◌⊎◌, inl, inr, none, some, Option-cases}
use spec_star_go.Postgres.World.{World, Tables, DbError, DbResult, done, fail, lost, statement}

pub DbResult-cases {ℓ} :
    {A : Type ℓ} (r : DbResult A) → ((a : A) × (r ≡ done a)) ⊎ ((e : DbError) × (r ≡ fail e))
DbResult-cases (done a) = inl (a, refl)
DbResult-cases (fail e) = inr (e, refl)

-- the world after one use of the connection that changed nothing
abbrev pub used : {D : Type 0} → World D → World D
used w = record w { faults = λ i. w.faults (suc i) }

module _ {D A : Type 0} (f : Tables D → DbResult (A × Tables D)) (w : World D) where
  pub statement_lost :
      (text : String) → w.faults 0 ≡ some text → statement f w ≡ (fail (lost text), used w)
  unfolding statement
  statement_lost text h = rw (h, statement)

  pub statement_done :
      (a : A) (t : Tables D)
      → w.faults 0 ≡ none
      → f w.tables ≡ done (a, t)
      → statement f w ≡ (done a, record (used w) { tables = t })
  unfolding statement
  statement_done a t h e = rw (h, e, statement)

  pub statement_fail :
      (e : DbError) → w.faults 0 ≡ none → f w.tables ≡ fail e → statement f w ≡ (fail e, used w)
  unfolding statement
  statement_fail e h p = rw (h, p, statement)

  -- A use of the connection loses it, or does the statement, or is refused by the statement.
  pub statement-cases :
      ((text : String) × (statement f w ≡ (fail (lost text), used w)))
      ⊎ ((a : A) × (t : Tables D) × (f w.tables ≡ done (a, t))
          × (statement f w ≡ (done a, record (used w) { tables = t })))
      ⊎ ((e : DbError) × (f w.tables ≡ fail e) × (statement f w ≡ (fail e, used w)))
  statement-cases = elim (Option-cases (w.faults 0)) [
    | inr (text, h) ↦ inl (text, statement_lost text h)
    | inl h ↦ elim (DbResult-cases (f w.tables)) [
      | inl ((a, t), e) ↦ inr (inl (a, t, e, statement_done a t h e))
      | inr (e, p) ↦ inr (inr (e, p, statement_fail e h p))
    ]
  ]
