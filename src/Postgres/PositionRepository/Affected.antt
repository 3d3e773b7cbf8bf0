-- ===== src/Postgres/PositionRepository/Affected.antt =====
-- What an UPDATE that affects some row has found and done.
use spec_star_go.Prelude.{
  ℕ, ◌==◌, ◌≡◌, ◌⊎◌, ◌<◌, ◌+◌, refl, ◌∙◌, sym, subst, ap, inl, inr, true, false, List, [], ◌∷◌, map,
  All, arith, Bool-cases, if◌then◌else◌,
}
use spec_star_go.Decimal.{Decimal}
use spec_star_go.Domain.Position.{Position}
use spec_star_go.Ports.{Codec}
use spec_star_go.Postgres.World.{Tables, Sql, done}
use spec_star_go.Postgres.World.Laws.{DbResult-cases}
use spec_star_go.Postgres.Statements.{exists, has_position_id}
use spec_star_go.Postgres.Writes.{
  PositionArguments, assign_position, check_position, is_version, update_position, update_rows,
  updated, is_at_version,
}
use spec_star_go.Postgres.Writes.Invariant.{Apart}
use spec_star_go.Postgres.PositionRepository.{previous_version}
use spec_star_go.Postgres.PositionRepository.Locking.{update_rows_none, assign_position-ids}

module _ {D : Type 0} where
  -- no row of the list has the identifier
  abbrev pub IsAbsent : (id : ℕ) → List (Position D) → Type 0
  IsAbsent id rows = All (λ y. (id == y) ≡ false) (map (λ p. p.position_id) rows)

  pub exists-absent :
      (id v : ℕ) (rows : List (Position D))
      → IsAbsent id rows
      → exists (is_at_version id v) rows ≡ false
  exists-absent id v [] _ = refl
  exists-absent id v (p ∷ rest) (other, others) = ground (arith, exists-absent id v rest others)

  -- the row that an update leaves, by its identifier alone
  abbrev pub replace : Position D → Position D → Position D
  replace new p = if p.position_id == new.position_id then updated new p else p

module _ {D : Type 0} (new : Position D) (version : ℕ) where
  pub exists-update_rows :
      (id : ℕ) (rows : List (Position D))
      → exists (has_position_id id) (update_rows new version rows).0
        ≡ exists (has_position_id id) rows
  unfolding update_rows
  exists-update_rows id [] = refl
  exists-update_rows id (p ∷ rest) = elim (Bool-cases (is_at_version new.position_id version p)) [
    | inl h ↦ rw (h, update_rows) (rw (exists-update_rows id rest) refl)
    | inr h ↦ rw (h, update_rows) (rw (exists-update_rows id rest) refl)
  ]

  replace-absent :
      (rows : List (Position D))
      → IsAbsent new.position_id rows
      → (update_rows new version rows).0 ≡ map (replace new) rows
  unfolding update_rows
  replace-absent [] _ = refl
  replace-absent (p ∷ rest) (other, others) =
      let below = replace-absent rest others in
      let apart : (p.position_id == new.position_id) ≡ false = ground arith in
      rw (apart, update_rows) (ap (λ xs. p ∷ xs) below)

  -- where identifiers are unique, an update that finds a row replaces it, and no other
  pub update_rows-replace :
      (rows : List (Position D))
      → Apart (λ j i. i == j) (map (λ p. p.position_id) rows)
      → exists (is_at_version new.position_id version) rows ≡ true
      → (update_rows new version rows).0 ≡ map (replace new) rows
  unfolding update_rows
  update_rows-replace [] apart there = absurd (cc)
  update_rows-replace (p ∷ rest) (others, apart) there =
      elim (Bool-cases (is_at_version new.position_id version p)) [
        | inl h ↦
            let same : p.position_id ≡ new.position_id = ground arith in
            let below = replace-absent rest (subst (λ i. IsAbsent i rest) same others) in
            let found : (p.position_id == new.position_id) ≡ true = ground arith in
            rw (h, found, update_rows) (ap (λ xs. updated new p ∷ xs) below)
        | inr h ↦ elim (Bool-cases (p.position_id == new.position_id)) [
          | inl e ↦
              let same : p.position_id ≡ new.position_id = ground arith in
              let none_left =
                exists-absent new.position_id version rest
                  (subst (λ i. IsAbsent i rest) same others) in
              absurd (ground arith)
          | inr e ↦
              rw (h, e, update_rows)
                (ap (λ xs. p ∷ xs) (update_rows-replace rest apart (ground arith)))
        ]
      ]

pub exists_at :
    {D : Type 0} (id version : ℕ) (rows : List (Position D))
    → exists (is_at_version id version) rows ≡ true
    → exists (has_position_id id) rows ≡ true
exists_at id version [] there = there
exists_at id version (p ∷ rest) there = ground (arith, exists_at id version rest)

is_version-bounds : (v : ℕ) → is_version v ≡ true → (0 < v) × (v < 2147483648)
is_version-bounds v h = ground arith

pub previous_version_lem :
    {D : Type 0} ⦃d : Decimal D⦄ (sql : Sql D) (codec : Codec) (v : ℕ)
    → is_version v ≡ true
    → v ≡ previous_version sql codec v + 1
previous_version_lem sql codec v h = let (low, high) = is_version-bounds v h in omega arith

check_position-version :
    {D : Type 0} ⦃d : Decimal D⦄ (p : Position D)
    → check_position p ≡ done tt
    → is_version p.row_version ≡ true
unfolding check_position
check_position-version p h = ground arith

module _ {D : Type 0} ⦃d : Decimal D⦄ (sql : Sql D) where
  -- what an UPDATE that affects some row has checked and done
  pub record Affects (a : PositionArguments) (version : ℕ) (t t' : Tables D) : Type 0 where
    pub row : Position D
    pub assigned : assign_position sql a ≡ done row
    pub checked : check_position row ≡ done tt
    pub there : exists (is_at_version row.position_id version) t.positions ≡ true
    pub written : t' ≡ record t { positions = (update_rows row version t.positions).0 }

  -- an UPDATE that goes through changes nothing, or affects some row
  pub update_position-cases :
      (a : PositionArguments) (version n : ℕ) (t t' : Tables D)
      → update_position sql a version t ≡ done (n, t')
      → ((n ≡ 0) × (t' ≡ t)) ⊎ Affects a version t t'
  unfolding update_position
  update_position-cases a version n t t' h = elim (DbResult-cases (assign_position sql a)) [
    | inr (why, e) ↦ ground arith
    | inl (p, e) ↦ elim (Bool-cases ((update_rows p version t.positions).1 == 0)) [
      | inl z ↦ inl (ground arith, ground arith)
      | inr z ↦ elim (DbResult-cases (check_position p)) [
        | inr (why, c) ↦ ground arith
        | inl (_, c) ↦
            elim (Bool-cases (exists (is_at_version p.position_id version) t.positions)) [
              | inl there ↦ inr (record {
                row = p;
                assigned = e;
                checked = c;
                there = there;
                written = ground arith;
              })
              | inr gone ↦
                  let none_left = update_rows_none p version t.positions gone in
                  absurd (ground arith)
            ]
      ]
    ]
  ]

module _ {D : Type 0} ⦃d : Decimal D⦄ (sql : Sql D) (codec : Codec) where
  pub affected_version :
      (a : PositionArguments) (t t' : Tables D)
      → (x : Affects sql a (previous_version sql codec a.row_version) t t')
      → (x.row.row_version ≡ previous_version sql codec a.row_version + 1)
        × (x.row.position_id ≡ a.position_id)
        × (a.row_version ≡ previous_version sql codec a.row_version + 1)
  affected_version a t t' x =
      let (same_id, same_version) = assign_position-ids sql a x.row x.assigned in
      let raised =
        previous_version_lem sql codec a.row_version
          (rw (sym same_version) (check_position-version x.row x.checked)) in
      (same_version ∙ raised, same_id, raised)
