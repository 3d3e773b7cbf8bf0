-- ===== src/Postgres/PositionRepository/Interleaving.antt =====
-- Optimistic locking when other requests write in between, in any order.
use spec_star_go.Prelude.{
  ℕ, ◌==◌, ◌≡◌, ◌≢◌, ◌≤◌, ◌<◌, ◌+◌, ◌∙◌, sym, subst, inl, inr, true, List, [], ◌∷◌, map, All,
  All-append, arith, Bool-cases,
}
use spec_star_go.Decimal.{Decimal}
use spec_star_go.Domain.Effect.{ok}
use spec_star_go.Domain.Client.{Client}
use spec_star_go.Domain.Position.{Position}
use spec_star_go.Domain.ProcessedCommand.{ProcessedCommand}
use spec_star_go.Ports.{Codec}
use spec_star_go.Postgres.World.{AssetRow, World, Tables, Sql, done}
use spec_star_go.Postgres.Statements.{exists, has_position_id}
use spec_star_go.Postgres.Writes.{
  PositionArguments, insert_client, insert_asset, insert_position, insert_command, update_position,
  update_rows, is_at_version,
}
use spec_star_go.Postgres.Writes.Laws.{insert_position_lem, insert_command_lem}
use spec_star_go.Postgres.Writes.Invariant.{
  Apart, IsWellFormed, insert_client_lem, insert_asset_lem, exists-append,
}
use spec_star_go.Postgres.PositionRepository.{update_one, arguments, previous_version}
use spec_star_go.Postgres.PositionRepository.Locking.{update_one-eq_ok}
use spec_star_go.Postgres.PositionRepository.Affected.{
  IsAbsent, exists-absent, exists-update_rows, exists_at, Affects, update_position-cases,
  affected_version,
}

-- The position is there, and its version is above `v`.
abbrev IsPast : {D : Type 0} → (id v : ℕ) → List (Position D) → Type 0
IsPast id v rows =
    (exists (has_position_id id) rows ≡ true)
    × All (λ p. p.position_id ≡ id → v < p.row_version) rows

module _ {D : Type 0} (new : Position D) (version : ℕ) where
  -- an update that raises the version keeps every version above `v`
  update_rows_past :
      (id v : ℕ) (rows : List (Position D))
      → new.row_version ≡ version + 1
      → All (λ p. p.position_id ≡ id → v < p.row_version) rows
      → All (λ p. p.position_id ≡ id → v < p.row_version) (update_rows new version rows).0
  unfolding update_rows
  update_rows_past id v [] raised past = tt
  update_rows_past id v (p ∷ rest) raised (above, past) =
      let below = update_rows_past id v rest raised past in
      elim (Bool-cases (is_at_version new.position_id version p)) [
        | inr h ↦ rw (h, update_rows) (above, below)
        | inl h ↦ rw (h, update_rows) ((λ same. ground (arith, above same)), below)
      ]

  absent_past :
      (id v : ℕ) (rows : List (Position D))
      → IsAbsent id rows
      → All (λ p. p.position_id ≡ id → v < p.row_version) (update_rows new version rows).0
  unfolding update_rows
  absent_past id v [] _ = tt
  absent_past id v (p ∷ rest) (other, others) =
      let below = absent_past id v rest others in
      elim (Bool-cases (is_at_version new.position_id version p)) [
        | inl h ↦ rw (h, update_rows) ((λ same. ground arith), below)
        | inr h ↦ rw (h, update_rows) ((λ same. ground arith), below)
      ]

  -- what an update of the row at the version leaves, where identifiers are unique
  update_rows_first :
      (rows : List (Position D))
      → new.row_version ≡ version + 1
      → Apart (λ j i. i == j) (map (λ p. p.position_id) rows)
      → exists (is_at_version new.position_id version) rows ≡ true
      → All
          (λ p. p.position_id ≡ new.position_id → version < p.row_version)
          (update_rows new version rows).0
  unfolding update_rows
  update_rows_first [] raised apart there = absurd (cc)
  update_rows_first (p ∷ rest) raised (others, apart) there =
      elim (Bool-cases (is_at_version new.position_id version p)) [
        | inl h ↦
            let same : p.position_id ≡ new.position_id = ground arith in
            rw (h, update_rows)
              (
                (λ e. omega arith),
                absent_past new.position_id version rest (subst (λ i. IsAbsent i rest) same others),
              )
        | inr h ↦
            rw (h, update_rows)
              (
                (λ same.
                    let none_left =
                      exists-absent new.position_id version rest
                        (subst (λ i. IsAbsent i rest) same others) in
                    absurd (ground arith)),
                update_rows_first rest raised apart (ground arith),
              )
      ]

past_none :
    {D : Type 0} (id version v : ℕ) (rows : List (Position D))
    → version ≤ v
    → All (λ p. p.position_id ≡ id → v < p.row_version) rows
    → exists (is_at_version id version) rows ≢ true
past_none id version v [] stale _ there = cc
past_none id version v (p ∷ rest) stale (above, past) there =
    elim (Bool-cases (is_at_version id version p)) [
      | inl h ↦
          let same : p.position_id ≡ id = ground arith in
          let higher = above same in absurd (ground arith)
      | inr h ↦ past_none id version v rest stale past (ground arith)
    ]

module _ {D : Type 0} ⦃d : Decimal D⦄ (sql : Sql D) (codec : Codec) where
  -- What a repository writes, whoever calls it: an INSERT, or the UPDATE of `Update`, which looks for
  -- the version before the one that it sets.
  pub data Change (t t' : Tables D) : Type 0 where
    client : (c : Client) → insert_client sql c t ≡ done (tt, t') → Change t t'
    asset : (a : AssetRow) → insert_asset sql a t ≡ done (tt, t') → Change t t'
    position : (a : PositionArguments) → insert_position sql a t ≡ done (tt, t') → Change t t'
    command : (c : ProcessedCommand) → insert_command sql c t ≡ done (tt, t') → Change t t'
    update :
        (a : PositionArguments) (n : ℕ)
        → update_position sql a (previous_version sql codec a.row_version) t ≡ done (n, t')
        → Change t t'

  -- any number of them, by any number of requests, in any order
  pub data Changes (t : Tables D) : Tables D → Type 0 where
    here : Changes t t
    next : {u v : Tables D} → Changes t u → Change u v → Changes t v

  Change-IsPast :
      (id v : ℕ) {t t' : Tables D}
      → Change t t'
      → IsPast id v t.positions
      → IsPast id v t'.positions
  Change-IsPast id v {t} {t'} (client c h) past = rw (insert_client_lem sql t t' c h) past
  Change-IsPast id v {t} {t'} (asset a h) past =
      let (b, e) = insert_asset_lem sql t t' a h in rw e past
  Change-IsPast id v {t} {t'} (command c h) past =
      let (snapshot, document, fresh, e) = insert_command_lem sql t t' c h in rw e past
  Change-IsPast id v {t} {t'} (position a h) (there, past) =
      let (p, assigned, checked, fresh, c, s, e) = insert_position_lem sql t t' a h in
      rw e (
        exists-append (has_position_id id) t.positions p there,
        All-append _ t.positions (p ∷ []) past
            ((λ same. absurd (let taken = rw same at fresh in cc)), tt),
      )
  Change-IsPast id v {t} {t'} (update a n h) (there, past) =
      elim (update_position-cases sql a _ n t t' h) [
        | inl (_, same) ↦ rw same (there, past)
        | inr x ↦
            let (raised, _, _) = affected_version sql codec a t t' x in
            rw x.written (
              exists-update_rows x.row _ id t.positions ∙ there,
              update_rows_past x.row _ id v t.positions raised past,
            )
      ]

  Changes-IsPast :
      (id v : ℕ) {t t' : Tables D}
      → Changes t t'
      → IsPast id v t.positions
      → IsPast id v t'.positions
  Changes-IsPast id v here past = past
  Changes-IsPast id v (next before change) past =
      Change-IsPast id v change (Changes-IsPast id v before past)

  -- what the first update leaves
  first-IsPast :
      (a : PositionArguments) (t t' : Tables D)
      → IsWellFormed t
      → Affects sql a (previous_version sql codec a.row_version) t t'
      → IsPast a.position_id (previous_version sql codec a.row_version) t'.positions
  first-IsPast a t t' v x =
      let (raised, same_id, _) = affected_version sql codec a t t' x in
      let version = previous_version sql codec a.row_version in
      rw (sym same_id, x.written)
        (
          exists-update_rows x.row version x.row.position_id t.positions
              ∙ exists_at x.row.position_id version t.positions x.there,
          update_rows_first x.row version t.positions raised v.positions_apart x.there,
        )

  -- no update of a version that is past affects a row
  past_unaffected :
      (a : PositionArguments) (v : ℕ) (t t' : Tables D)
      → IsPast a.position_id v t.positions
      → previous_version sql codec a.row_version ≤ v
      → ¬ (Affects sql a (previous_version sql codec a.row_version) t t')
  past_unaffected a v t t' (_, past) stale x =
      let (_, same_id, _) = affected_version sql codec a t t' x in
      past_none _ _ v t.positions stale past (rw same_id at x.there)

  -- No update is lost under any interleaving: after an update of a position has succeeded on
  -- well-formed tables, and whatever rows other requests have inserted and updated since, in any
  -- number and order, an update that was computed from the same version of that position or from an
  -- earlier one does not succeed, whatever it writes.
  pub stale_update_fails :
      (p q : Position D) (w w' v v' : World D)
      → IsWellFormed w.tables
      → q.position_id ≡ p.position_id
      → q.row_version ≤ p.row_version
      → update_one sql codec p w ≡ (ok tt, w')
      → Changes w'.tables v.tables
      → update_one sql codec q v ≢ (ok tt, v')
  unfolding arguments
  stale_update_fails p q w w' v v' well same_id stale first between second =
      let a = arguments sql codec p in
      let b = arguments sql codec q in
      let (n, some_row, run) = update_one-eq_ok sql codec p w w' first in
      let (m, another, again) = update_one-eq_ok sql codec q v v' second in
      elim (update_position-cases sql a _ n w.tables w'.tables run) [
        | inl (no_row, _) ↦ some_row no_row
        | inr x ↦ elim (update_position-cases sql b _ m v.tables v'.tables again) [
          | inl (no_row, _) ↦ another no_row
          | inr y ↦
              let past =
                Changes-IsPast p.position_id _ between (first-IsPast a w.tables w'.tables well x) in
              let (_, _, p_raised) = affected_version sql codec a w.tables w'.tables x in
              let (_, _, q_raised) = affected_version sql codec b v.tables v'.tables y in
              past_unaffected b (previous_version sql codec p.row_version) v.tables v'.tables
                (rw same_id past) (omega arith) y
        ]
      ]
