-- ===== src/EndToEnd/Success/Calls.antt =====
-- The calls of a withdrawal that go through while the connection holds.
use spec_star_go.Prelude.{
  ℕ, suc, ◌==◌, String, ◌≡◌, ◌≢◌, refl, ◌∙◌, none, List, [], ◌∷◌, arith, false,
}
use spec_star_go.Decimal.{Decimal}
use spec_star_go.Domain.Effect.{ok, Action, bind}
use spec_star_go.Domain.Position.{Position}
use spec_star_go.Ports.{Codec, Json}
use spec_star_go.Application.Flow.{wrap_call}
use spec_star_go.Application.Withdraw.{WithdrawResponse, update_all}
use spec_star_go.Postgres.World.{World, Tables, Sql, done}
use spec_star_go.Postgres.World.Laws.{used, statement_done}
use spec_star_go.Postgres.Statements.{
  select_all, is_of_instrument, order_by_purchased_at, select_by_instrument,
}
use spec_star_go.Postgres.Writes.{update_position}
use spec_star_go.Postgres.Repositories.{returning}
use spec_star_go.Postgres.PositionRepository.{
  arguments, previous_version, conflict_if_none, update_one, scan_all, collect_positions,
  find_by_client_and_instrument,
}
use spec_star_go.Postgres.Transaction.{environment}

-- A call that went through, with the connection still holding. It read no clock and took no
-- identifier.
pub record Went {D A : Type 0} (m : Action (World D) A) (w : World D) (a : A) (t : Tables D)
    : Type 0 where
  pub after : World D
  pub runs : m w ≡ (ok a, after)
  pub tables : after.tables ≡ t
  pub times : after.times ≡ w.times
  pub uuids : after.uuids ≡ w.uuids
  pub holds : (i : ℕ) → after.faults i ≡ none

pub bind-ok :
    {W A B : Type 0} (m : Action W A) (f : A → Action W B) (w w' : W) (a : A)
    → m w ≡ (ok a, w')
    → bind m f w ≡ f a w'
bind-ok m f w w' a h = rw h refl

pub wrap_call-ok :
    {W A : Type 0} (prefix : String) (m : Action W A) (w w' : W) (a : A)
    → m w ≡ (ok a, w')
    → wrap_call prefix m w ≡ (ok a, w')
wrap_call-ok prefix m w w' a h = rw h refl

module _ {D : Type 0} ⦃d : Decimal D⦄ (sql : Sql D) (codec : Codec) where
  pub find_lots-Went :
      (client : ℕ) (instrument : String) (lots : List (Position D)) (w : World D)
      → ((i : ℕ) → w.faults i ≡ none)
      → scan_all sql codec (
          order_by_purchased_at
            (select_all (is_of_instrument w.tables.assets client instrument) w.tables.positions))
        ≡ ok lots
      → Went (find_by_client_and_instrument sql codec client instrument) w lots w.tables
  unfolding find_by_client_and_instrument collect_positions select_by_instrument
  find_lots-Went client instrument lots w holds scanned =
      let rows =
        order_by_purchased_at
          (select_all (is_of_instrument w.tables.assets client instrument) w.tables.positions) in
      let read =
        statement_done (select_by_instrument client instrument) w rows w.tables (holds 0) refl in
      let closed = statement_done (λ t. done (tt, t)) (used w) tt w.tables (holds 1) refl in
      record {
        after = used (used w);
        runs = rw (read, returning, scanned, collect_positions, closed) refl;
        tables = refl;
        times = refl;
        uuids = refl;
        holds = λ i. holds (suc (suc i));
      }

  -- every lot is updated in turn, and the database accepts each
  pub data Accepts : List (Position D) → Tables D → Tables D → Type 0 where
    all_accepted : {t : Tables D} → Accepts [] t t
    accepted :
        {lot : Position D} {rest : List (Position D)} {t t' t'' : Tables D} (n : ℕ)
        → update_position sql
            (arguments sql codec lot)
            (previous_version sql codec lot.row_version)
            t
          ≡ done (n, t')
        → n ≢ 0
        → Accepts rest t' t''
        → Accepts (lot ∷ rest) t t''

  update_one-Went :
      (lot : Position D) (n : ℕ) (t : Tables D) (w : World D)
      → ((i : ℕ) → w.faults i ≡ none)
      → update_position sql
          (arguments sql codec lot)
          (previous_version sql codec lot.row_version)
          w.tables
        ≡ done (n, t)
      → n ≢ 0
      → Went (update_one sql codec lot) w tt t
  unfolding update_one conflict_if_none
  update_one-Went lot n t w holds h some_row =
      let moved : (n == 0) ≡ false = ground arith in
      let run =
        statement_done
          (update_position sql (arguments sql codec lot)
            (previous_version sql codec lot.row_version))
          w n t (holds 0) h in
      record {
        after = record (used w) { tables = t };
        runs = rw (run, conflict_if_none, moved) refl;
        tables = refl;
        times = refl;
        uuids = refl;
        holds = λ i. holds (suc i);
      }

  module _ (json : Json WithdrawResponse) where
    pub update_all-Went :
        (lots : List (Position D)) (t t' : Tables D) (w : World D)
        → ((i : ℕ) → w.faults i ≡ none)
        → w.tables ≡ t
        → Accepts lots t t'
        → Went (update_all (environment sql codec) codec json lots) w tt t'
    unfolding update_all
    update_all-Went [] t t' w holds same all_accepted = record {
      after = w;
      runs = refl;
      tables = same;
      times = refl;
      uuids = refl;
      holds = holds;
    }
    update_all-Went (lot ∷ rest) t t'' w holds same (accepted {t'} n h some_row more) =
        let first = update_one-Went lot n t' w holds (rw same h) some_row in
        let others = update_all-Went rest t' t'' first.after first.holds first.tables more in
        record {
          after = others.after;
          runs = rw first.runs others.runs;
          tables = others.tables;
          times = others.times ∙ first.times;
          uuids = others.uuids ∙ first.uuids;
          holds = others.holds;
        }
