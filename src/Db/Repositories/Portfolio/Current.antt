-- ===== src/Db/Repositories/Portfolio/Current.antt =====
-- What an account held at a time, by the snapshots that were there.
use toss_api.Prelude.{ℕ, String, ◌≡◌, ◌≤◌, true, List, Has, arith, eq_iff}
use toss_api.Db.Sql.{Engine, IsPostgres}
use toss_api.Db.Repositories.Portfolio.{PositionRow, position_filters, get_current_positions_as_of}

module _ {D : Type 0} where
  -- A snapshot of the account that was available at `as_of`.
  pub record IsKnown (account_id : String) (as_of : ℕ) (t : List (PositionRow D))
      (r : PositionRow D) : Type 0 where
    pub present : Has r t
    pub account : r.key.account_id ≡ account_id
    pub available : r.available_at ≤ as_of

  to_filter :
      (account_id : String) (as_of : ℕ) (t : List (PositionRow D)) (r : PositionRow D)
      → IsKnown account_id as_of t r
      → position_filters account_id as_of r ≡ true
  to_filter account_id as_of t r k =
      ground (arith, eq_iff r.key.account_id account_id, k.account, k.available)

  from_filter :
      (account_id : String) (as_of : ℕ) (t : List (PositionRow D)) (r : PositionRow D)
      → Has r t
      → position_filters account_id as_of r ≡ true
      → IsKnown account_id as_of t r
  from_filter account_id as_of t r m h = record {
    present = m;
    account = ground (arith, eq_iff r.key.account_id account_id, h);
    available = ground (arith, h);
  }

  module _ (eng : Engine (PositionRow D) ℕ) (pg : IsPostgres eng) where
    -- The read returns known snapshots of the account only, one for each instrument of which one is
    -- known, and of that instrument none that is known is of a later time.
    pub get_current_positions_as_of-latest :
        (account_id : String) (as_of : ℕ) (t : List (PositionRow D))
        → let rows = get_current_positions_as_of eng account_id as_of t in
          ((r : PositionRow D)
            → Has r rows
            → IsKnown account_id as_of t r
              × ((s : PositionRow D)
                  → IsKnown account_id as_of t s
                  → s.key.instrument_id ≡ r.key.instrument_id
                  → s.key.event_time ≤ r.key.event_time))
          × ((s : PositionRow D)
              → IsKnown account_id as_of t s
              → (r : PositionRow D) × Has r rows × (r.key.instrument_id ≡ s.key.instrument_id))
          × ((r s : PositionRow D)
              → Has r rows
              → Has s rows
              → r.key.instrument_id ≡ s.key.instrument_id
              → r ≡ s)
    unfolding get_current_positions_as_of
    get_current_positions_as_of-latest account_id as_of t =
        let key : PositionRow D → ℕ = λ r. r.key.instrument_id in
        let p = position_filters {D = D} account_id as_of in
        let time : PositionRow D → ℕ = λ r. r.key.event_time in
        let tie : PositionRow D → ℕ = λ r. 0 in
        let law = pg.distinct_law key in
        (
          λ r m.
              let kept = law.kept p time tie t r m in
              (
                from_filter account_id as_of t r kept.0 kept.1,
                λ s k same. ground (
                  arith,
                  law.first p time tie t r s m k.present (to_filter account_id as_of t s k) same,
                ),
              ),
          λ s k. law.every_key p time tie t s k.present (to_filter account_id as_of t s k),
          λ r s m n same. law.one_per_key p time tie t r s m n same,
        )
