-- ===== src/Db/Repositories/Reads.antt =====
-- What the reads of the revisioned tables return.
use toss_api.Prelude.{ℕ, String, ◌≡◌, ◌≤◌, ◌↔◌, true, List, Has, arith, eq_iff}
use toss_api.Db.Sql.{Engine, IsPostgres}
use toss_api.Prelude.Sort.{Ascending}
use toss_api.Db.Revisions.History.{IsLog}
use toss_api.Db.Revisions.PointInTime.{select_latest_revision_as_of-iff-IsCurrent}
use toss_api.Db.Repositories.Keys.{BarKey, bar_key_eq}
use toss_api.Db.Repositories.{MarketBarRow, bar_filters, get_bars_as_of}

module _ {D : Type 0} (eng : Engine (MarketBarRow D) BarKey) (pg : IsPostgres eng) where
  -- A bar of the instrument, timeframe and window that was available at `as_of`, in its last
  -- revision of all that were.
  pub record IsCurrentBar (instrument_id : ℕ) (timeframe : String) (start end as_of : ℕ)
      (t : List (MarketBarRow D)) (r : MarketBarRow D) : Type 0 where
    pub present : Has r t
    pub instrument : r.key.instrument_id ≡ instrument_id
    pub frame : r.key.timeframe ≡ timeframe
    pub from : start ≤ r.key.event_time
    pub until : r.key.event_time ≤ end
    pub available : r.available_at ≤ as_of
    pub last :
        (s : MarketBarRow D)
        → Has s t
        → s.key ≡ r.key
        → s.available_at ≤ as_of
        → s.available_at ≤ r.available_at

  -- The filters of bars are on the key alone, so a read returns exactly the last available revision
  -- of each bar in the window, in the order of time.
  pub get_bars_as_of_iff :
      (instrument_id : ℕ) (timeframe : String) (start end as_of : ℕ) (t : List (MarketBarRow D))
      → IsLog t
      → ((r : MarketBarRow D)
          → Has r (get_bars_as_of eng instrument_id timeframe start end as_of t)
            ↔ IsCurrentBar instrument_id timeframe start end as_of t r)
        × Ascending
            (λ r. r.key.event_time)
            (get_bars_as_of eng instrument_id timeframe start end as_of t)
  unfolding get_bars_as_of
  get_bars_as_of_iff instrument_id timeframe start end as_of t log =
      let filters = bar_filters eng instrument_id timeframe start end in
      let key_filters : (s r : MarketBarRow D)
          → s.key ≡ r.key
          → filters r ≡ true
          → filters s ≡ true =
        λ s r k h. ground arith in
      let read =
        select_latest_revision_as_of-iff-IsCurrent bar_key_eq eng pg (λ r. r.key.event_time) filters
          as_of t log in
      (
        λ r. (
          λ m.
              let l = (read.0 r).0 m in
              let v = l.visible in
              record {
                present = v.present;
                instrument = ground arith;
                frame = ground (arith, eq_iff r.key.timeframe timeframe);
                from = ground arith;
                until = ground arith;
                available = v.available;
                last = λ s ms k a.
                    l.last s
                      (record { present = ms; wanted = key_filters s r k v.wanted; available = a })
                      k;
              },
          λ c.
              let wanted : filters r ≡ true =
                ground (
                  arith,
                  eq_iff r.key.timeframe timeframe,
                  c.instrument,
                  c.frame,
                  c.from,
                  c.until,
                ) in
              (read.0 r).1 (record {
                visible = record { present = c.present; wanted = wanted; available = c.available };
                last = λ s w k. c.last s w.present k w.available;
              }),
        ),
        read.1,
      )
