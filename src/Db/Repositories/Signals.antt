-- ===== src/Db/Repositories/Signals.antt =====
-- app/db/repositories/signals.py: what a model or a strategy said of an instrument at a time.
-- `P` is the type of the JSON in `payload`.
use toss_api.Prelude.{ℕ, String, ◌≡◌, ◌↔◌, Bool, true, ◌&&◌, Option, List, leb, ◌==◌, arith}
use toss_api.Action.{Result}
use toss_api.Db.Sql.{Eq, Engine}
use toss_api.Db.Upsert.{EventRow, update, upsert_event_rows, select_as_of}
use toss_api.Db.Repositories.{optionally}

pub record SignalKey : Type 0 where
  pub model_run_id : ℕ
  pub instrument_id : ℕ
  pub event_time : ℕ

pub record SignalValues (D P : Type 0) : Type 0 where
  pub signal_value : Option D
  pub signal_label : Option String
  pub payload : Option P
  pub source : String

abbrev pub SignalRow : Type 0 → Type 0 → Type 0
SignalRow D P = EventRow SignalKey (SignalValues D P)

abbrev pub signal_beq : SignalKey → SignalKey → Bool
signal_beq a b =
    a.model_run_id == b.model_run_id
    && a.instrument_id == b.instrument_id
    && a.event_time == b.event_time

pub signal_beq_iff : (a b : SignalKey) → (signal_beq a b ≡ true) ↔ (a ≡ b)
signal_beq_iff a b = (λ h. ground (arith, h), λ h. ground (arith, h))

abbrev pub signal_key_eq : Eq SignalKey
signal_key_eq = record { beq = signal_beq; beq_iff = signal_beq_iff }

module _ {D P : Type 0} (eng : Engine (SignalRow D P) SignalKey) where
  -- update_columns: not `source`
  abbrev pub set_signal_values : SignalValues D P → SignalValues D P → SignalValues D P
  set_signal_values old excluded = record excluded { source = old.source }

  -- `SignalRepository.upsert_signals`
  unfoldable pub upsert_signals :
      {F : Type 0} → List (SignalRow D P) → List (SignalRow D P) → Result F (List (SignalRow D P))
  upsert_signals = upsert_event_rows signal_key_eq eng update set_signal_values

  abbrev pub signal_filters : ℕ → ℕ → ℕ → Option ℕ → SignalRow D P → Bool
  signal_filters instrument_id start end model_run_id r =
      r.key.instrument_id == instrument_id
      && leb start r.key.event_time
      && leb r.key.event_time end
      && optionally model_run_id (λ n. r.key.model_run_id == n)

  -- `SignalRepository.get_signals_as_of`
  unfoldable pub get_signals_as_of :
      ℕ → ℕ → ℕ → ℕ → Option ℕ → List (SignalRow D P) → List (SignalRow D P)
  get_signals_as_of instrument_id start end as_of model_run_id =
      select_as_of signal_key_eq eng (λ r. r.key.event_time)
        (signal_filters instrument_id start end model_run_id) as_of
