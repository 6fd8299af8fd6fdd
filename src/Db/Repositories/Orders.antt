-- ===== src/Db/Repositories/Orders.antt =====
-- app/db/repositories/orders.py: paper orders under their client_order_id, and broker orders under
-- their broker_order_id and source. A quantity is of a type `D` of decimals.
pub mod Submission
use toss_api.Prelude.{ℕ, String, Bool, ◌&&◌, Option, none, some, List, map, str_eq, if◌then◌else◌}
use toss_api.Action.{Result, Action, bind, ok}
use toss_api.Runtime.{JsonFields}
use toss_api.Db.Inserts.{Insert, Others, get_or_insert, scalar_one_or_none}

-- paper_orders
pub record PaperOrderRow (D : Type 0) : Type 0 where
  pub id : ℕ
  pub client_order_id : String
  pub instrument_id : ℕ
  pub side : String
  pub order_type : String
  pub quantity : D
  pub limit_price : Option D
  pub status : String
  pub submitted_at : ℕ
  pub updated_at : ℕ
  pub raw_payload : Option JsonFields

abbrev pub is_client_order : {D : Type 0} → String → PaperOrderRow D → Bool
is_client_order client_order_id r = str_eq r.client_order_id client_order_id

module _ {D : Type 0} where
  -- `PaperOrderRepository.record_submission`, on the row of its arguments with the `id` that the
  -- sequence gives next and the database's time in `submitted_at` and `updated_at`
  unfoldable pub record_submission :
      {F : Type 0}
      → Insert (PaperOrderRow D)
      → Others (PaperOrderRow D)
      → PaperOrderRow D
      → Action F (List (PaperOrderRow D)) (ℕ × Bool)
  record_submission insert others new =
      get_or_insert insert others (λ r. r.id) (is_client_order new.client_order_id) new

  unfoldable pub with_status : String → ℕ → PaperOrderRow D → PaperOrderRow D
  with_status status now r = record r { status = status; updated_at = now }

  -- `PaperOrderRepository.update_status`, at the database's time `now`
  unfoldable pub update_status :
      String → String → ℕ → List (PaperOrderRow D) → List (PaperOrderRow D)
  unfolding with_status
  update_status client_order_id status now =
      map (λ r. if is_client_order client_order_id r then with_status status now r else r)

  -- `PaperOrderRepository.get_by_client_order_id`
  unfoldable pub get_by_client_order_id :
      {F : Type 0} → String → List (PaperOrderRow D) → Result F (Option (PaperOrderRow D))
  unfolding scalar_one_or_none
  get_by_client_order_id client_order_id t = scalar_one_or_none (is_client_order client_order_id) t

-- broker_orders
pub record BrokerOrderRow (D : Type 0) : Type 0 where
  pub id : ℕ
  pub broker_order_id : String
  pub source : String
  pub client_order_id : Option String
  pub instrument_id : Option ℕ
  pub side : Option String
  pub order_type : Option String
  pub quantity : Option D
  pub limit_price : Option D
  pub status : String
  pub submitted_at : Option ℕ
  pub updated_at : ℕ
  pub raw_payload : Option JsonFields

abbrev pub is_broker_order : {D : Type 0} → String → String → BrokerOrderRow D → Bool
is_broker_order broker_order_id source r =
    str_eq r.broker_order_id broker_order_id && str_eq r.source source

-- `BrokerOrderRepository.record_order`, on the row of its arguments
unfoldable pub record_order :
    {F D : Type 0}
    → Insert (BrokerOrderRow D)
    → Others (BrokerOrderRow D)
    → BrokerOrderRow D
    → Action F (List (BrokerOrderRow D)) (ℕ × Bool)
record_order insert others new =
    get_or_insert insert others (λ r. r.id) (is_broker_order new.broker_order_id new.source) new
