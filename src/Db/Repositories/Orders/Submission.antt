-- ===== src/Db/Repositories/Orders/Submission.antt =====
-- A submission that is recorded is read back under its client_order_id, with the status last set.
use toss_api.Prelude.{ℕ, Bool}
use toss_api.Db.Repositories.Orders.{PaperOrderRow, is_client_order}

module _ {D : Type 0} where
  abbrev pub order_row_id : PaperOrderRow D → ℕ
  order_row_id r = r.id

  -- UNIQUE (client_order_id)
  abbrev pub order_conflict : PaperOrderRow D → PaperOrderRow D → Bool
  order_conflict new old = is_client_order new.client_order_id old
