-- ===== src/Toss/Gateways/ReadOnly.antt =====
-- No call of an adapter can place, change or cancel an order.
use Prim.Native.String.{◌++◌}
use toss_api.Prelude.{String, ◌≡◌, Bool, Option, none, some, List, true, ◌&&◌}
use toss_api.Prelude.Int.{ℤ, leb_ℤ}
use toss_api.Exceptions.{plain, config_error}
use toss_api.Action.{Result, err, Action, from_result, ◌>>=◌, >>=-err}
use toss_api.Numeric.{Numeric}
use toss_api.Runtime.{Environment}
use toss_api.World.{RateLimitGroup, World}
use toss_api.Growth.{AddsInWorld, Adds-bind, Adds-if, Adds-raise, Adds-from_result}
use toss_api.Toss.Client.{ClientConfig, TossResponseEnvelope, get_envelope}
use toss_api.Toss.Client.ReadOnly.{IsAllowed, get_envelope-IsAllowed}
use toss_api.Toss.Client.Answers.{get_envelope-no_account}
use toss_api.Toss.Gateways.{
  Readers, CandleInterval, min_candle_count, max_candle_count, get_price, get_orderbook, get_trades,
  unparsed_of, get_candles, get_unparsed, get_price_limits, get_stocks, get_accounts, get_holdings,
  get_orders, get_order, get_buying_power, get_sellable_quantity, get_commissions,
}

-- The public methods of the two adapters, with their arguments.
pub data Call : Type 0 where
  price orderbook trades price_limits : String → Call
  candles : String → CandleInterval → ℤ → Option String → Call
  stocks : List (String × String) → Call
  accounts holdings : Call
  orders buying_power commissions : List (String × String) → Call
  order sellable_quantity : String → Call

module _ {F : Type 0} (num : Numeric F) (env : Environment F) (c : ClientConfig F) where
  -- Whatever the server answers, and however the call ends, only GETs of the path and requests for
  -- the token are sent.
  abbrev pub Reads : {A : Type 0} → String → Action F (World F) A → Type 0
  Reads path m = AddsInWorld (IsAllowed c path) m

  -- Without an account number nothing is sent, and nothing changes.
  abbrev pub NeedsAccount : {A : Type 0} → Action F (World F) A → Type 0
  NeedsAccount m = c.account_seq ≡ none → (w : World F) → m w ≡ (err (plain config_error), w)

  envelope-Reads :
      {A : Type 0} (path : String) (params : List (String × String)) (account : Bool)
      (group : RateLimitGroup) (f : TossResponseEnvelope → Result F A)
      → Reads path
          (get_envelope num env c path params account (some group) >>= λ e. from_result (f e))
  envelope-Reads path params account group f =
      Adds-bind (get_envelope num env c path params account (some group)) _
        (get_envelope-IsAllowed num env c path params account (some group))
        (λ e. Adds-from_result (f e))

  get_unparsed-NeedsAccount :
      (capture : Bool) (path : String) (params : List (String × String)) (group : RateLimitGroup)
      → NeedsAccount (get_unparsed num env c capture path params true group)
  unfolding get_unparsed
  get_unparsed-NeedsAccount capture path params group absent w =
      >>=-err (get_envelope num env c path params true (some group))
        (λ x. from_result (unparsed_of {F = F} capture x)) w (plain config_error) w
        (get_envelope-no_account num env c path params (some group) w absent)

  get_unparsed-Reads :
      (capture : Bool) (path : String) (params : List (String × String)) (account : Bool)
      (group : RateLimitGroup)
      → Reads path (get_unparsed num env c capture path params account group)
  unfolding get_unparsed
  get_unparsed-Reads capture path params account group = envelope-Reads path params account group _

  module _ {D : Type 0} (read : Readers D) (capture : Bool) where
    -- What is claimed of each call, with its path in the confirmed API.
    abbrev pub OnlyReads : Call → Type 0
    OnlyReads (price s) = Reads "/api/v1/prices" (get_price num env c read capture s)
    OnlyReads (orderbook s) = Reads "/api/v1/orderbook" (get_orderbook num env c read capture s)
    OnlyReads (trades s) = Reads "/api/v1/trades" (get_trades num env c read capture s)
    OnlyReads (candles s i n b) =
        Reads "/api/v1/candles" (get_candles num env c read capture s i n b)
    OnlyReads (price_limits s) = Reads "/api/v1/price-limits" (get_price_limits num env c capture s)
    OnlyReads (stocks ps) = Reads "/api/v1/stocks" (get_stocks num env c capture ps)
    OnlyReads accounts =
        Reads "/api/v1/accounts" (get_accounts num env c capture)
        × NeedsAccount (get_accounts num env c capture)
    OnlyReads holdings =
        Reads "/api/v1/holdings" (get_holdings num env c capture)
        × NeedsAccount (get_holdings num env c capture)
    OnlyReads (orders ps) =
        Reads "/api/v1/orders" (get_orders num env c capture ps)
        × NeedsAccount (get_orders num env c capture ps)
    OnlyReads (order id) =
        Reads ("/api/v1/orders/" ++ id) (get_order num env c capture id)
        × NeedsAccount (get_order num env c capture id)
    OnlyReads (buying_power ps) =
        Reads "/api/v1/buying-power" (get_buying_power num env c capture ps)
        × NeedsAccount (get_buying_power num env c capture ps)
    OnlyReads (sellable_quantity s) =
        Reads "/api/v1/sellable-quantity" (get_sellable_quantity num env c capture s)
        × NeedsAccount (get_sellable_quantity num env c capture s)
    OnlyReads (commissions ps) =
        Reads "/api/v1/commissions" (get_commissions num env c capture ps)
        × NeedsAccount (get_commissions num env c capture ps)

    account_call :
        (path : String) (params : List (String × String)) (group : RateLimitGroup)
        → Reads path (get_unparsed num env c capture path params true group)
          × NeedsAccount (get_unparsed num env c capture path params true group)
    account_call path params group = (
      get_unparsed-Reads capture path params true group,
      get_unparsed-NeedsAccount capture path params group,
    )

    -- However a call of an adapter goes, nothing is sent but GETs of the path of the call and
    -- requests for the token; a call of the portfolio without an account number raises ConfigError,
    -- sends nothing and changes nothing.
    pub gateways-OnlyReads : (call : Call) → OnlyReads call
    unfolding get_price get_orderbook get_trades get_candles get_price_limits get_stocks
        get_accounts get_holdings get_orders get_order get_buying_power get_sellable_quantity
        get_commissions
    gateways-OnlyReads (price s) = envelope-Reads _ _ _ _ _
    gateways-OnlyReads (orderbook s) = envelope-Reads _ _ _ _ _
    gateways-OnlyReads (trades s) = envelope-Reads _ _ _ _ _
    gateways-OnlyReads (candles s i n b) =
        Adds-if (leb_ℤ min_candle_count n && leb_ℤ n max_candle_count) _ _
          (envelope-Reads _ _ _ _ _) (Adds-raise _)
    gateways-OnlyReads (price_limits s) = get_unparsed-Reads capture _ _ _ _
    gateways-OnlyReads (stocks ps) = get_unparsed-Reads capture _ _ _ _
    gateways-OnlyReads accounts = account_call _ _ _
    gateways-OnlyReads holdings = account_call _ _ _
    gateways-OnlyReads (orders ps) = account_call _ _ _
    gateways-OnlyReads (order id) = account_call _ _ _
    gateways-OnlyReads (buying_power ps) = account_call _ _ _
    gateways-OnlyReads (sellable_quantity s) = account_call _ _ _
    gateways-OnlyReads (commissions ps) = account_call _ _ _
