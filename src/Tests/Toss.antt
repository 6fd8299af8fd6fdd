-- ===== src/Tests/Toss.antt =====
-- app/toss, run on integers: a server that refuses the first token, and a cached token that is new.
use toss_api.Prelude.{
  ℕ, ◌≡◌, ◌≢◌, ◌&&◌, ◌↔◌, ◌≤◌, ◌<◌, ◌+◌, ◌-◌, refl, true, false, none, some, [], ◌∷◌, arith, ltb,
  if◌then◌else◌,
}
use toss_api.Prelude.Int.{ℤ, pos, pos_part, neg_part, sub_ℕ, leb_ℤ, ltb_ℤ, ◌-ℤ◌, ◌+ℤ◌, div_ℤ}
use toss_api.Exceptions.{Raised, plain, value_error}
use toss_api.Action.{ok, err}
use toss_api.Numeric.{integers}
use toss_api.Toss.Dto.{CandleSeries}
use toss_api.Runtime.{
  Json, JsonFields, string, array, object, nil, item, end, field, null, Response, answered, History,
  Environment, sent, slept, read_clock,
}
use toss_api.World.{World, RateLimitGroup, stock, AccessToken, GroupThrottle}
use toss_api.Growth.{AddsInWorld}
use toss_api.Http.{RetryPolicy}
use toss_api.Http.Retry.{requests_sent}
use toss_api.Toss.Status.{raise_for_status}
use toss_api.Toss.Status.Mapping.{raise_for_status-err, IsMapped}
use toss_api.Toss.StatusRetry.{send_with_status_retry}
use toss_api.Toss.StatusRetry.Bounds.{Bounded, send_with_status_retry-Bounded}
use toss_api.Toss.Throttle.{wait, put}
use toss_api.Toss.Throttle.Spacing.{IsExact, IsMonotonic, wait-spaced}
use toss_api.Toss.Auth.{OAuthConfig, get_valid_token}
use toss_api.Toss.Auth.Cache.{Caches, get_valid_token-Caches}
use toss_api.Toss.Client.{ClientConfig, get_envelope}
use toss_api.Toss.Client.ReadOnly.{IsAllowed, get_envelope-IsAllowed}
use toss_api.Toss.Gateways.{Readers, one_day, get_candles, min_candle_count, max_candle_count}
use toss_api.Toss.Gateways.ReadOnly.{accounts, OnlyReads, gateways-OnlyReads}
use toss_api.Toss.Gateways.Conversions.{Answers, get_candles-IsSeries}
use toss_api.Tests.Http.{ping, answer}

abbrev with_json : ℕ → Response
with_json status = record {
  status_code = status;
  retry_after = some "7";
  content = "";
  json = some null;
}

-- 401 for the first request, the token for a POST, else 200.
abbrev server : Environment ℤ
server = record {
  respond =
      λ h r. if ltb (requests_sent h) 1 then answered (with_json 401) else answered (with_json 200);
  monotonic = λ h. pos 0;
  now = λ h. 5;
}

abbrev policy : RetryPolicy ℤ
policy = record {
  max_retries = 1;
  backoff_base_seconds = pos 1;
  backoff_multiplier = pos 2;
  retry_status_codes = [];
}

abbrev oauth : OAuthConfig ℤ
oauth = record {
  client_id = "id";
  client_secret = "secret";
  retries = policy;
  http = policy;
  expiry_leeway = 10;
  token_parser = λ body. ok (record { access_token = "new"; expires_in = pos 3600 });
}

abbrev pub client : ClientConfig ℤ
client = record { oauth = oauth; account_seq = none; retries = policy; http = policy }

abbrev no_limit : GroupThrottle ℤ
no_limit = record { tps = λ g. pos 0; last_call_at = λ g. none }

abbrev token : ℕ → AccessToken
token expires_at = record { value = "old"; expires_at = expires_at }

abbrev pub world : ℕ → World ℤ
world expires_at = record {
  history = [];
  cached_token = some (token expires_at);
  auth_throttle = no_limit;
  throttle = no_limit;
}

send_with_status_retry-Bounded_example :
    Bounded integers server policy policy ping 2 []
      (send_with_status_retry integers server policy policy ping [])
send_with_status_retry-Bounded_example =
    send_with_status_retry-Bounded integers server policy policy ping []

get_valid_token-Caches_example :
    Caches (world 12) (get_valid_token integers server oauth (world 12))
get_valid_token-Caches_example = get_valid_token-Caches integers server oauth (world 12)

get_envelope-IsAllowed_example :
    AddsInWorld
      (IsAllowed client "/ping")
      (get_envelope integers server client "/ping" [] false (some stock))
get_envelope-IsAllowed_example =
    get_envelope-IsAllowed integers server client "/ping" [] false (some stock)

raise_for_status-err_example :
    ((200 ≤ 429) × (429 < 300) → raise_for_status integers (with_json 429) ≡ ok tt)
    × (¬ ((200 ≤ 429) × (429 < 300))
        → (e : Raised ℤ) × (raise_for_status integers (with_json 429) ≡ err e)
          × IsMapped integers (with_json 429) e)
raise_for_status-err_example = raise_for_status-err integers (with_json 429)

-- A clock that a sleep puts on by its delay.
abbrev elapsed : History ℤ → ℕ
elapsed [] = 0
elapsed (slept d ∷ h) = elapsed h + pos_part d
elapsed (sent r ∷ h) = elapsed h
elapsed (read_clock ∷ h) = elapsed h

abbrev steady : Environment ℤ
steady = record {
  respond = λ h r. answered (answer 200);
  monotonic = λ h. pos (elapsed h);
  now = λ h. 0;
}

sub_ℕ-parts : (a b : ℕ) → (pos_part (sub_ℕ a b) ≡ a - b) × (neg_part (sub_ℕ a b) ≡ b - a)
sub_ℕ-parts a b = (ground arith, ground arith)

leb_ℤ-iff : (a b : ℤ) → (leb_ℤ a b ≡ true) ↔ (pos_part a + neg_part b ≤ pos_part b + neg_part a)
leb_ℤ-iff a b = (λ h. ground arith, λ h. ground arith)

exact_reached : (i e : ℤ) → ltb_ℤ (pos 0) (i -ℤ e) ≡ false → leb_ℤ i e ≡ true
unfolding ◌-ℤ◌
exact_reached i e h =
    let d = sub_ℕ-parts (pos_part i + neg_part e) (neg_part i + pos_part e) in ground (arith, h, d)

integers-IsExact : IsExact integers
unfolding ◌-ℤ◌ ◌+ℤ◌
integers-IsExact = record {
  reached = exact_reached;
  sub_mono = λ i x y z h k.
      let d = sub_ℕ-parts (pos_part y + neg_part x) (neg_part y + pos_part x) in
      let d' = sub_ℕ-parts (pos_part z + neg_part x) (neg_part z + pos_part x) in
      let h' = (leb_ℤ-iff i (y -ℤ x)).0 h in
      let k' = (leb_ℤ-iff y z).0 k in
      (leb_ℤ-iff i (z -ℤ x)).1 (omega (arith, h', k', d.0, d.1, d'.0, d'.1));
  fill = λ i x y z h.
      let d = sub_ℕ-parts (pos_part y + neg_part x) (neg_part y + pos_part x) in
      let w = y -ℤ x in
      let v = i -ℤ w in
      let d' = sub_ℕ-parts (pos_part i + neg_part w) (neg_part i + pos_part w) in
      let d'' = sub_ℕ-parts (pos_part y + pos_part v) (neg_part y + neg_part v) in
      let z' = sub_ℕ-parts (pos_part z + neg_part x) (neg_part z + pos_part x) in
      let h' = (leb_ℤ-iff (y +ℤ v) z).0 h in
      (leb_ℤ-iff i (z -ℤ x)).1 (omega (arith, h', d.0, d.1, d'.0, d'.1, d''.0, d''.1, z'.0, z'.1));
}

steady-IsMonotonic : IsMonotonic integers steady
unfolding ◌+ℤ◌
steady-IsMonotonic = record { ticks = λ h. ground arith; sleeps = λ h d. ground arith }

abbrev paced : GroupThrottle ℤ
paced = record { tps = λ g. pos 1; last_call_at = λ g. some (pos 0) }

abbrev paced_after : GroupThrottle ℤ
paced_after = record {
  tps = λ g. pos 1;
  last_call_at = put paced.last_call_at stock (some (pos 1));
}

wait-spaced_example :
    (now : ℤ) × (paced_after.last_call_at stock ≡ some now)
    × (integers.leb (integers.div (integers.of_ℕ 1) (paced.tps stock)) (integers.sub now (pos 0))
        ≡ true)
    × ((g' : RateLimitGroup) → stock ≢ g' → paced_after.last_call_at g' ≡ paced.last_call_at g')
unfolding wait ◌-ℤ◌ ◌+ℤ◌ div_ℤ
wait-spaced_example =
    wait-spaced integers steady stock paced paced_after [] (pos 0) integers-IsExact
      steady-IsMonotonic refl refl refl

-- Every price is read as 7, every time as 3.
abbrev pub readers : Readers ℤ
readers = record {
  decimal = λ text. some (pos 7);
  fromisoformat = λ text. some (some 3);
  show = λ n. "200";
}

gateways-OnlyReads_example : OnlyReads integers server client readers true accounts
gateways-OnlyReads_example = gateways-OnlyReads integers server client readers true accounts

-- One candle, from the server.
abbrev candle_json : JsonFields
candle_json = field "timestamp" (string "2024-01-02T00:00:00+09:00") (
    field "openPrice" (string "7") (
      field "highPrice" (string "7") (
        field "lowPrice" (string "7") (
          field "closePrice" (string "7")
            (field "volume" (string "7") (field "currency" (string "KRW") end))))))

abbrev candles_json : Json
candles_json =
    object
      (field "result" (object (field "candles" (array (item (object candle_json) nil)) end)) end)

abbrev pub candle_server : Environment ℤ
candle_server = record server {
  respond = λ h r. answered (record (with_json 200) { json = some candles_json });
}

get_candles-IsSeries_example :
    let out =
      get_candles integers candle_server client readers false "005930" one_day
        (pos 200)
        none
        (world 100) in
    ((leb_ℤ min_candle_count (pos 200) && leb_ℤ (pos 200) max_candle_count) ≡ false
      → out ≡ (err (plain value_error), world 100))
    × ((s : CandleSeries ℤ)
        → out.0 ≡ ok s
        → Answers readers integers candle_server client false "005930" one_day
            (pos 200)
            none
            (world 100)
            s)
get_candles-IsSeries_example =
    get_candles-IsSeries readers integers candle_server client false "005930" one_day (pos 200) none
      (world 100)
