-- ===== src/Runtime.antt =====
-- What the HTTP code runs in: requests, responses, clocks and sleeping, with the history of what
-- has been done. The server and the clocks are the environment's: functions of that history.
use toss_api.Prelude.{ℕ, String, Bool, Option, List}

-- A JSON value, as `json.loads` returns it.
mutual
  pub data Json : Type 0 where
    null : Json
    boolean : Bool → Json
    number : String → Json
    string : String → Json
    array : JsonItems → Json
    object : JsonFields → Json

  pub data JsonItems : Type 0 where
    nil : JsonItems
    item : Json → JsonItems → JsonItems

  pub data JsonFields : Type 0 where
    end : JsonFields
    field : String → Json → JsonFields → JsonFields

-- `json` is what `response.json()` returns, `none` where it raises `ValueError`.
pub record Response : Type 0 where
  pub status_code : ℕ
  pub retry_after : Option String
  pub content : String
  pub json : Option Json

pub data Method : Type 0 where
  get post : Method

-- `headers` and `form` hold the names and the values that the client attaches.
pub record Request : Type 0 where
  pub method : Method
  pub path : String
  pub headers : List (String × String)
  pub params : List (String × String)
  pub form : List (String × String)

-- What a call of `httpx` comes to: a response, `TimeoutException`, another `HTTPError`, or an
-- exception that is none of these.
pub data Outcome : Type 0 where
  answered : Response → Outcome
  timed_out network_error other_error : Outcome

module _ (F : Type 0) where
  pub data Event : Type 0 where
    sent : Request → Event
    slept : F → Event
    read_clock : Event

  -- newest first
  abbrev pub History : Type 0
  History = List Event

  pub record Environment : Type 0 where
    pub respond : History → Request → Outcome
    pub monotonic : History → F
    pub now : History → ℕ
