-- ===== src/RetryPolicy.antt =====
-- Which failures of outbox work are retried: `is_transient_failure` of services/retry_policy.py. An
-- exception is known by its `id`, and a cause chain may be a cycle.
pub mod Chain
use agents_system.Prelude.{
  ℕ, zero, suc, ◌==◌, nat_eq, string_eq, Bool, true, false, ◌||◌, Option, none, some, String, List,
  [], ◌∷◌, if◌then◌else◌, leb, any, contains,
}
use agents_system.Dict
use agents_system.Dict.{Dict}

abbrev provider_names : List String
provider_names =
    "APITimeoutError" ∷ "APIConnectionError" ∷ "RateLimitError" ∷ "InternalServerError" ∷ []

abbrev http_names : List String
http_names =
    "TransportError" ∷ "TimeoutException" ∷ "ConnectTimeout" ∷ "ReadTimeout" ∷ "WriteTimeout"
    ∷ "PoolTimeout" ∷ "NetworkError" ∷ "ConnectError" ∷ "ReadError" ∷ "WriteError" ∷ "CloseError"
    ∷ "RemoteProtocolError" ∷ "ProxyError" ∷ []

abbrev pub transient_by_library : Dict String (List String)
transient_by_library =
    ("httpx", http_names)
    ∷ ("openai", provider_names)
    ∷ ("anthropic", provider_names)
    ∷ ("groq", provider_names)
    ∷ (
      "sqlalchemy",
      "OperationalError" ∷ "InterfaceError" ∷ "DisconnectionError" ∷ "TimeoutError" ∷ [],
    )
    ∷ (
      "asyncpg",
      "PostgresConnectionError" ∷ "ConnectionDoesNotExistError" ∷ "ConnectionFailureError"
          ∷ "CannotConnectNowError" ∷ "TooManyConnectionsError" ∷ "InterfaceError" ∷ [],
    )
    ∷ ("psycopg", "OperationalError" ∷ "InterfaceError" ∷ [])
    ∷ ("psycopg2", "OperationalError" ∷ "InterfaceError" ∷ [])
    ∷ ("redis", "ConnectionError" ∷ "TimeoutError" ∷ "BusyLoadingError" ∷ "ClusterDownError" ∷ [])
    ∷ ("httpcore", http_names)
    ∷ []

-- What the classification reads of an exception: whether it is a `TimeoutError` or a
-- `ConnectionError`, its HTTP status, the library and the name of each class of its `__mro__`, and the
-- id of its `__cause__`.
pub record Failure : Type 0 where
  pub is_network : Bool
  pub status_code : Option ℕ
  pub classes : List (String × String)
  pub cause : Option ℕ

unfoldable pub names_of : String → List String
names_of library = elim (Dict.get library transient_by_library) [ some names ↦ names | none ↦ [] ]

unfoldable pub transient_by_name : Failure → Bool
unfolding names_of
transient_by_name f = any (λ c. contains c.1 (names_of c.0)) f.classes

unfoldable pub is_transient_one : Failure → Bool
unfolding transient_by_name
is_transient_one f = if f.is_network then true else elim f.status_code [
  | some status ↦ status == 408 || status == 429 || leb 500 status
  | none ↦ transient_by_name f
]

-- the loop: how many rounds are left, `seen`, and `current`
unfoldable pub search : (ℕ → Failure) → ℕ → List ℕ → Option ℕ → Bool
search heap zero seen current = false
search heap (suc left) seen none = false
search heap (suc left) seen (some id) =
    let rest = search heap left (id ∷ seen) (heap id).cause in
    if contains id seen then false else if is_transient_one (heap id) then true else rest

abbrev pub max_cause_depth : ℕ
max_cause_depth = 8

unfoldable pub is_transient_failure : (ℕ → Failure) → ℕ → Bool
unfolding search
is_transient_failure heap id = search heap max_cause_depth [] (some id)
