-- ===== src/Gateway/Providers/Http.antt =====
-- packages/gateway/src/gateway/providers: what the adapters for OpenAI and Anthropic have in common,
-- over the client of the HTTP library that they are given.
use governed_agent_platform.Prelude.{
  ℕ, String, ◌<>◌, Bool, true, false, not, ◌||◌, Option, none, some, List, [], ◌∷◌, ◌==◌, leb,
  id_eq, string_eq, if◌then◌else◌, Value, Items, Fields, end, field, Payload,
}
use governed_agent_platform.Prelude.Exec.{Result, ok, raised, Exec}
use governed_agent_platform.Gateway.Types.{ProviderName, GatewayError, provider_error, other}

-- The exceptions of the client: `TimeoutException`, `HTTPStatusError` with its status, any other
-- `HTTPError`, and an exception that is none of these.
pub data HttpException : Type 0 where
  timeout_exception : HttpException
  http_status_error : ℕ → HttpException
  http_error : HttpException
  other_exception : String → HttpException

-- What the adapters use of the client and of its responses, and of the standard library: `post` with
-- a path, headers and a body, `raise_for_status`, `json`, the clock, `int((end - start) * 1000)`,
-- and `int` of a JSON value for a count, which raises where it gives no count.
pub record HttpLibrary (W R F : Type 0) : Type 0 where
  pub post : String → List (String × String) → Payload → Exec W HttpException R
  pub raise_for_status : R → Result HttpException Unit
  pub json : R → Result String Value
  pub perf_counter : W → F × W
  pub milliseconds : F → F → ℕ
  pub int_of : Value → Result String ℕ

-- `bool(api_key)`
abbrev pub has_key : Option String → Bool
has_key none = false
has_key (some key) = not (key == "")

abbrev pub key_or_empty : Option String → String
key_or_empty none = ""
key_or_empty (some key) = key

-- `d.get(key)` of a JSON object
unfoldable pub get : String → Fields → Option Value
get key end = none
get key (field k v d) = let rest = get key d in if k == key then some v else rest

abbrev pub or_default : Value → Option Value → Value
or_default v none = v
or_default v (some w) = w

-- `d.get(key, v)`
abbrev pub get_or : String → Value → Fields → Value
get_or key v d = or_default v (get key d)

-- `isinstance(value, list)`: the items, or none.
abbrev pub items_of : Value → Option Items
items_of (Value.list xs) = some xs
items_of v = none

abbrev pub is_text : Option Value → String → Bool
is_text (some (Value.str s)) t = s == t
is_text v t = false

-- The part that a text gives.
abbrev pub text_part : Option Value → List String
text_part (some (Value.str s)) = s ∷ []
text_part v = []

-- The part of a block of the type `kind`.
unfoldable pub block_part : String → Value → List String
unfolding get
block_part kind (Value.dict d) =
    if is_text (get "type" d) kind then text_part (get "text" d) else []
block_part kind v = []

-- `"".join(parts)`
unfoldable pub join : List String → String
join [] = ""
join (s ∷ ss) = s <> join ss

-- An exception that is none of the gateway's, by its name.
abbrev pub failing : {A : Type 0} → Result String A → Result GatewayError A
failing (ok a) = ok a
failing (raised e) = raised (other e)

-- The object that has a method `get`.
abbrev pub object_of : Value → Result GatewayError Fields
object_of (Value.dict d) = ok d
object_of v = raised (other "AttributeError")

-- A value as an optional text of a model, which is validated.
abbrev pub optional_text : Option Value → Result GatewayError (Option String)
optional_text none = ok none
optional_text (some Value.null) = ok none
optional_text (some (Value.str s)) = ok (some s)
optional_text (some v) = raised (other "ValidationError")

-- `status_code >= 500 or status_code == 429`
abbrev pub is_transient : ℕ → Bool
is_transient status = leb 500 status || (status == 429)

abbrev pub http_failure : ProviderName → String → String → Bool → Option ℕ → GatewayError
http_failure provider model message retryable status = provider_error (record {
  provider = provider;
  model = some model;
  message = message;
  retryable = retryable;
  status_code = status;
  error_code = none;
})

-- The `except` clauses around the call. `label` is how the messages call the provider and `show`
-- writes a number.
unfoldable pub except_http :
    (ℕ → String) → ProviderName → String → String → HttpException → GatewayError
except_http show provider label model timeout_exception =
    http_failure provider model (label <> " request timed out.") true none
except_http show provider label model (http_status_error status) =
    http_failure provider model (label <> " request failed with status " <> show status <> ".")
      (is_transient status) (some status)
except_http show provider label model http_error =
    http_failure provider model (label <> " request failed.") true none
except_http show provider label model (other_exception e) = other e

module _ {W R F : Type 0} (l : HttpLibrary W R F) where
  abbrev pub checked : Result HttpException R → Result HttpException R
  checked (raised x) = raised x
  checked (ok response) = elim (l.raise_for_status response) [
    | ok _ ↦ ok response
    | raised x ↦ raised x
  ]

  -- The body of the `try`: the call, and the check of its status.
  unfoldable pub exchange : String → List (String × String) → Payload → Exec W HttpException R
  exchange path headers body w = let (r, w') = l.post path headers body w in (checked r, w')

  -- `time.perf_counter()`
  abbrev pub counted : Exec W GatewayError F
  counted w = let (t, w') = l.perf_counter w in (ok t, w')

  -- An exception of the `try` as the adapter raises it.
  abbrev pub translated :
      (HttpException → GatewayError) → Result HttpException R → Result GatewayError R
  translated f (ok response) = ok response
  translated f (raised x) = raised (f x)

  -- The `try` with its `except` clauses.
  abbrev pub try_exchange :
      (HttpException → GatewayError) → Exec W HttpException R → Exec W GatewayError R
  try_exchange f m w = let (r, w') = m w in (translated f r, w')

  -- `int(usage.get(key, 0))`
  abbrev pub usage_count : String → Fields → Result GatewayError ℕ
  usage_count key usage = failing (l.int_of (get_or key (Value.int 0) usage))
