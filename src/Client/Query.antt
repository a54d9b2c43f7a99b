-- ===== src/Client/Query.antt =====
-- The query client, src/ons_test/ons_query/query.go: the answers of the REST interface, and the three
-- queries. What is printed is left out; HTTP, the JSON decoder and base64 are a parameter.
use ons_sawtooth.Base.Logic.{ℕ, List, [], ◌∷◌, ◌++◌, Option, none, some}
use ons_sawtooth.Base.Text.{GoString, text, Bytes}
use ons_sawtooth.Base.Dict.{Dict, lookup}
use ons_sawtooth.Base.Outcome.{Reply, Action, pure, crash, modify, or_return, ◌>>=◌, ◌>>◌}
use ons_sawtooth.Proto.State.{Gs1CodeData, ServiceType, OnsManager}
use ons_sawtooth.Sdk.{Sdk, Codec}

-- JSON values, as deep as the client looks at them.
pub data Scalar : Type 0 where
  string_scalar : GoString → Scalar
  number_scalar : ℕ → Scalar
  other_scalar : Scalar

pub data Value : Type 0 where
  nil : Value
  string_value : GoString → Value
  object_value : Dict Scalar → Value
  other_value : Value

pub record Rest : Type 1 where
  pub Response : Type 0
  -- `http.Get`, `ioutil.ReadAll` of the body, and `json.Unmarshal` into a map
  pub http_get : GoString → Reply Response
  pub read_all : Response → Reply Bytes
  pub unmarshal_json : Bytes → Reply (Dict Value)
  -- `base64.StdEncoding.DecodeString`
  pub decode_base64 : GoString → Reply Bytes

-- A query, with the URLs that have been asked for.
abbrev pub Query : Type 0 → Type 0
Query = Action (List GoString)

abbrev pub asserted_string : Option Scalar → Query GoString
asserted_string none = crash
asserted_string (some (string_scalar s)) = pure s
asserted_string (some (number_scalar n)) = crash
asserted_string (some other_scalar) = crash

abbrev pub asserted_number : Option Scalar → Query ℕ
asserted_number none = crash
asserted_number (some (string_scalar s)) = crash
asserted_number (some (number_scalar n)) = pure n
asserted_number (some other_scalar) = crash

-- The error is printed, and no error is returned: `return nil, nil`.
abbrev pub reported : Dict Scalar → Query Bytes
reported fields = do
  title ← asserted_string (lookup (text "title") fields)
  message ← asserted_string (lookup (text "message") fields)
  code ← asserted_number (lookup (text "code") fields)
  pure []

module _ (rest : Rest) where
  abbrev pub decoded_data : Option Value → Query Bytes
  decoded_data (some (string_value s)) = or_return (rest.decode_base64 s)
  decoded_data (some nil) = crash
  decoded_data (some (object_value fields)) = crash
  decoded_data (some other_value) = crash
  decoded_data none = crash

  -- `json_data["error"] != nil`
  abbrev pub raw_data_of : Dict Value → Option Value → Query Bytes
  raw_data_of json none = decoded_data (lookup (text "data") json)
  raw_data_of json (some nil) = decoded_data (lookup (text "data") json)
  raw_data_of json (some (object_value fields)) = reported fields
  raw_data_of json (some (string_value s)) = crash
  raw_data_of json (some other_value) = crash

  abbrev pub state_url : GoString → GoString → GoString
  state_url url address = url ++ (text "/state/" ++ address)

  unfoldable pub get_raw_data : GoString → GoString → Query Bytes
  get_raw_data address url = do
    modify (λ asked. asked ++ (state_url url address ∷ []))
    resp ← or_return (rest.http_get (state_url url address))
    body ← or_return (rest.read_all resp)
    json ← or_return (rest.unmarshal_json body)
    raw_data_of json (lookup (text "error") json)

  abbrev queried : {A : Type 0} → Codec A → GoString → GoString → Query A
  queried codec address url = do
    pb2_data ← get_raw_data address url
    or_return (codec.unmarshal pb2_data)

  unfoldable pub query_gs1_code_data : Sdk → GoString → GoString → Query Gs1CodeData
  unfolding get_raw_data
  query_gs1_code_data sdk = queried sdk.gs1_code_codec

  unfoldable pub query_service_type_data : Sdk → GoString → GoString → Query ServiceType
  unfolding get_raw_data
  query_service_type_data sdk = queried sdk.service_type_codec

  unfoldable pub query_ons_manager : Sdk → GoString → GoString → Query OnsManager
  unfolding get_raw_data
  query_ons_manager sdk = queried sdk.ons_manager_codec
