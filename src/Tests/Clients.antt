-- ===== src/Tests/Clients.antt =====
-- The theorems on the client and on the start of the processor: at the ledger of Tests/Town.antt, a
-- REST interface that serves it, and a signer whose signatures are the bytes themselves.
use ons_sawtooth.Base.Logic.{
  ℕ, ◌≡◌, ◌≢◌, refl, sym, ◌∙◌, [], ◌∷◌, ◌++◌, Option, none, some, arith, ℕ_discrete, ap,
}
use mathlib.Core.List.{Permᴰ}
use ons_sawtooth.Base.Text.{GoString, Bytes, text, GoString-discrete}
use ons_sawtooth.Base.Slice.{drop}
use ons_sawtooth.Base.Dict.{Dict, lookup}
use ons_sawtooth.Base.Outcome.{other_error, Reply, success, failure, ok}
use ons_sawtooth.Proto.State.{Gs1CodeData, gs1code_none, ServiceType}
use ons_sawtooth.Proto.Payload.{SendOnsTransactionPayload}
use ons_sawtooth.Sdk.{Sdk, fetch}
use ons_sawtooth.Address.{make_address, hexdigest, hex_encode, hex_digit, lower, namespace}
use ons_sawtooth.Address.Client.{make_address_by_gs1_code, hexdigest_by_string, client_namespace}
use ons_sawtooth.Manager.Storage.{ons_manager_address}
use ons_sawtooth.Registry.Laws.{registry}
use ons_sawtooth.Client.{make_add_record_payload}
use ons_sawtooth.Client.Command.{Opts, action_of, plan, plan_of, sends}
use ons_sawtooth.Client.Targets.{plan-writes}
use ons_sawtooth.Handler.Effect.{IsNamed}
use ons_sawtooth.Handler.Apply.{dispatch}
use ons_sawtooth.Tests.Town.{town, code_registered}
use ons_sawtooth.Tests.Ledger.{ledger-IsLawful}
use ons_sawtooth.Client.Query.{
  string_scalar, number_scalar, Value, string_value, object_value, Rest, query_gs1_code_data,
  state_url,
}
use ons_sawtooth.Client.Queries.{IsServing, query-registry}
use ons_sawtooth.Client.ServiceTypeFile.{FieldValue, string_field, other_field, collect_fields}
use ons_sawtooth.Client.FieldOrder.{fields_from, types_from, collect_fields-entries}
use ons_sawtooth.Base.Flat.{flat}
use ons_sawtooth.Tests.Ledger.{ledger, digest, padded, entries_at, fetch-ledger}
use ons_sawtooth.Tests.Wire.{gs1_code_codec}
use ons_sawtooth.Tests.Pack.{put_all, get_all, count}
use ons_sawtooth.Tests.Town.{code, milk, town_store}

abbrev unread_file : Reply (ServiceType × GoString)
unread_file = failure (other_error (text "no such file"))

abbrev opts : Opts
opts = record {
  gs1_code = code;
  service = text "svc";
  regexp = text "!^.*$!";
  flags = 117;
  record_idx = 0;
  service_type_address = [];
  state = 1;
  manager_address = [];
  op = 1;
}

abbrev added : SendOnsTransactionPayload
added = make_add_record_payload code 117 (text "svc") (text "!^.*$!")

plans_to_add :
    plan digest unread_file (text "root") opts (text "add" ∷ [])
    ≡ sends added (make_address_by_gs1_code digest code)
unfolding plan plan_of action_of GoString-discrete ℕ_discrete
plans_to_add = refl

found_parts : {A : Type 0} {x y : A} → ok (some x) ≡ ok (some y) → x ≡ y
found_parts e = cc

apart_from_managers : make_address_by_gs1_code digest code ≢ ons_manager_address ledger
unfolding make_address_by_gs1_code ons_manager_address namespace hexdigest hex_encode hex_digit
    lower padded hexdigest_by_string client_namespace
apart_from_managers e = ground arith

milk_named : IsNamed ledger town_store code
milk_named m known = ap (λ d. d.gs1_code) (found_parts (sym known ∙ code_registered))

-- Eve's record is added or refused: the managers' address is as it was.
plan-writes_example :
    fetch ledger
      (ons_manager_address ledger)
      (dispatch ledger added.transaction_type added (text "eve") town).1.store
    ≡ fetch ledger (ons_manager_address ledger) town_store
plan-writes_example =
    plan-writes ledger ledger-IsLawful unread_file (text "root") (text "eve") opts town
      (text "add" ∷ []) added (make_address_by_gs1_code digest code) (ons_manager_address ledger)
      plans_to_add tt (λ e. cc) milk_named apart_from_managers

abbrev empty_message : Gs1CodeData
empty_message = record { gs1_code = []; owner_id = []; records = none; state = gs1code_none }

-- No bytes are the message without any field.
abbrev unmarshal_fields : Bytes → Reply Gs1CodeData
unmarshal_fields [] = success empty_message
unmarshal_fields (b ∷ bs) = gs1_code_codec.unmarshal (b ∷ bs)

abbrev served_ledger : Sdk
served_ledger = record ledger {
  gs1_code_codec = record { marshal = gs1_code_codec.marshal; unmarshal = unmarshal_fields };
}

abbrev not_found : Dict Value
not_found =
    (
      text "error",
      object_value (
          (text "title", string_scalar (text "State Not Found"))
          ∷ (text "message", string_scalar (text "There is no state data"))
          ∷ (text "code", number_scalar 75)
          ∷ []),
    )
    ∷ []

abbrev answer : Option Bytes → Dict Value
answer none = not_found
answer (some []) = not_found
answer (some (b ∷ bs)) = (text "data", string_value (b ∷ bs)) ∷ []

-- The interface at the URL "u", whose answers are made of the requests.
abbrev rest : Rest
rest = record {
  Response = GoString;
  http_get = success;
  read_all = success;
  unmarshal_json = λ url. success (answer (lookup (drop 8 url) town_store));
  decode_base64 = success;
}

found_bytes :
    (o : Option Bytes) (b : ℕ) (bs : Bytes)
    → ◌≡◌ {A = Reply Bytes} (success (elim o [ none ↦ [] | some v ↦ v ])) (success (b ∷ bs))
    → o ≡ some (b ∷ bs)
found_bytes none b bs e = absurd (ground arith)
found_bytes (some v) b bs e = ground arith

missing_bytes :
    (o : Option Bytes)
    → ◌≡◌ {A = Reply Bytes} (success (elim o [ none ↦ [] | some v ↦ v ])) (success [])
    → answer o ≡ not_found
missing_bytes none e = refl
missing_bytes (some []) e = refl
missing_bytes (some (x ∷ xs)) e = absurd (ground arith)

rest-IsServing : IsServing served_ledger rest (text "u") town_store
unfolding fetch lookup GoString-discrete ℕ_discrete
rest-IsServing = record {
  served = λ address b bs e.
      let there =
        found_bytes (lookup address town_store) b bs (sym (fetch-ledger address town_store) ∙ e) in
      (
        answer (some (b ∷ bs)),
        b ∷ bs,
        record {
          response = state_url rest (text "u") address;
          body = state_url rest (text "u") address;
          got = refl;
          read = refl;
          parsed = ap (λ o. success (answer o)) there;
        },
        refl,
        refl,
        refl,
      );
  unknown = λ address e.
      let missing =
        missing_bytes (lookup address town_store) (sym (fetch-ledger address town_store) ∙ e) in
      (
        not_found,
        _,
        record {
          response = state_url rest (text "u") address;
          body = state_url rest (text "u") address;
          got = refl;
          read = refl;
          parsed = ap success missing;
        },
        refl,
        record { title = (_, refl); message = (_, refl); code = (_, refl) },
      );
}

served_milk : registry served_ledger town_store code ≡ ok (some milk)
unfolding fetch lookup entries_at GoString-discrete ℕ_discrete make_address hexdigest hex_encode
    hex_digit lower namespace ons_manager_address padded put_all get_all count
served_milk = refl

query-registry_example :
    query_gs1_code_data rest served_ledger (make_address_by_gs1_code digest code) (text "u") []
    ≡ (ok milk, [] ++ (state_url rest (text "u") (make_address digest code) ∷ []))
query-registry_example =
    query-registry served_ledger rest (text "u") code town_store (some milk) empty_message []
      rest-IsServing refl served_milk

abbrev name_field : GoString × FieldValue
name_field = (text "name", string_field (text "delivery"))

abbrev list_field : GoString × FieldValue
list_field = (text "-types-", other_field (success (text "[1]")))

collect_fields-entries_example :
    Permᴰ
      (flat fields_from (name_field ∷ list_field ∷ []))
      (collect_fields (list_field ∷ name_field ∷ []) ([], [])).0
    × Permᴰ
        (flat types_from (name_field ∷ list_field ∷ []))
        (collect_fields (list_field ∷ name_field ∷ []) ([], [])).1
collect_fields-entries_example =
    collect_fields-entries (name_field ∷ list_field ∷ []) (list_field ∷ name_field ∷ [])
      (Permᴰ.swap refl refl)
