-- ===== src/Client/ServiceTypeFile.antt =====
-- `GenerateServiceType` of the command line client (src/ons_test/sawtooth-ons-test.go), from the
-- map that `json.Unmarshal` fills. Reading the file, and the conversion of XML, are left to that
-- argument. A `range` over a map is a list of its entries, in whatever order the run time gives
-- them.
use ons_sawtooth.Base.Logic.{List, [], ◌∷◌, ◌++◌, some, eqb, if◌then◌else◌}
use ons_sawtooth.Base.Text.{GoString, text, Bytes, ◌==◌}
use ons_sawtooth.Base.Outcome.{Reply, success, failure}
use ons_sawtooth.Proto.State.{ServiceType, ServiceTypeField}
use ons_sawtooth.Sdk.{Codec}
use ons_sawtooth.Address.Client.{make_address_by_service_type}

-- A value of a field: a string, or anything else with what `json.Marshal` makes of it.
pub data FieldValue : Type 0 where
  string_field : GoString → FieldValue
  other_field : Reply GoString → FieldValue

pub data TopValue : Type 0 where
  object_top : List (GoString × FieldValue) → TopValue
  other_top : TopValue

-- `strings.Trim(key, "-")`
abbrev pub trim_left : GoString → GoString
trim_left [] = []
trim_left (c ∷ cs) = let rest = trim_left cs in if eqb c 45 then rest else c ∷ cs

-- A dash at the end goes when nothing else follows it.
abbrev pub trim_right : GoString → GoString
trim_right [] = []
trim_right (c ∷ cs) =
    let rest = trim_right cs in
    elim rest [ [] ↦ (if eqb c 45 then [] else c ∷ []) | d ∷ ds ↦ c ∷ d ∷ ds ]

unfoldable pub trim_dashes : GoString → GoString
trim_dashes key = trim_right (trim_left key)

-- `tr_fields` and `tr_types`.
abbrev pub Collected : Type 0
Collected = List ServiceTypeField × List ServiceTypeField

abbrev pub field : GoString → GoString → ServiceTypeField
field key value = record { key = trim_dashes key; value = value }

abbrev pub add_field : GoString × FieldValue → Collected → Collected
add_field (key, string_field value) (fields, types) = (fields ++ (field key value ∷ []), types)
add_field (key, other_field (success json)) (fields, types) =
    (fields ++ (field key json ∷ []), types ++ (field key (text "json") ∷ []))
add_field (key, other_field (failure e)) (fields, types) = (fields, types)

unfoldable pub collect_fields : List (GoString × FieldValue) → Collected → Collected
collect_fields [] c = c
collect_fields (entry ∷ entries) c = collect_fields entries (add_field entry c)

abbrev pub collect_top : GoString → TopValue → Collected → Collected
collect_top key other_top c = c
collect_top key (object_top entries) c =
    if key == text "ServiceType" then collect_fields entries c else c

unfoldable pub collect_all : List (GoString × TopValue) → Collected → Collected
collect_all [] c = c
collect_all ((key, value) ∷ rest) c = collect_all rest (collect_top key value c)

-- `svc_type` before its address and provider are set.
abbrev pub unaddressed : Collected → ServiceType
unaddressed (fields, types) = record {
  address = [];
  fields = some fields;
  types = some types;
  provider = [];
}

unfoldable pub generate_service_type :
    (Bytes → Bytes)
    → Codec ServiceType
    → Reply (List (GoString × TopValue))
    → GoString
    → Reply (ServiceType × GoString)
generate_service_type sha512 codec (failure e) requestor = failure e
generate_service_type sha512 codec (success fields) requestor =
    let svc_type = unaddressed (collect_all fields ([], [])) in
    elim (make_address_by_service_type sha512 codec requestor (some svc_type)) [
      | failure e ↦ failure e
      | success address ↦
          success (record svc_type { address = address; provider = requestor }, address)
    ]
