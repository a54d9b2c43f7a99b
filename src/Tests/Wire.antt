-- ===== src/Tests/Wire.antt =====
-- Concrete codecs of the messages that the ledger stores.
use ons_sawtooth.Base.Logic.{ℕ, zero, suc, ◌≡◌, refl, List, [], Option, none, some, arith}
use ons_sawtooth.Base.Text.{GoString, Bytes, text}
use ons_sawtooth.Base.Slice.{Slice, elements}
use ons_sawtooth.Base.Outcome.{Reply, success, failure, other_error}
use ons_sawtooth.Proto.State.{
  RecordState, record_inactive, record_active, other_record_state, Gs1CodeState, gs1code_none,
  gs1code_inactive, gs1code_active, other_gs1_code_state, OnsGs1CodeManager, OnsManager,
  ServiceTypeField, ServiceType, Record, Gs1CodeData,
}
use ons_sawtooth.Sdk.{Codec}
use ons_sawtooth.Sdk.Laws.{
  RoundTrips, wire_slice, wire_gs1_code, wire_ons_manager, wire_service_type,
}
use ons_sawtooth.Tests.Pack.{Pack, number, both, many, packed_as}

abbrev pub string : Pack GoString
string = many number

abbrev pub record_state_code : RecordState → ℕ × ℕ
record_state_code record_inactive = (0, 0)
record_state_code record_active = (1, 0)
record_state_code (other_record_state n) = (2, n)

abbrev pub record_state_back : ℕ × ℕ → RecordState
record_state_back (zero, n) = record_inactive
record_state_back (suc zero, n) = record_active
record_state_back (_, n) = other_record_state n

pub record_state_back-code : (s : RecordState) → record_state_back (record_state_code s) ≡ s
record_state_back-code record_inactive = refl
record_state_back-code record_active = refl
record_state_back-code (other_record_state n) = refl

abbrev pub gs1_code_state_code : Gs1CodeState → ℕ × ℕ
gs1_code_state_code gs1code_none = (0, 0)
gs1_code_state_code gs1code_inactive = (1, 0)
gs1_code_state_code gs1code_active = (2, 0)
gs1_code_state_code (other_gs1_code_state n) = (3, n)

abbrev pub gs1_code_state_back : ℕ × ℕ → Gs1CodeState
gs1_code_state_back (zero, n) = gs1code_none
gs1_code_state_back (suc zero, n) = gs1code_inactive
gs1_code_state_back (suc (suc zero), n) = gs1code_active
gs1_code_state_back (_, n) = other_gs1_code_state n

pub gs1_code_state_back-code : (s : Gs1CodeState) → gs1_code_state_back (gs1_code_state_code s) ≡ s
gs1_code_state_back-code gs1code_none = refl
gs1_code_state_back-code gs1code_inactive = refl
gs1_code_state_back-code gs1code_active = refl
gs1_code_state_back-code (other_gs1_code_state n) = refl

abbrev pub record_state : Pack RecordState
record_state =
    packed_as (both number number) record_state_code record_state_back record_state_back-code

abbrev pub gs1_code_state : Pack Gs1CodeState
gs1_code_state =
    packed_as (both number number) gs1_code_state_code gs1_code_state_back gs1_code_state_back-code

abbrev pub resource_record : Pack Record
resource_record =
    packed_as (both number (both string (both string (both record_state string))))
      (λ r. (r.flags, (r.service, (r.regexp, (r.state, r.provider)))))
      (λ t. record {
        flags = t.0;
        service = t.1.0;
        regexp = t.1.1.0;
        state = t.1.1.1.0;
        provider = t.1.1.1.1;
      })
      (λ r. refl)

abbrev pub manager : Pack OnsGs1CodeManager
manager =
    packed_as (both string string) (λ m. (m.gs1_code, m.address))
      (λ t. record { gs1_code = t.0; address = t.1 }) (λ m. refl)

abbrev pub field : Pack ServiceTypeField
field =
    packed_as (both string string) (λ m. (m.key, m.value)) (λ t. record { key = t.0; value = t.1 })
      (λ m. refl)

wire_slice-elements : {A : Type 0} (s : Slice A) → wire_slice (some (elements s)) ≡ wire_slice s
wire_slice-elements none = refl
wire_slice-elements (some xs) = refl

module _ {A B : Type 0} (p : Pack A) (of : B → A) (back : A → B) where
  abbrev pub decode : Bytes → Reply B
  decode b = elim (p.get b) [
    | none ↦ failure (other_error (text "proto: malformed"))
    | some x ↦ success (back x.0)
  ]

  abbrev pub encode : Option B → Reply Bytes
  encode none = failure (other_error (text "proto: Marshal called with nil"))
  encode (some m) = success (p.put (of m) [])

  abbrev pub codec : Codec B
  codec = record { marshal = encode; unmarshal = decode }

  pub codec-RoundTrips : (wire : B → B) → ((m : B) → back (of m) ≡ wire m) → RoundTrips wire codec
  codec-RoundTrips wire back-of m b marshalled = ground (arith, p.get-put (of m) [], back-of m)

abbrev pub gs1_code_pack : Pack (GoString × (GoString × (List Record × Gs1CodeState)))
gs1_code_pack = both string (both string (both (many resource_record) gs1_code_state))

abbrev pub gs1_code_parts : Gs1CodeData → GoString × (GoString × (List Record × Gs1CodeState))
gs1_code_parts m = (m.gs1_code, (m.owner_id, (elements m.records, m.state)))

abbrev pub gs1_code_back : GoString × (GoString × (List Record × Gs1CodeState)) → Gs1CodeData
gs1_code_back t = record {
  gs1_code = t.0;
  owner_id = t.1.0;
  records = wire_slice (some t.1.1.0);
  state = t.1.1.1;
}

abbrev pub gs1_code_codec : Codec Gs1CodeData
gs1_code_codec = codec gs1_code_pack gs1_code_parts gs1_code_back

pub gs1_code_codec-RoundTrips : RoundTrips wire_gs1_code gs1_code_codec
gs1_code_codec-RoundTrips =
    codec-RoundTrips gs1_code_pack gs1_code_parts gs1_code_back wire_gs1_code
      (λ m. rw (wire_slice-elements m.records) refl)

abbrev pub ons_manager_pack : Pack (List OnsGs1CodeManager × List OnsGs1CodeManager)
ons_manager_pack = both (many manager) (many manager)

abbrev pub ons_manager_parts : OnsManager → List OnsGs1CodeManager × List OnsGs1CodeManager
ons_manager_parts m = (elements m.su_addresses, elements m.manager_addresses)

abbrev pub ons_manager_back : List OnsGs1CodeManager × List OnsGs1CodeManager → OnsManager
ons_manager_back t = record {
  su_addresses = wire_slice (some t.0);
  manager_addresses = wire_slice (some t.1);
}

abbrev pub ons_manager_codec : Codec OnsManager
ons_manager_codec = codec ons_manager_pack ons_manager_parts ons_manager_back

pub ons_manager_codec-RoundTrips : RoundTrips wire_ons_manager ons_manager_codec
ons_manager_codec-RoundTrips =
    codec-RoundTrips ons_manager_pack ons_manager_parts ons_manager_back wire_ons_manager
      (λ m. rw (wire_slice-elements m.su_addresses, wire_slice-elements m.manager_addresses) refl)

abbrev pub ServiceTypeParts : Type 0
ServiceTypeParts = GoString × (List ServiceTypeField × (List ServiceTypeField × GoString))

abbrev pub service_type_pack : Pack ServiceTypeParts
service_type_pack = both string (both (many field) (both (many field) string))

abbrev pub service_type_parts : ServiceType → ServiceTypeParts
service_type_parts m = (m.address, (elements m.fields, (elements m.types, m.provider)))

abbrev pub service_type_back : ServiceTypeParts → ServiceType
service_type_back t = record {
  address = t.0;
  fields = wire_slice (some t.1.0);
  types = wire_slice (some t.1.1.0);
  provider = t.1.1.1;
}

abbrev pub service_type_codec : Codec ServiceType
service_type_codec = codec service_type_pack service_type_parts service_type_back

pub service_type_codec-RoundTrips : RoundTrips wire_service_type service_type_codec
service_type_codec-RoundTrips =
    codec-RoundTrips service_type_pack service_type_parts service_type_back wire_service_type
      (λ m. rw (wire_slice-elements m.fields, wire_slice-elements m.types) refl)
