-- ===== src/Client/FieldOrder.antt =====
-- What a service type file gives, in one order of its fields and in another, and where it goes.
use mathlib.Core.List.{Permᴰ, append-nil, append_assoc}
use ons_sawtooth.Base.Logic.{◌≡◌, ◌≢◌, refl, subst, List, [], ◌∷◌, ◌++◌, some, arith, inl, inr}
use ons_sawtooth.Base.Flat.{flat, flat-perm}
use ons_sawtooth.Base.Text.{GoString, text, Bytes}
use ons_sawtooth.Base.Slice.{take}
use ons_sawtooth.Base.Outcome.{success, failure, ok, Reply-cases}
use ons_sawtooth.Proto.State.{ServiceType, ServiceTypeField}
use ons_sawtooth.Sdk.{Codec}
use ons_sawtooth.Sdk.Laws.{IsDigest}
use ons_sawtooth.Address.{hexdigest}
use ons_sawtooth.Address.Client.{make_address_by_service_type, service_type_address}
use ons_sawtooth.Sync.Table.{get_table_idx_by_address, service_type_table}
use ons_sawtooth.Sync.Routing.{service_type_routed}
use ons_sawtooth.Client.ServiceTypeFile.{
  FieldValue, string_field, other_field, TopValue, trim_dashes, add_field, collect_fields,
  collect_all, unaddressed, generate_service_type,
}

-- What one entry adds to the fields, and to the types.
abbrev pub fields_from : GoString × FieldValue → List ServiceTypeField
fields_from (key, string_field value) = record { key = trim_dashes key; value = value } ∷ []
fields_from (key, other_field (success json)) = record { key = trim_dashes key; value = json } ∷ []
fields_from (key, other_field (failure e)) = []

abbrev pub types_from : GoString × FieldValue → List ServiceTypeField
types_from (key, string_field value) = []
types_from (key, other_field (success json)) =
    record { key = trim_dashes key; value = text "json" } ∷ []
types_from (key, other_field (failure e)) = []

add_field-adds :
    (entry : GoString × FieldValue) (c : List ServiceTypeField × List ServiceTypeField)
    → add_field entry c ≡ (c.0 ++ fields_from entry, c.1 ++ types_from entry)
add_field-adds (key, string_field value) (fields, types) = rw (append-nil types) refl
add_field-adds (key, other_field (success json)) (fields, types) = refl
add_field-adds (key, other_field (failure e)) (fields, types) =
    rw (append-nil types, append-nil fields) refl

-- The loop appends, entry by entry.
collect_fields-flat :
    (entries : List (GoString × FieldValue)) (c : List ServiceTypeField × List ServiceTypeField)
    → collect_fields entries c ≡ (c.0 ++ flat fields_from entries, c.1 ++ flat types_from entries)
unfolding collect_fields
collect_fields-flat [] c = rw (append-nil c.0, append-nil c.1) refl
collect_fields-flat (entry ∷ entries) c =
    rw
      (
        collect_fields-flat entries (add_field entry c),
        add_field-adds entry c,
        append_assoc c.0 (fields_from entry) (flat fields_from entries),
        append_assoc c.1 (types_from entry) (flat types_from entries),
      )
      refl

-- In whatever order the run time ranges over the entries of a service type's object, the fields
-- collected are, up to order, one for each string entry, with its value, and one for each entry
-- that marshals, with its JSON, under the entry's key without its outer dashes; the types collected
-- are, up to order, "json" under the key of each entry that is not a string and marshals.
pub collect_fields-entries :
    (entries others : List (GoString × FieldValue))
    → Permᴰ entries others
    → Permᴰ (flat fields_from entries) (collect_fields others ([], [])).0
      × Permᴰ (flat types_from entries) (collect_fields others ([], [])).1
collect_fields-entries entries others order =
    rw (collect_fields-flat others ([], []))
      (flat-perm fields_from entries others order, flat-perm types_from entries others order)

-- With a digest of 64 bytes whose digits of "service-type" and "gs1" differ, a service type that is
-- generated bears the address it is sent for and its sender, that address is the one of its content
-- before the two were set, and it goes to the mirror's table of service types.
pub generated_routed :
    (sha512 : Bytes → Bytes) (codec : Codec ServiceType) (file : List (GoString × TopValue))
    (requestor address : GoString) (s : ServiceType)
    → IsDigest sha512
    → take 8 (hexdigest sha512 (text "service-type")) ≢ take 8 (hexdigest sha512 (text "gs1"))
    → generate_service_type sha512 codec (success file) requestor ≡ success (s, address)
    → (s.address ≡ address)
      × (s.provider ≡ requestor)
      × (make_address_by_service_type sha512 codec requestor
            (some (record s { address = []; provider = [] }))
          ≡ success address)
      × (get_table_idx_by_address sha512 address ≡ ok service_type_table)
unfolding generate_service_type make_address_by_service_type
generated_routed sha512 codec file requestor address s digest differ e =
    let blank = unaddressed (collect_all file ([], [])) in
    elim (Reply-cases (codec.marshal (some blank))) [
      | inr (x, failed) ↦ absurd (ground arith)
      | inl (marshaled, made) ↦
          let own = service_type_address sha512 requestor marshaled in
          let pair : ◌≡◌ {A = ServiceType × GoString}
              (record blank { address = own; provider = requestor }, own) (s, address) =
            ground arith in
          subst
            (λ q.
              (q.0.address ≡ q.1)
              × (q.0.provider ≡ requestor)
              × (make_address_by_service_type sha512 codec requestor
                    (some (record q.0 { address = []; provider = [] }))
                  ≡ success q.1)
              × (get_table_idx_by_address sha512 q.1 ≡ ok service_type_table))
            pair
            (
              refl,
              refl,
              rw (made, make_address_by_service_type),
              service_type_routed sha512 digest requestor marshaled differ,
            )
    ]
