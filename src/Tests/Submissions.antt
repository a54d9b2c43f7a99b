-- ===== src/Tests/Submissions.antt =====
-- The theorems on what the client makes of a payload and of a service type file, and on the start of
-- the processor: with the codecs of Tests/Wire.antt and signatures that are the bytes themselves.
use ons_sawtooth.Base.Logic.{◌≡◌, refl, List, [], ◌∷◌, ◌++◌, Option, some, arith, true}
use ons_sawtooth.Base.Text.{GoString, Bytes, text, ◌==◌}
use ons_sawtooth.Base.Outcome.{other_error, Reply, success, failure, ok}
use ons_sawtooth.Proto.State.{ServiceType}
use ons_sawtooth.Proto.Payload.{SendOnsTransactionPayload}
use ons_sawtooth.Sdk.{Sdk}
use ons_sawtooth.Address.Client.{make_address_by_service_type, service_type_address}
use ons_sawtooth.Sync.Table.{get_table_idx_by_address, service_type_table}
use ons_sawtooth.Client.{make_deregister_gs1_code_payload}
use ons_sawtooth.Client.Batch.{
  TransactionHeader, Transaction, BatchHeader, Batch, BatchList, Signing, returned, lower_hex,
  transaction_header, transaction_of, batch_header, batch_of, make_batch_list,
}
use ons_sawtooth.Client.Batches.{IsSound, IsSubmission, make_batch_list-IsSubmission}
use ons_sawtooth.Client.ServiceTypeFile.{
  string_field, TopValue, object_top, unaddressed, collect_all, generate_service_type,
}
use ons_sawtooth.Client.FieldOrder.{generated_routed}
use ons_sawtooth.Start.{start, started, panicked}
use ons_sawtooth.Start.Keys.{with_super_user, start_with_key}
use ons_sawtooth.Tests.Pack.{Pack, both, many, packed_as}
use ons_sawtooth.Tests.Wire.{
  string, codec, codec-RoundTrips, service_type_codec, service_type_pack, service_type_parts,
}
use ons_sawtooth.Tests.Ledger.{ledger, digest, digest-IsDigest}
use ons_sawtooth.Base.Slice.{take}
use ons_sawtooth.Base.Logic.{ℕ_discrete, ◌≢◌}
use ons_sawtooth.Base.Text.{GoString-discrete}
use ons_sawtooth.Address.{hexdigest, hex_encode, hex_digit, lower}
use ons_sawtooth.Tests.Ledger.{different, padded}
use ons_sawtooth.Tests.Town.{town_store}

abbrev strings : Pack (List GoString)
strings = many string

abbrev header_pack : Pack (
    (GoString × (GoString × List GoString))
    × ((List GoString × (GoString × GoString)) × (List GoString × (GoString × GoString))))
header_pack =
    both (both string (both string strings))
      (both (both strings (both string string)) (both strings (both string string)))

abbrev header_parts :
    TransactionHeader
    → (GoString × (GoString × List GoString))
      × ((List GoString × (GoString × GoString)) × (List GoString × (GoString × GoString)))
header_parts m = (
  (m.family_name, (m.family_version, m.inputs)),
  (
    (m.outputs, (m.batcher_public_key, m.signer_public_key)),
    (m.dependencies, (m.payload_sha512, m.nonce)),
  ),
)

abbrev header_back :
    (GoString × (GoString × List GoString))
      × ((List GoString × (GoString × GoString)) × (List GoString × (GoString × GoString)))
    → TransactionHeader
header_back t = record {
  family_name = t.0.0;
  family_version = t.0.1.0;
  inputs = t.0.1.1;
  outputs = t.1.0.0;
  batcher_public_key = t.1.0.1.0;
  signer_public_key = t.1.0.1.1;
  dependencies = t.1.1.0;
  payload_sha512 = t.1.1.1.0;
  nonce = t.1.1.1.1;
}

abbrev batch_header_parts : BatchHeader → GoString × List GoString
batch_header_parts m = (m.signer_public_key, m.transaction_ids)

abbrev batch_header_back : GoString × List GoString → BatchHeader
batch_header_back t = record { signer_public_key = t.0; transaction_ids = t.1 }

abbrev transaction_pack : Pack Transaction
transaction_pack =
    packed_as (both string (both string string)) (λ m. (m.header, (m.header_signature, m.payload)))
      (λ t. record { header = t.0; header_signature = t.1.0; payload = t.1.1 }) (λ m. refl)

abbrev batch_pack : Pack Batch
batch_pack =
    packed_as (both string (both string (many transaction_pack)))
      (λ m. (m.header, (m.header_signature, m.transactions)))
      (λ t. record { header = t.0; header_signature = t.1.0; transactions = t.1.1 }) (λ m. refl)

abbrev batches_back : List Batch → BatchList
batches_back t = record { batches = t }

abbrev signer : Signing
signer = record {
  transaction_header_codec = codec header_pack header_parts header_back;
  batch_header_codec = codec (both string strings) batch_header_parts batch_header_back;
  batch_list_codec = codec (many batch_pack) (λ m. m.batches) batches_back;
  public_key = text "ann";
  sign = λ bytes. bytes;
  verify = λ key bytes signature. lower_hex bytes == signature;
}

same_text : (a : GoString) → (a == a) ≡ true
same_text a = ground arith

signer-IsSound : IsSound signer
signer-IsSound = record {
  transaction_headers = codec-RoundTrips header_pack header_parts header_back (λ m. m) (λ m. refl);
  batch_headers =
      codec-RoundTrips (both string strings) batch_header_parts batch_header_back (λ m. m)
        (λ m. refl);
  batch_lists =
      codec-RoundTrips (many batch_pack) (λ m. m.batches) batches_back (λ m. m) (λ m. refl);
  verifies = λ bytes. same_text (lower_hex bytes);
}

abbrev marshal_payload : Option SendOnsTransactionPayload → Reply Bytes
marshal_payload p = success (text "payload")

abbrev sending : Sdk
sending = record ledger {
  payload_codec = record { marshal = marshal_payload; unmarshal = ledger.payload_codec.unmarshal };
}

abbrev ended : Option SendOnsTransactionPayload
ended = some (make_deregister_gs1_code_payload (text "880"))

abbrev header_bytes : Bytes
header_bytes =
    header_pack.put
      (header_parts (transaction_header sending signer (text "payload") (text "5b7349") (text "0")))
      []

abbrev wrapped : Transaction
wrapped = transaction_of sending signer header_bytes (text "payload")

abbrev batch_header_bytes : Bytes
batch_header_bytes =
    (both string strings).put (batch_header_parts (batch_header sending signer wrapped)) []

abbrev list_bytes : Bytes
list_bytes = (many batch_pack).put (batch_of sending signer batch_header_bytes wrapped ∷ []) []

list_returned :
    make_batch_list sending signer ended (text "5b7349") (text "0") ≡ returned (success list_bytes)
unfolding make_batch_list
list_returned = refl

make_batch_list-IsSubmission_example :
    (payload : Bytes) × (marshal_payload ended ≡ success payload)
    × IsSubmission sending signer payload (text "5b7349") list_bytes
make_batch_list-IsSubmission_example =
    make_batch_list-IsSubmission sending signer ended (text "5b7349") (text "0") list_bytes
      signer-IsSound list_returned

service_type_apart :
    take 8 (hexdigest digest (text "service-type")) ≢ take 8 (hexdigest digest (text "gs1"))
unfolding hexdigest hex_encode hex_digit lower padded GoString-discrete ℕ_discrete
service_type_apart = different refl

abbrev file : List (GoString × TopValue)
file = (text "ServiceType", object_top ((text "-name", string_field (text "delivery")) ∷ [])) ∷ []

abbrev generated : ServiceType
generated = unaddressed (collect_all file ([], []))

abbrev generated_address : GoString
generated_address =
    service_type_address digest (text "root")
      (service_type_pack.put (service_type_parts generated) [])

abbrev addressed : ServiceType
addressed = record generated { address = generated_address; provider = text "root" }

generated_so :
    generate_service_type digest service_type_codec (success file) (text "root")
    ≡ success (addressed, generated_address)
unfolding generate_service_type make_address_by_service_type
generated_so = refl

generated_routed_example :
    (addressed.address ≡ generated_address)
    × (addressed.provider ≡ text "root")
    × (make_address_by_service_type digest service_type_codec
          (text "root")
          (some (record addressed { address = []; provider = [] }))
        ≡ success generated_address)
    × (get_table_idx_by_address digest generated_address ≡ ok service_type_table)
generated_routed_example =
    generated_routed digest service_type_codec file (text "root") generated_address addressed
      digest-IsDigest service_type_apart generated_so

start_with_key_example :
    (start ledger [] (success (text "root")) town_store
      ≡ started (with_super_user ledger (text "root") town_store))
    × (start ledger [] (success (text "root" ++ (10 ∷ []))) town_store
        ≡ started (with_super_user ledger (text "root") town_store))
    × (start ledger (text "root") (failure (other_error (text "no file"))) town_store
        ≡ started (with_super_user ledger (text "root") town_store))
    × (start ledger [] (success []) town_store ≡ panicked)
start_with_key_example =
    start_with_key ledger (text "root") 116 (failure (other_error (text "no file"))) town_store refl
      (λ e. absurd (ground arith))
