-- ===== src/Tests/Ledger.antt =====
-- A validator that keeps its state in a dictionary and accepts what it is sent, with the codecs of
-- Tests/Wire.antt and a digest that pads its input: an instance of everything the program calls.
use ons_sawtooth.Base.Logic.{
  ℕ, zero, suc, ◌%◌, ◌≡◌, ◌≢◌, refl, List, [], ◌∷◌, Option, none, some, arith, false,
}
use ons_sawtooth.Base.Text.{GoString, Bytes, text, ◌==◌}
use ons_sawtooth.Base.Slice.{length}
use ons_sawtooth.Base.Dict.{Dict, lookup, insert, erase, lookup-insert, lookup-erase}
use ons_sawtooth.Base.Outcome.{
  Error, invalid_transaction, internal, other_error, Reply, success, failure,
}
use ons_sawtooth.Proto.Payload.{SendOnsTransactionPayload}
use ons_sawtooth.Sdk.{Sdk, Codec, fetch}
use ons_sawtooth.Sdk.Laws.{AllBytes, IsDigest, IsLawful}
use ons_sawtooth.Handler.Success.{IsAccepting}
use ons_sawtooth.Client.{make_register_gs1_code_payload, make_add_record_payload}
use ons_sawtooth.Tests.Wire.{
  gs1_code_codec, gs1_code_codec-RoundTrips, ons_manager_codec, ons_manager_codec-RoundTrips,
  service_type_codec, service_type_codec-RoundTrips,
}

pub different : {a b : GoString} → (a == b) ≡ false → a ≢ b
different e p = ground arith

unfoldable pub padded : ℕ → Bytes → Bytes
padded zero b = []
padded (suc n) [] = 0 ∷ padded n []
padded (suc n) (x ∷ xs) = (x % 256) ∷ padded n xs

length-padded : (n : ℕ) (b : Bytes) → length (padded n b) ≡ n
unfolding padded
length-padded zero b = refl
length-padded (suc n) [] = ground (arith, length-padded n [])
length-padded (suc n) (x ∷ xs) = ground (arith, length-padded n xs)

padded-AllBytes : (n : ℕ) (b : Bytes) → AllBytes (padded n b)
unfolding padded
padded-AllBytes zero b = tt
padded-AllBytes (suc n) [] = (omega arith, padded-AllBytes n [])
padded-AllBytes (suc n) (x ∷ xs) = (omega arith, padded-AllBytes n xs)

abbrev pub digest : Bytes → Bytes
digest = padded 64

pub digest-IsDigest : IsDigest digest
digest-IsDigest = record { size = length-padded 64; bytes = padded-AllBytes 64 }

-- The entries of a dictionary at the addresses asked for.
unfoldable pub entries_at : List GoString → Dict Bytes → Dict Bytes
entries_at [] s = []
entries_at (a ∷ rest) s = elim (lookup a s) [
  | none ↦ entries_at rest s
  | some v ↦ (a, v) ∷ entries_at rest s
]

unfoldable pub insert_all : Dict Bytes → Dict Bytes → Dict Bytes
insert_all [] s = s
insert_all ((a, v) ∷ entries) s = insert_all entries (insert a v s)

unfoldable pub erase_all : List GoString → Dict Bytes → Dict Bytes
erase_all [] s = s
erase_all (a ∷ rest) s = erase_all rest (erase a s)

unfoldable pub keys : Dict Bytes → List GoString
keys [] = []
keys ((a, v) ∷ entries) = a ∷ keys entries

abbrev pub error_text : Error → GoString
error_text (invalid_transaction t) = t
error_text (internal t) = t
error_text (other_error t) = t

-- The tests send two kinds of payloads: after a zero a code to be registered for "root", and after
-- its flags a record to be added to a code.
abbrev pub payload_marshal : Option SendOnsTransactionPayload → Reply Bytes
payload_marshal p = failure (other_error (text "not sent"))

abbrev pub payload_unmarshal : Bytes → Reply SendOnsTransactionPayload
payload_unmarshal [] = failure (other_error (text "proto: malformed"))
payload_unmarshal (zero ∷ gs1_code) =
    success (make_register_gs1_code_payload gs1_code (text "root"))
payload_unmarshal (suc flags ∷ gs1_code) =
    success (make_add_record_payload gs1_code (suc flags) [] [])

abbrev pub payload_codec : Codec SendOnsTransactionPayload
payload_codec = record { marshal = payload_marshal; unmarshal = payload_unmarshal }

abbrev pub ledger : Sdk
ledger = record {
  Store = Dict Bytes;
  get_state = λ addresses s. success (entries_at addresses s);
  set_state = λ entries s. (success (keys entries), insert_all entries s);
  delete_state = λ addresses s. (success addresses, erase_all addresses s);
  gs1_code_codec = gs1_code_codec;
  ons_manager_codec = ons_manager_codec;
  service_type_codec = service_type_codec;
  payload_codec = payload_codec;
  error_text = error_text;
  enum_name = λ t. text "ADD_RECORD";
  sha512 = digest;
}

pub fetch-ledger :
    (a : GoString) (s : Dict Bytes)
    → fetch ledger a s ≡ success (elim (lookup a s) [ none ↦ [] | some v ↦ v ])
unfolding fetch entries_at lookup
fetch-ledger a s = ground arith

pub ledger-IsLawful : IsLawful ledger
unfolding insert_all erase_all keys
ledger-IsLawful = record {
  digest = digest-IsDigest;
  gs1_code_round_trips = gs1_code_codec-RoundTrips;
  ons_manager_round_trips = ons_manager_codec-RoundTrips;
  service_type_round_trips = service_type_codec-RoundTrips;
  gs1_code_marshals_some = λ m nonempty e. cc;
  set_writes =
      λ a d v s x xs _ _. ground (arith, fetch-ledger a (insert a d s), lookup-insert a a d s);
  set_keeps = λ a b d s apart.
      ground (arith, fetch-ledger b (insert a d s), fetch-ledger b s, lookup-insert b a d s);
  set_refused = λ a d s e r. absurd (ground arith);
  set_nothing = λ a d s r. absurd (ground arith);
  delete_clears = λ a v s x xs _ _. ground (arith, fetch-ledger a (erase a s), lookup-erase a a s);
  delete_keeps = λ a b s apart.
      ground (arith, fetch-ledger b (erase a s), fetch-ledger b s, lookup-erase b a s);
  delete_refused = λ a s e r. absurd (ground arith);
  delete_nothing = λ a s r. absurd (ground arith);
}

pub ledger-IsAccepting : IsAccepting ledger
unfolding insert_all erase_all keys
ledger-IsAccepting = record {
  gs1_code_marshals = λ m. (_, refl);
  ons_manager_marshals = λ m. (_, refl);
  sets = λ a d s. (a, [], refl);
  deletes = λ a s. (a, [], refl);
}
