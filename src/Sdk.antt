-- ===== src/Sdk.antt =====
-- The code that the repository calls and does not contain: the validator's state behind
-- processor.Context, protobuf marshalling, the text of errors, and SHA-512. It is a parameter of
-- the whole development, with what its documentation says as the named laws of Sdk/Laws.antt.
pub mod Laws
use ons_sawtooth.Base.Logic.{List, [], ◌∷◌, Option, none, some}
use ons_sawtooth.Base.Text.{GoString, Bytes}
use ons_sawtooth.Base.Dict.{Dict, lookup}
use ons_sawtooth.Base.Outcome.{Error, Reply, success, failure}
use ons_sawtooth.Proto.State.{Gs1CodeData, OnsManager, ServiceType}
use ons_sawtooth.Proto.Payload.{SendOnsTransactionPayload, OnsTransactionType}

-- `proto.Marshal` of a pointer, nil included, and `proto.Unmarshal`, at one message type.
pub record Codec (A : Type 0) : Type 0 where
  pub marshal : Option A → Reply Bytes
  pub unmarshal : Bytes → Reply A

pub record Sdk : Type 1 where
  -- The global state as one transaction sees it.
  pub Store : Type 0
  -- `Context.GetState`, `Context.SetState` and `Context.DeleteState`.
  pub get_state : List GoString → Store → Reply (Dict Bytes)
  pub set_state : Dict Bytes → Store → Reply (List GoString) × Store
  pub delete_state : List GoString → Store → Reply (List GoString) × Store
  pub gs1_code_codec : Codec Gs1CodeData
  pub ons_manager_codec : Codec OnsManager
  pub service_type_codec : Codec ServiceType
  pub payload_codec : Codec SendOnsTransactionPayload
  -- What `fmt.Sprint` prints of an error, and `%v` of a transaction type.
  pub error_text : Error → GoString
  pub enum_name : OnsTransactionType → GoString
  pub sha512 : Bytes → Bytes

-- `results[address]` of a map of byte slices: an absent key reads as no bytes.
abbrev pub bytes_at : GoString → Dict Bytes → Bytes
bytes_at a m = elim (lookup a m) [ none ↦ [] | some v ↦ v ]

-- The value that `GetState` gives for one address: the view by which the laws speak of a store.
unfoldable pub fetch : (sdk : Sdk) → GoString → sdk.Store → Reply Bytes
fetch sdk a s = elim (sdk.get_state (a ∷ []) s) [
  | success m ↦ success (bytes_at a m)
  | failure e ↦ failure e
]
