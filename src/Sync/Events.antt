-- ===== src/Sync/Events.antt =====
-- What src/ons_sync/handler.go does with an event of the validator: `getCurrentLatestONSEvent`,
-- `UpdateOnsEvent`, and the body of the goroutine that `runReceiveEvents` starts for a message.
use ons_sawtooth.Base.Logic.{
  ℕ, ◌≡◌, List, [], ◌∷◌, ◌++◌, Bool, true, false, eqb, ltb, Option, none, some,
}
use ons_sawtooth.Base.Text.{GoString, text, Bytes, ◌==◌}
use ons_sawtooth.Base.Dict.{Dict, lookup}
use ons_sawtooth.Base.Outcome.{
  Reply, success, failure, Outcome, pure, crash, gets, modify, attempt, wait_for_ever, ◌>>=◌, ◌>>◌,
}
use ons_sawtooth.Proto.State.{Gs1CodeData, ServiceType}
use ons_sawtooth.Sdk.{Sdk}
use ons_sawtooth.Sync.Table.{gs1_code_table, service_type_table, get_table_idx_by_address}
use ons_sawtooth.Sync.Database.{
  Gs1CodeEvent, ServiceTypeEvent, gs1_code_document, service_type_document, Database,
}
use ons_sawtooth.Sync.Mirror.{
  OnsEvent, Job, db_update_latest_updated_block_info, db_get_latest_updated_block_info,
  db_update_or_insert, db_delete_address,
}

-- What surrounds the handling: the standard library's decoders, the goroutine at the other end of the
-- channel of block ids, and what a failed `proto.Unmarshal` has left in the message.
pub record Feed : Type 0 where
  -- `base64.StdEncoding.DecodeString`
  pub decode_base64 : GoString → Reply Bytes
  pub partial_gs1_code : Bytes → Gs1CodeData
  -- The events that `json.Unmarshal` leaves in the slice, for a message between brackets.
  pub events_of_message : Bytes → List OnsEvent
  -- Whether `runSubscriber`, which has taken these block ids before, takes this one from the channel.
  -- After its end it takes none.
  pub takes : List GoString → GoString → Bool

-- The subscriber runs as long as it is needed.
abbrev pub AlwaysTakes : Feed → Type 0
AlwaysTakes feed = (asked : List GoString) (id : GoString) → feed.takes asked id ≡ true

-- `state[key]` of a map of strings.
abbrev pub string_at : GoString → Dict GoString → GoString
string_at key state = elim (lookup key state) [ none ↦ [] | some v ↦ v ]

abbrev pub gs1_code_event : OnsEvent → Dict GoString → Gs1CodeData → Gs1CodeEvent
gs1_code_event event state data_of_code = record {
  gs1_code_data = data_of_code;
  address = string_at (text "address") state;
  block_num = event.block_num;
}

abbrev pub service_type_event : OnsEvent → ServiceType → ServiceTypeEvent
service_type_event event service_type = record {
  service_type = service_type;
  block_num = event.block_num;
}

module _ (sdk : Sdk) (feed : Feed) where
  -- The error of the unmarshalling is not looked at.
  abbrev pub unmarshalled_gs1_code : Bytes → Gs1CodeData
  unmarshalled_gs1_code bytes = elim (sdk.gs1_code_codec.unmarshal bytes) [
    | success m ↦ m
    | failure e ↦ feed.partial_gs1_code bytes
  ]

module _ (sdk : Sdk) (base : Database) (feed : Feed) where
  abbrev pub keep_event : OnsEvent → Job base (Unit {0})
  keep_event event = do
    modify (λ m. record m { current_latest_ons_event = some event })
    _ ← attempt (
        db_update_latest_updated_block_info base event.block_num event.block_id
          event.previous_block_id)
    pure tt

  -- The error of the update is logged.
  unfoldable pub get_current_latest_ons_event : OnsEvent → Job base (Option OnsEvent)
  get_current_latest_ons_event event = do
    current ← gets (λ m. m.current_latest_ons_event)
    elim current [
      | none ↦ keep_event event
      | some latest ↦ elim (ltb latest.block_num event.block_num) [
        | true ↦ keep_event event
        | false ↦ pure tt
      ]
    ]
    gets (λ m. m.current_latest_ons_event)

  -- `h.GetBlockDeltas(block_id)`: the channel has no buffer, so the send returns when the subscriber
  -- takes the id, and never if it does not.
  abbrev pub get_block_deltas : GoString → Job base (Unit {0})
  get_block_deltas block_id = do
    asked ← gets (λ m. m.asked)
    elim (feed.takes asked block_id) [
      | true ↦ modify (λ m. record m { asked = asked ++ (block_id ∷ []) })
      | false ↦ wait_for_ever
    ]

  -- The head of `UpdateOnsEvent`: the previous block is asked for, until it is the one known.
  abbrev pub ask_for_previous : OnsEvent → Job base (Unit {0})
  ask_for_previous event = do
    latest_updated_block_id ← gets (λ m. m.latest_block_id)
    elim (event.previous_block_id == latest_updated_block_id) [
      | true ↦ (do _ ← attempt (db_get_latest_updated_block_info base); pure tt)
      | false ↦ get_block_deltas event.previous_block_id
    ]

  abbrev pub set_gs1_code : OnsEvent → Dict GoString → Bytes → Job base Bool
  set_gs1_code event state bytes = do
    let e = gs1_code_event event state (unmarshalled_gs1_code sdk feed bytes)
    _ ← attempt (
        db_update_or_insert base gs1_code_table e.gs1_code_data.gs1_code e.block_num
          (gs1_code_document e))
    pure true

  -- Here an error ends the work on the event: `false`.
  abbrev pub set_service_type : OnsEvent → Bytes → Job base Bool
  set_service_type event bytes = elim (sdk.service_type_codec.unmarshal bytes) [
    | failure e ↦ pure false
    | success m ↦ (do
      let e = service_type_event event m
      _ ← attempt (
          db_update_or_insert base service_type_table e.service_type.address e.block_num
            (service_type_document e))
      pure true)
  ]

  abbrev pub set_at_table : OnsEvent → Dict GoString → Bytes → ℕ → Job base Bool
  set_at_table event state bytes table_idx = elim (eqb table_idx gs1_code_table) [
    | true ↦ set_gs1_code event state bytes
    | false ↦ elim (eqb table_idx service_type_table) [
      | true ↦ set_service_type event bytes
      | false ↦ pure true
    ]
  ]

  abbrev pub routed : Outcome ℕ → Job base ℕ
  routed r m = (r, m)

  -- One state change that sets a value.
  unfoldable pub set_state_change : OnsEvent → Dict GoString → Job base Bool
  set_state_change event state = elim (feed.decode_base64 (string_at (text "value") state)) [
    | failure e ↦ pure true
    | success bytes ↦ (do
      table_idx ← routed (get_table_idx_by_address sdk.sha512 (string_at (text "address") state))
      set_at_table event state bytes table_idx)
  ]

  -- The body of the loop; it tells whether the loop goes on.
  unfoldable pub update_state_change : OnsEvent → Dict GoString → Job base Bool
  update_state_change event state = elim (lookup (text "type") state) [
    | none ↦ pure true
    | some event_type ↦ elim (event_type == text "DELETE") [
      | true ↦ (do
        _ ← attempt (db_delete_address base (string_at (text "address") state))
        pure true)
      | false ↦ set_state_change event state
    ]
  ]

  unfoldable pub update_state_changes : OnsEvent → List (Dict GoString) → Job base (Unit {0})
  update_state_changes event [] = pure tt
  update_state_changes event (state ∷ states) = do
    goes_on ← update_state_change event state
    elim goes_on [ true ↦ update_state_changes event states | false ↦ pure tt ]

  unfoldable pub update_ons_event : OnsEvent → Job base (Unit {0})
  update_ons_event event = do
    latest ← get_current_latest_ons_event event
    ask_for_previous event
    update_state_changes event event.state_changes

  -- `&onsEvent[0]`: a message that gives no event is a slice without a first element.
  unfoldable pub receive_event : Bytes → Job base (Unit {0})
  receive_event message = elim (feed.events_of_message message) [
    | [] ↦ crash
    | event ∷ events ↦ update_ons_event event
  ]
