-- ===== src/Sync/EventItems.antt =====
-- The loop of `UpdateOnsEvent` over the state changes of an event, as a sequence of updates.
use ons_sawtooth.Base.Logic.{
  ℕ, zero, suc, ◌≤◌, ◌≡◌, refl, Bool, true, false, Bool-cases, inl, inr, none, some, arith, List,
  [], ◌∷◌, eqb, Option-cases,
}
use ons_sawtooth.Base.Text.{GoString, Bytes, text, ◌==◌}
use ons_sawtooth.Base.Slice.{length, take}
use ons_sawtooth.Base.Dict.{Dict, lookup}
use ons_sawtooth.Base.Outcome.{
  Reply, success, failure, Outcome, ok, err, panic, hang, ComesBack, Reply-cases, resume,
}
use ons_sawtooth.Proto.State.{ServiceType}
use ons_sawtooth.Sdk.{Sdk}
use ons_sawtooth.Sync.Table.{
  gs1_code_table, service_type_table, get_table_idx_by_address, sync_hexdigest, table_of_prefix,
}
use ons_sawtooth.Sync.Database.{Database, IsLawfulDatabase}
use ons_sawtooth.Sync.Mirror.{OnsEvent, Mirror, db_delete_address}
use ons_sawtooth.Sync.Newest.{Item, gs1_code_item, service_type_item}
use ons_sawtooth.Sync.Puts.{put_item, put_item-Put}
use ons_sawtooth.Sync.Runs.{put_items, IsReady, put_item-IsReady}
use ons_sawtooth.Sync.Events.{
  Feed, string_at, gs1_code_event, service_type_event, unmarshalled_gs1_code, set_gs1_code,
  set_service_type, set_at_table, set_state_change, update_state_change, update_state_changes,
}

module _ (sdk : Sdk) (feed : Feed) where
  -- What a state change comes to.
  pub data Change : Type 0 where
    skipped : Change
    sets : Item → Change
    gives_up : Change

  abbrev pub change_at_table : OnsEvent → Dict GoString → Bytes → Outcome ℕ → Change
  change_at_table event state bytes (ok table_idx) = elim (eqb table_idx gs1_code_table) [
    | true ↦
        sets (gs1_code_item (gs1_code_event event state (unmarshalled_gs1_code sdk feed bytes)))
    | false ↦ elim (eqb table_idx service_type_table) [
      | true ↦ elim (sdk.service_type_codec.unmarshal bytes) [
        | success m ↦ sets (service_type_item (service_type_event event m))
        | failure e ↦ gives_up
      ]
      | false ↦ skipped
    ]
  ]
  change_at_table event state bytes (err e) = skipped
  change_at_table event state bytes panic = skipped
  change_at_table event state bytes hang = skipped

  unfoldable pub change_of : OnsEvent → Dict GoString → Change
  change_of event state = elim (lookup (text "type") state) [
    | none ↦ skipped
    | some event_type ↦ elim (event_type == text "DELETE") [
      | true ↦ skipped
      | false ↦ elim (feed.decode_base64 (string_at (text "value") state)) [
        | failure e ↦ skipped
        | success bytes ↦
            change_at_table event state bytes
              (get_table_idx_by_address sdk.sha512 (string_at (text "address") state))
      ]
    ]
  ]

  -- What the state changes of an event set, in their order, up to one that cannot be read.
  unfoldable pub items_of : OnsEvent → List (Dict GoString) → List Item
  items_of event [] = []
  items_of event (state ∷ states) =
      let rest = items_of event states in
      elim (change_of event state) [ skipped ↦ rest | sets item ↦ item ∷ rest | gives_up ↦ [] ]

-- The address of a state change is long enough to be looked up.
abbrev pub AllAddressed : List (Dict GoString) → Type 0
AllAddressed [] = Unit
AllAddressed (state ∷ states) =
    (14 ≤ length (string_at (text "address") state)) × AllAddressed states

module _ (sdk : Sdk) (base : Database) (law : IsLawfulDatabase base) (feed : Feed) where
  delete_keeps :
      (address : GoString) (m : Mirror base.Db)
      → ((db_delete_address base address m).1 ≡ m) × ComesBack (db_delete_address base address m).0
  unfolding db_delete_address
  delete_keeps address m = ground arith

  -- The error of an update is dropped.
  put_attempted :
      (item : Item) (m : Mirror base.Db) → IsReady base m → ComesBack (put_item base item m).0
  put_attempted item m ready =
      let p = (put_item-Put base law item m ready.connected ready.tidy).rows_after in ground arith

  -- What the body of the loop has done for each kind of change.
  abbrev pub Does : Mirror base.Db → Change sdk feed → Outcome Bool × Mirror base.Db → Type 0
  Does m Change.skipped r = r ≡ (ok true, m)
  Does m (Change.sets item) r = r ≡ (ok true, (put_item base item m).1)
  Does m Change.gives_up r = r ≡ (ok false, m)

  table_idx-cases :
      (address : GoString)
      → 14 ≤ length address
      → (idx : ℕ) × (get_table_idx_by_address sdk.sha512 address ≡ ok idx)
  unfolding get_table_idx_by_address
  table_idx-cases address long = (
    table_of_prefix sdk.sha512 (take 6 (sync_hexdigest sdk.sha512 (text "ons"))) (take 14 address),
    ground arith,
  )

  set_gs1_code-Does :
      (event : OnsEvent) (state : Dict GoString) (bytes : Bytes) (m : Mirror base.Db)
      → IsReady base m
      → Does m
          (Change.sets
            (gs1_code_item (gs1_code_event event state (unmarshalled_gs1_code sdk feed bytes))))
          (set_gs1_code sdk base feed event state bytes m)
  set_gs1_code-Does event state bytes m ready = ground (
    arith,
    put_attempted
        (gs1_code_item (gs1_code_event event state (unmarshalled_gs1_code sdk feed bytes))) m ready,
  )

  set_service_type-Does :
      (event : OnsEvent) (bytes : Bytes) (m : Mirror base.Db) (r : Reply ServiceType)
      → sdk.service_type_codec.unmarshal bytes ≡ r
      → IsReady base m
      → Does m
          (elim r [
            | success s ↦ Change.sets (service_type_item (service_type_event event s))
            | failure e ↦ Change.gives_up
          ])
          (set_service_type sdk base feed event bytes m)
  set_service_type-Does event bytes m (success s) e ready =
      rw (e, set_service_type)
        (ground (arith, put_attempted (service_type_item (service_type_event event s)) m ready))
  set_service_type-Does event bytes m (failure x) e ready = rw (e, set_service_type)

  set_at_table-Does :
      (event : OnsEvent) (state : Dict GoString) (bytes : Bytes) (idx : ℕ) (m : Mirror base.Db)
      → IsReady base m
      → Does m
          (change_at_table sdk feed event state bytes (ok idx))
          (set_at_table sdk base feed event state bytes idx m)
  set_at_table-Does event state bytes zero m ready = set_gs1_code-Does event state bytes m ready
  set_at_table-Does event state bytes (suc zero) m ready =
      set_service_type-Does event bytes m (sdk.service_type_codec.unmarshal bytes) refl ready
  set_at_table-Does event state bytes (suc (suc n)) m ready =
      let other : eqb (suc (suc n)) gs1_code_table ≡ false = ground arith in
      let none_of_them : eqb (suc (suc n)) service_type_table ≡ false = ground arith in
      rw (other, change_at_table, set_at_table, none_of_them)

  pub update_state_change-Does :
      (event : OnsEvent) (state : Dict GoString) (m : Mirror base.Db)
      → IsReady base m
      → 14 ≤ length (string_at (text "address") state)
      → Does m (change_of sdk feed event state) (update_state_change sdk base feed event state m)
  unfolding update_state_change set_state_change change_of
  update_state_change-Does event state m ready long =
      let (idx, routed) = table_idx-cases (string_at (text "address") state) long in
      elim (Option-cases (lookup (text "type") state)) [
        | inl untyped ↦ rw (untyped, change_of, update_state_change)
        | inr (event_type, typed) ↦ elim (Bool-cases (event_type == text "DELETE")) [
          | inl delete ↦
              rw (typed, change_of, update_state_change, delete)
                (ground (arith, delete_keeps (string_at (text "address") state) m))
          | inr set ↦ elim (Reply-cases (feed.decode_base64 (string_at (text "value") state))) [
            | inl (bytes, decoded) ↦
                rw (typed, change_of, update_state_change, set, decoded, set_state_change, routed)
                  (set_at_table-Does event state bytes idx m ready)
            | inr (e, garbled) ↦
                rw (typed, change_of, update_state_change, set, garbled, set_state_change)
          ]
        ]
      ]

  -- One turn of the loop, by what the change comes to.
  goes_on :
      (event : OnsEvent) (state : Dict GoString) (states : List (Dict GoString))
      (m : Mirror base.Db)
      → IsReady base m
      → ((m' : Mirror base.Db)
          → IsReady base m'
          → update_state_changes sdk base feed event states m'
            ≡ (ok tt, put_items base (items_of sdk feed event states) m'))
      → (c : Change sdk feed) → Does m c (update_state_change sdk base feed event state m)
      → change_of sdk feed event state ≡ c
      → update_state_changes sdk base feed event (state ∷ states) m
        ≡ (ok tt, put_items base (items_of sdk feed event (state ∷ states)) m)
  unfolding update_state_changes items_of put_items
  goes_on event state states m ready ih Change.skipped d e =
      rw (d, resume, e, items_of) (ih m ready)
  goes_on event state states m ready ih (Change.sets item) d e =
      rw (d, resume, e, items_of)
        (ih (put_item base item m).1 (put_item-IsReady base law item m ready))
  goes_on event state states m ready ih Change.gives_up d e = rw (d, resume, e, items_of)

  -- With a lawful database, a connected mirror whose rows stand in the tables of their kinds, and
  -- state changes whose addresses have 14 characters, the loop over the state changes of an event
  -- does not panic and comes to the updates with the items that the changes set, in their order up to
  -- a service type that cannot be read: changes without a type, deletions, values that are not base64
  -- and other addresses change nothing.
  pub update_state_changes-items :
      (event : OnsEvent) (states : List (Dict GoString)) (m : Mirror base.Db)
      → IsReady base m
      → AllAddressed states
      → update_state_changes sdk base feed event states m
        ≡ (ok tt, put_items base (items_of sdk feed event states) m)
  unfolding update_state_changes items_of put_items
  update_state_changes-items event [] m ready long = refl
  update_state_changes-items event (state ∷ states) m ready long =
      goes_on event state states m ready
        (λ m' ready'. update_state_changes-items event states m' ready' long.1)
        (change_of sdk feed event state) (update_state_change-Does event state m ready long.0) refl
