-- ===== src/Client/Requests.antt =====
-- A payload that the client builds, once the processor has it.
use ons_sawtooth.Base.Logic.{ℕ, ◌≡◌, refl, ◌++◌, none, some, arith}
use ons_sawtooth.Base.Text.{GoString, Bytes}
use ons_sawtooth.Base.Outcome.{ok, success}
use ons_sawtooth.Proto.State.{Gs1CodeData, record_inactive, gs1code_inactive}
use ons_sawtooth.Proto.Payload.{SendOnsTransactionPayload}
use ons_sawtooth.Sdk.{Sdk}
use ons_sawtooth.Sdk.Laws.{IsLawful}
use ons_sawtooth.World.{World}
use ons_sawtooth.Handler.Apply.{apply, unpack_payload, dispatch}
use ons_sawtooth.Handler.Success.{Leaves, IsAccepting, register_succeeds}
use ons_sawtooth.Handler.RecordResults.{add_record_succeeds}
use ons_sawtooth.Handler.Gate.{MayEdit}
use ons_sawtooth.Base.Slice.{elements}
use ons_sawtooth.Registry.Laws.{registry}
use ons_sawtooth.Client.{make_register_gs1_code_payload, make_add_record_payload}
use ons_sawtooth.Base.Logic.{◌≢◌, true, [], ◌∷◌}

module _ (sdk : Sdk) where
  apply_unpacked :
      (requestor : GoString) (bytes : Bytes) (p : SendOnsTransactionPayload) (w : World sdk.Store)
      → sdk.payload_codec.unmarshal bytes ≡ success p
      → apply sdk requestor bytes w ≡ dispatch sdk p.transaction_type p requestor w
  unfolding apply unpack_payload
  apply_unpacked requestor bytes p w sent = ground arith

module _ (sdk : Sdk) (law : IsLawful sdk) (accepting : IsAccepting sdk) where
  -- With a lawful validator that accepts what it is sent, a registration that the client builds and
  -- the super user sends leaves an unknown code, not empty, in the registry: owned by the owner given
  -- to the client, inactive and without records.
  pub sent_registration :
      (gs1_code owner_address requestor : GoString) (bytes : Bytes) (w : World sdk.Store)
      → sdk.payload_codec.unmarshal bytes
        ≡ success (make_register_gs1_code_payload gs1_code owner_address)
      → requestor ≡ w.sudo_address
      → gs1_code ≢ []
      → registry sdk w.store gs1_code ≡ ok none
      → Leaves sdk gs1_code
          (some (record {
            gs1_code = gs1_code;
            owner_id = owner_address;
            records = none;
            state = gs1code_inactive;
          }))
          (apply sdk requestor bytes w)
  unfolding dispatch
  sent_registration gs1_code owner_address requestor bytes w sent sudo nonempty unknown =
      rw
        (apply_unpacked sdk requestor bytes (make_register_gs1_code_payload gs1_code owner_address)
          w sent)
        (register_succeeds sdk law accepting
          (make_register_gs1_code_payload gs1_code owner_address).register_gs1_code requestor w sudo
          nonempty unknown)

  -- With the cache loaded and a lawful validator that accepts what it is sent, a record that the
  -- client builds and an editor sends stands at the end of a known code that is stored under its own
  -- name, not empty: with the flags, service and regexp given to the client, inactive, and provided
  -- by the sender.
  pub sent_record :
      (flags : ℕ) (service regexp requestor : GoString) (m : Gs1CodeData) (bytes : Bytes)
      (w : World sdk.Store)
      → sdk.payload_codec.unmarshal bytes
        ≡ success (make_add_record_payload m.gs1_code flags service regexp)
      → w.state_cached ≡ true
      → MayEdit sdk m.gs1_code requestor w
      → registry sdk w.store m.gs1_code ≡ ok (some m)
      → m.gs1_code ≢ []
      → Leaves sdk m.gs1_code
          (some (record m {
            records = some (
                elements m.records
                ++ (record {
                  flags = flags;
                  service = service;
                  regexp = regexp;
                  state = record_inactive;
                  provider = requestor;
                }
                    ∷ []));
          }))
          (apply sdk requestor bytes w)
  unfolding dispatch
  sent_record flags service regexp requestor m bytes w sent cached may known nonempty =
      rw
        (apply_unpacked sdk requestor bytes
          (make_add_record_payload m.gs1_code flags service regexp) w sent)
        (add_record_succeeds sdk law accepting requestor m w cached
          (make_add_record_payload m.gs1_code flags service regexp).add_record_data may known refl
          nonempty)
