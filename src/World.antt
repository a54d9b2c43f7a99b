-- ===== src/World.antt =====
-- The state of the transaction processor: the package variables of ons_manager
-- (src/ons/ons_manager/ons_manager.go), and the global state behind the context.
use ons_sawtooth.Base.Logic.{List, [], Bool, false, Option, none, some}
use ons_sawtooth.Base.Text.{GoString, text, Bytes}
use ons_sawtooth.Base.Dict.{Dict}
use ons_sawtooth.Base.Outcome.{Action, Reply, ok}
use ons_sawtooth.Proto.State.{OnsManager}
use ons_sawtooth.Sdk.{Sdk}

-- The maps may be nil: `none`.
pub record World (Store : Type 0) : Type 0 where
  pub sudo_address : GoString
  pub ons_manager_address : GoString
  pub ons_manager : OnsManager
  pub state_cached : Bool
  pub cached_ons_managers : Option (Dict GoString)
  pub cached_ons_sumanagers : Option (Dict Bool)
  pub store : Store

abbrev pub empty_ons_manager : OnsManager
empty_ons_manager = record { su_addresses = none; manager_addresses = none }

-- The package variables as the program starts.
unfoldable pub initial_world : {Store : Type 0} → Store → World Store
initial_world s = record {
  sudo_address = text "empty";
  ons_manager_address = text "empty";
  ons_manager = empty_ons_manager;
  state_cached = false;
  cached_ons_managers = some [];
  cached_ons_sumanagers = some [];
  store = s;
}

module _ (sdk : Sdk) where
  abbrev pub Call : Type 0 → Type 0
  Call = Action (World sdk.Store)

  -- The calls of the context, on the store inside the world.
  abbrev pub context_get : List GoString → Call (Reply (Dict Bytes))
  context_get addresses w = (ok (sdk.get_state addresses w.store), w)

  abbrev pub context_set : Dict Bytes → Call (Reply (List GoString))
  context_set entries w =
      let (r, s) = sdk.set_state entries w.store in (ok r, record w { store = s })

  abbrev pub context_delete : List GoString → Call (Reply (List GoString))
  context_delete addresses w =
      let (r, s) = sdk.delete_state addresses w.store in (ok r, record w { store = s })
