-- ===== src/Sync/Subscriber.antt =====
-- The goroutine `runSubscriber` of src/ons_sync/handler.go, what is sent to it over its channels, and
-- the end of `main` in src/ons_sync/main.go. The channels have no buffer: a send waits until the
-- goroutine takes what is sent, and the goroutine takes nothing more until it has handled it.
use ons_sawtooth.Base.Logic.{
  ◌≡◌, List, [], ◌∷◌, ◌++◌, Bool, true, false, Option, none, some, if◌then◌else◌,
}
use ons_sawtooth.Base.Text.{GoString, Bytes, text}
use ons_sawtooth.Base.Slice.{take}
use ons_sawtooth.Base.Outcome.{Reply, success, failure}
use ons_sawtooth.Sync.Table.{sync_hexdigest}

-- What is sent over `subscribing`, `block_id` and `exit_sub`.
pub data Command : Type 0 where
  subscribing : Bool → Command
  block_id : GoString → Command
  exit_sub : Command

-- `subscribingMessage`, `unsubscribingMessage` and `getBlockDeltasMessage`.
pub data Message : Type 0 where
  subscribing_message : List GoString → Message
  unsubscribing_message : Message
  get_block_deltas_message : GoString → List GoString → Message

-- `ONSEventHandler`, with the command that the goroutine has taken from a channel and not yet
-- handled, whether it is in its loop, and the messages it has handed to the connection: an error of
-- the connection is logged.
pub record OnsEventHandler : Type 0 where
  pub initialized : Bool
  pub subscribed : Bool
  pub is_running : Bool
  pub taken : Option Command
  pub written : List Message

-- `NewONSEventHandler`: of the dialled connection, whether there is one.
unfoldable pub new_ons_event_handler : Reply (Unit {0}) → Reply OnsEventHandler
new_ons_event_handler (failure e) = failure e
new_ons_event_handler (success conn) = success (record {
  initialized = true;
  subscribed = false;
  is_running = false;
  taken = none;
  written = [];
})

-- `Run`: the goroutine is started.
unfoldable pub run : OnsEventHandler → Bool × OnsEventHandler
run h = if h.initialized then (true, record h { is_running = true }) else (false, h)

module _ (sha512 : Bytes → Bytes) where
  abbrev pub namespace : GoString
  namespace = take 6 (sync_hexdigest sha512 (text "ons"))

  abbrev pub write : Message → OnsEventHandler → OnsEventHandler
  write message h = record h { written = h.written ++ (message ∷ []) }

  unfoldable pub subscribe : Bool → OnsEventHandler → OnsEventHandler
  subscribe b h =
      if b then write (subscribing_message (namespace ∷ [])) h else write unsubscribing_message h

  unfoldable pub get_block_delteas : GoString → OnsEventHandler → OnsEventHandler
  get_block_delteas id h = write (get_block_deltas_message id (namespace ∷ [])) h

  -- A case of the `select`, to the end of the turn.
  unfoldable pub run_subscriber : Command → OnsEventHandler → OnsEventHandler
  run_subscriber (subscribing true) h =
      if h.subscribed
      then record h { taken = none }
      else subscribe true (record h { subscribed = true; taken = none })
  run_subscriber (subscribing false) h =
      if h.subscribed
      then subscribe false (record h { subscribed = false; taken = none })
      else record h { taken = none }
  run_subscriber (block_id id) h = get_block_delteas id (record h { taken = none })
  run_subscriber exit_sub h = record h { is_running = false; taken = none }

-- Where `main` is: before `Subscribe(true)`, at the channel of the interrupt, before
-- `Subscribe(false)`, and in `Terminate(true)` before the test of `h.subscirbed`, before its own
-- `Subscribe(false)`, before the send of the exit, and in `Wait`.
pub data Main : Type 0 where
  subscribes : Main
  receives : Main
  unsubscribes : Main
  terminates : Main
  retracts : Main
  exits : Main
  waits : Main
  disconnected : Main

abbrev pub command_of : Main → Option Command
command_of subscribes = some (subscribing true)
command_of receives = none
command_of unsubscribes = some (subscribing false)
command_of terminates = none
command_of retracts = some (subscribing false)
command_of exits = some exit_sub
command_of waits = none
command_of disconnected = none

-- Where `main` goes on once its command is taken.
abbrev pub after_send : Main → Main
after_send subscribes = receives
after_send receives = receives
after_send unsubscribes = terminates
after_send terminates = terminates
after_send retracts = exits
after_send exits = waits
after_send waits = waits
after_send disconnected = disconnected

-- `if h.subscirbed == true { h.Subscribe(false) }`, a read without a lock.
abbrev pub terminate : OnsEventHandler → Main
terminate h = if h.subscribed then retracts else exits

pub record System : Type 0 where
  pub main : Main
  pub handler : OnsEventHandler

abbrev pub hand_over : Command → OnsEventHandler → OnsEventHandler
hand_over c h = record h { taken = some c }

module _ (sha512 : Bytes → Bytes) where
  -- The goroutines that handle events send block ids at any time.
  pub data Step : System → System → Type 0 where
    sent :
        (s : System) (c : Command)
        → s.handler.is_running ≡ true
        → s.handler.taken ≡ none
        → command_of s.main ≡ some c
        → Step s (record { main = after_send s.main; handler = hand_over c s.handler })
    asked :
        (s : System) (id : GoString)
        → s.handler.is_running ≡ true
        → s.handler.taken ≡ none
        → Step s (record s { handler = hand_over (block_id id) s.handler })
    handled :
        (s : System) (c : Command)
        → s.handler.taken ≡ some c
        → Step s (record s { handler = run_subscriber sha512 c s.handler })
    interrupted : (s : System) → s.main ≡ receives → Step s (record s { main = unsubscribes })
    terminated :
        (s : System) → s.main ≡ terminates → Step s (record s { main = terminate s.handler })
    waited :
        (s : System)
        → s.main ≡ waits
        → s.handler.is_running ≡ false
        → Step s (record s { main = disconnected })

  pub data Reach (s : System) : System → Type 0 where
    here : Reach s s
    next : {t u : System} → Reach s t → Step t u → Reach s u

-- The connection is made and the goroutines are started.
abbrev pub launched : OnsEventHandler
launched = record {
  initialized = true;
  subscribed = false;
  is_running = true;
  taken = none;
  written = [];
}

abbrev pub launch : System
launch = record { main = subscribes; handler = launched }
