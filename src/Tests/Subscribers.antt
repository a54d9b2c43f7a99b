-- ===== src/Tests/Subscribers.antt =====
-- A run of the subscriber: it subscribes, a goroutine asks for a block, and the program is
-- interrupted.
use ons_sawtooth.Base.Logic.{◌≡◌, refl, none, some, true, false}
use ons_sawtooth.Base.Text.{text}
use ons_sawtooth.Sync.Subscriber.{
  subscribing, block_id, exit_sub, run_subscriber, subscribe, get_block_delteas, hand_over,
  after_send, terminate, unsubscribes, disconnected, System, sent, asked, handled, interrupted,
  terminated, waited, Reach, here, next, launch,
}
use ons_sawtooth.Sync.Protocol.{session}
use ons_sawtooth.Sync.Sessions.{Reach-session, Reach-disconnected}
use ons_sawtooth.Sync.Shutdown.{Reach-ends}
use ons_sawtooth.Tests.Ledger.{digest}

abbrev taken_state : System
taken_state = record {
  main = after_send launch.main;
  handler = hand_over (subscribing true) launch.handler;
}

abbrev subscribed_state : System
subscribed_state = record taken_state {
  handler = run_subscriber digest (subscribing true) taken_state.handler;
}

abbrev asked_for_state : System
asked_for_state = record subscribed_state {
  handler = hand_over (block_id (text "b7")) subscribed_state.handler;
}

abbrev answered_state : System
answered_state = record asked_for_state {
  handler = run_subscriber digest (block_id (text "b7")) asked_for_state.handler;
}

abbrev stopped_state : System
stopped_state = record answered_state { main = unsubscribes }

abbrev ending_state : System
ending_state = record {
  main = after_send stopped_state.main;
  handler = hand_over (subscribing false) stopped_state.handler;
}

abbrev unsubscribed_state : System
unsubscribed_state = record ending_state {
  handler = run_subscriber digest (subscribing false) ending_state.handler;
}

abbrev terminating_state : System
terminating_state = record unsubscribed_state { main = terminate unsubscribed_state.handler }

abbrev exiting_state : System
exiting_state = record {
  main = after_send terminating_state.main;
  handler = hand_over exit_sub terminating_state.handler;
}

abbrev exited_state : System
exited_state = record exiting_state {
  handler = run_subscriber digest exit_sub exiting_state.handler;
}

abbrev ended_state : System
ended_state = record exited_state { main = disconnected }

taken : Reach digest launch taken_state
unfolding run_subscriber subscribe get_block_delteas
taken = next here (sent launch (subscribing true) refl refl refl)

subscribed : Reach digest launch subscribed_state
unfolding run_subscriber subscribe get_block_delteas
subscribed = next taken (handled taken_state (subscribing true) refl)

asked_for : Reach digest launch asked_for_state
unfolding run_subscriber subscribe get_block_delteas
asked_for = next subscribed (asked subscribed_state (text "b7") refl refl)

answered : Reach digest launch answered_state
unfolding run_subscriber subscribe get_block_delteas
answered = next asked_for (handled asked_for_state (block_id (text "b7")) refl)

stopped : Reach digest launch stopped_state
unfolding run_subscriber subscribe get_block_delteas
stopped = next answered (interrupted answered_state refl)

ending : Reach digest launch ending_state
unfolding run_subscriber subscribe get_block_delteas
ending = next stopped (sent stopped_state (subscribing false) refl refl refl)

unsubscribed : Reach digest launch unsubscribed_state
unfolding run_subscriber subscribe get_block_delteas
unsubscribed = next ending (handled ending_state (subscribing false) refl)

terminating : Reach digest launch terminating_state
unfolding run_subscriber subscribe get_block_delteas
terminating = next unsubscribed (terminated unsubscribed_state refl)

exiting : Reach digest launch exiting_state
unfolding run_subscriber subscribe get_block_delteas
exiting = next terminating (sent terminating_state exit_sub refl refl refl)

exited : Reach digest launch exited_state
unfolding run_subscriber subscribe get_block_delteas
exited = next exiting (handled exiting_state exit_sub refl)

ended : Reach digest launch ended_state
unfolding run_subscriber subscribe get_block_delteas
ended = next exited (waited exited_state refl refl)

Reach-session_example :
    session false answered_state.handler.written ≡ some answered_state.handler.subscribed
Reach-session_example = Reach-session digest answered

ended_disconnected : ended_state.main ≡ disconnected
ended_disconnected = refl

Reach-disconnected_example :
    (session false ended_state.handler.written ≡ some false)
    × (ended_state.handler.is_running ≡ false)
    × (ended_state.handler.taken ≡ none)
Reach-disconnected_example = Reach-disconnected digest ended ended_disconnected

Reach-ends_example : (t : System) × Reach digest answered_state t × (t.main ≡ disconnected)
Reach-ends_example = Reach-ends digest answered
