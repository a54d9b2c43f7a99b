-- ===== src/Sync/Protocol.antt =====
-- The validator's protocol, and what holds of the subscriber and `main` between the steps.
use ons_sawtooth.Base.Logic.{
  ◌≡◌, refl, List, [], ◌∷◌, ◌++◌, Bool, true, false, not, ◌||◌, Option, none, some, ◌≢◌, subst,
  Option-cases, arith, Bool-cases, inl, inr,
}
use ons_sawtooth.Sync.Subscriber.{
  Command, subscribing, block_id, exit_sub, Message, subscribing_message, unsubscribing_message,
  get_block_deltas_message, OnsEventHandler, Main, after_send, command_of, subscribes, receives,
  unsubscribes, terminates, retracts, exits, waits, disconnected, System, terminate,
}

-- The validator's side of a connection: whether it is subscribed after a message. A second
-- subscription, or an end to none, is against the protocol.
abbrev pub session_step : Message → Bool → Option Bool
session_step (subscribing_message prefixes) true = none
session_step (subscribing_message prefixes) false = some true
session_step unsubscribing_message true = some false
session_step unsubscribing_message false = none
session_step (get_block_deltas_message id prefixes) b = some b

unfoldable pub session : Bool → List Message → Option Bool
session b [] = some b
session b (message ∷ messages) = elim (session_step message b) [
  | none ↦ none
  | some b' ↦ session b' messages
]

pub session-append :
    (b : Bool) (messages : List Message) (message : Message)
    → session b (messages ++ (message ∷ []))
      ≡ elim (session b messages) [ none ↦ none | some b' ↦ session_step message b' ]
unfolding session
session-append b [] message = ground arith
session-append b (first ∷ messages) message = elim (Option-cases (session_step first b)) [
  | inl refused ↦ rw (refused, session)
  | inr (b', taken) ↦ rw (taken, session) (session-append b' messages message)
]

-- What the flag will be when the command at hand is handled.
abbrev pub flag_of : OnsEventHandler → Option Command → Bool
flag_of h none = h.subscribed
flag_of h (some (subscribing b)) = b
flag_of h (some (block_id id)) = h.subscribed
flag_of h (some exit_sub) = h.subscribed

abbrev pub takes_exit : Option Command → Bool
takes_exit none = false
takes_exit (some (subscribing b)) = false
takes_exit (some (block_id id)) = false
takes_exit (some exit_sub) = true

abbrev pub wants : Main → Bool
wants subscribes = false
wants receives = true
wants unsubscribes = true
wants terminates = false
wants retracts = false
wants exits = false
wants waits = false
wants disconnected = false

abbrev pub has_exited : Main → Bool
has_exited subscribes = false
has_exited receives = false
has_exited unsubscribes = false
has_exited terminates = false
has_exited retracts = false
has_exited exits = false
has_exited waits = true
has_exited disconnected = true

pub record IsOrderly (s : System) : Type 0 where
  pub in_session : session false s.handler.written ≡ some s.handler.subscribed
  pub wanted : flag_of s.handler s.handler.taken ≡ wants s.main
  pub leaving : (takes_exit s.handler.taken || not s.handler.is_running) ≡ has_exited s.main
  pub idle : s.handler.is_running ≡ false → s.handler.taken ≡ none
  pub finished : s.main ≡ disconnected → s.handler.is_running ≡ false

pub sent-wants :
    (main : Main) (h : OnsEventHandler) (c : Command)
    → command_of main ≡ some c
    → h.subscribed ≡ wants main
    → flag_of h (some c) ≡ wants (after_send main)
sent-wants subscribes h c m w = subst (λ o. flag_of h o ≡ true) m refl
sent-wants unsubscribes h c m w = subst (λ o. flag_of h o ≡ false) m refl
sent-wants retracts h c m w = subst (λ o. flag_of h o ≡ false) m refl
sent-wants exits h c m w = subst (λ o. flag_of h o ≡ false) m w
sent-wants receives h c m w = absurd (ground arith)
sent-wants terminates h c m w = absurd (ground arith)
sent-wants waits h c m w = absurd (ground arith)
sent-wants disconnected h c m w = absurd (ground arith)

pub sent-has_exited :
    (main : Main) (h : OnsEventHandler) (c : Command)
    → h.is_running ≡ true
    → command_of main ≡ some c
    → (takes_exit (some c) || not h.is_running) ≡ has_exited (after_send main)
sent-has_exited subscribes h c r m =
    subst (λ o. (takes_exit o || not h.is_running) ≡ false) m (rw r refl)
sent-has_exited unsubscribes h c r m =
    subst (λ o. (takes_exit o || not h.is_running) ≡ false) m (rw r refl)
sent-has_exited retracts h c r m =
    subst (λ o. (takes_exit o || not h.is_running) ≡ false) m (rw r refl)
sent-has_exited exits h c r m = subst (λ o. (takes_exit o || not h.is_running) ≡ true) m refl
sent-has_exited receives h c r m = absurd (ground arith)
sent-has_exited terminates h c r m = absurd (ground arith)
sent-has_exited waits h c r m = absurd (ground arith)
sent-has_exited disconnected h c r m = absurd (ground arith)

pub sent-goes_on :
    (main : Main) (c : Command) → command_of main ≡ some c → after_send main ≢ disconnected
sent-goes_on disconnected c m d = absurd (ground arith)
sent-goes_on subscribes c m d = absurd (ground arith)
sent-goes_on unsubscribes c m d = absurd (ground arith)
sent-goes_on retracts c m d = absurd (ground arith)
sent-goes_on exits c m d = absurd (ground arith)
sent-goes_on receives c m d = absurd (ground arith)
sent-goes_on terminates c m d = absurd (ground arith)
sent-goes_on waits c m d = absurd (ground arith)

-- Either way the connection is on its way to be given up.
pub terminate-has_exited :
    (h : OnsEventHandler)
    → (wants (terminate h) ≡ false)
      × (has_exited (terminate h) ≡ false)
      × (terminate h ≢ disconnected)
terminate-has_exited h = elim (Bool-cases h.subscribed) [
  | inl on ↦ rw on (refl, refl, λ d. ground arith)
  | inr off ↦ rw off (refl, refl, λ d. ground arith)
]
