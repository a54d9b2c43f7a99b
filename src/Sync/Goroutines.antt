-- ===== src/Sync/Goroutines.antt =====
-- The goroutines that `runReceiveEvents` of src/ons_sync/handler.go starts, one for each event, as
-- they take turns: one call of getCurrentLatestONSEvent, one walk of the block ids, or one state
-- change.
use ons_sawtooth.Base.Logic.{◌≡◌, List, [], ◌∷◌, ◌++◌, Bool, true, false}
use ons_sawtooth.Base.Text.{GoString}
use ons_sawtooth.Base.Dict.{Dict}
use ons_sawtooth.Base.Outcome.{ok, pure, ◌>>=◌, ◌>>◌}
use ons_sawtooth.Sdk.{Sdk}
use ons_sawtooth.Sync.Database.{Database}
use ons_sawtooth.Sync.Mirror.{OnsEvent, Mirror, Job}
use ons_sawtooth.Sync.Events.{
  Feed, get_current_latest_ons_event, ask_for_previous, update_state_change,
}

-- Where a goroutine is in `UpdateOnsEvent`, and the state changes that it has not looked at.
pub data Goroutine : Type 0 where
  starts : OnsEvent → Goroutine
  asks : OnsEvent → Goroutine
  writes : OnsEvent → List (Dict GoString) → Goroutine

-- How the loop goes on after its body.
abbrev pub go_on : OnsEvent → List (Dict GoString) → Bool → Goroutine
go_on event states true = writes event states
go_on event states false = writes event []

module _ (sdk : Sdk) (base : Database) (feed : Feed) where
  unfoldable pub turn : Goroutine → Job base Goroutine
  turn (starts event) = do
    latest ← get_current_latest_ons_event sdk base feed event
    pure (asks event)
  turn (asks event) = do
    ask_for_previous sdk base feed event
    pure (writes event event.state_changes)
  turn (writes event []) = pure (writes event [])
  turn (writes event (state ∷ states)) = do
    goes_on ← update_state_change sdk base feed event state
    pure (go_on event states goes_on)

  pub record Pool : Type 0 where
    pub goroutines : List Goroutine
    pub mirror : Mirror base.Db

  -- Any goroutine may have the next turn. Only a turn that comes back counts: a schedule is a run
  -- without a panic, which would end the program, and a goroutine whose send nobody takes stays where
  -- it is.
  pub data Turn (p q : Pool) : Type 0 where
    taken :
        (before after : List Goroutine) (g g' : Goroutine) (m : Mirror base.Db)
        → p.goroutines ≡ before ++ (g ∷ after)
        → turn g p.mirror ≡ (ok g', m)
        → q ≡ record { goroutines = before ++ (g' ∷ after); mirror = m }
        → Turn p q

  pub data Schedule (p : Pool) : Pool → Type 0 where
    here : Schedule p p
    next : {q r : Pool} → Schedule p q → Turn q r → Schedule p r
