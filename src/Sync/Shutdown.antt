-- ===== src/Sync/Shutdown.antt =====
-- The way from any state of the subscriber and `main` to the end of `Terminate(true)`.
use ons_sawtooth.Base.Logic.{
  ◌≡◌, ◌⊎◌, refl, subst, sym, true, false, Bool-cases, inl, inr, none, some, Option-cases, arith,
}
use ons_sawtooth.Base.Text.{Bytes}
use ons_sawtooth.Sync.Subscriber.{
  Command, subscribing, block_id, exit_sub, OnsEventHandler, run_subscriber, subscribe,
  get_block_delteas, Main, subscribes, receives, unsubscribes, terminates, retracts, exits, waits,
  disconnected, terminate, hand_over, command_of, after_send, System, Step, sent, handled,
  interrupted, terminated, waited, Reach, here, next, launch,
}
use ons_sawtooth.Sync.Protocol.{IsOrderly, has_exited}
use ons_sawtooth.Sync.Sessions.{Step-IsOrderly, Reach-IsOrderly, launch-IsOrderly}

module _ (sha512 : Bytes → Bytes) where
  then_reach : {s t u : System} → Reach sha512 s t → Reach sha512 t u → Reach sha512 s u
  then_reach r here = r
  then_reach r (next q st) = next (then_reach r q) st

  abbrev Ends : System → Type 0
  Ends s = (t : System) × Reach sha512 s t × (t.main ≡ disconnected)

  Step-then : {s t : System} → Step sha512 s t → Ends t → Ends s
  Step-then st (u, r, d) = (u, then_reach (next here st) r, d)

  run_subscriber-taken :
      (c : Command) (h : OnsEventHandler) → (run_subscriber sha512 c h).taken ≡ none
  unfolding run_subscriber subscribe get_block_delteas
  run_subscriber-taken (subscribing true) h = ground arith
  run_subscriber-taken (subscribing false) h = ground arith
  run_subscriber-taken (block_id id) h = refl
  run_subscriber-taken exit_sub h = refl

  -- What is taken is handled before anything else is done.
  settled :
      (main : Main)
      → ((h : OnsEventHandler)
          → h.taken ≡ none
          → IsOrderly (record { main = main; handler = h })
          → Ends (record { main = main; handler = h }))
      → (h : OnsEventHandler) → IsOrderly (record { main = main; handler = h })
      → Ends (record { main = main; handler = h })
  settled main go h inv = elim (Option-cases h.taken) [
    | inl nothing ↦ go h nothing inv
    | inr (c, some_c) ↦
        let st = handled (record { main = main; handler = h }) c some_c in
        Step-then st
          (go (run_subscriber sha512 c h) (run_subscriber-taken c h) (Step-IsOrderly sha512 st inv))
  ]

  -- A command is handed over, and the rest follows.
  handed :
      (main : Main) (c : Command)
      → command_of main ≡ some c
      → has_exited main ≡ false
      → ((h : OnsEventHandler)
          → IsOrderly (record { main = after_send main; handler = h })
          → Ends (record { main = after_send main; handler = h }))
      → (h : OnsEventHandler) → h.taken ≡ none
      → IsOrderly (record { main = main; handler = h })
      → Ends (record { main = main; handler = h })
  handed main c m early go h nothing inv =
      let st =
        sent (record { main = main; handler = h }) c (ground (arith, inv.leaving)) nothing m in
      Step-then st (go (hand_over c h) (Step-IsOrderly sha512 st inv))

  abbrev EndsFrom : Main → Type 0
  EndsFrom main =
      (h : OnsEventHandler)
      → IsOrderly (record { main = main; handler = h })
      → Ends (record { main = main; handler = h })

  waits-EndsFrom : EndsFrom waits
  waits-EndsFrom = settled waits (λ h nothing inv.
      let st = waited (record { main = waits; handler = h }) refl (ground (arith, inv.leaving)) in
      (record { main = disconnected; handler = h }, next here st, refl))

  exits-EndsFrom : EndsFrom exits
  exits-EndsFrom = settled exits (handed exits exit_sub refl refl waits-EndsFrom)

  retracts-EndsFrom : EndsFrom retracts
  retracts-EndsFrom =
      settled retracts (handed retracts (subscribing false) refl refl exits-EndsFrom)

  terminate-cases : (h : OnsEventHandler) → (terminate h ≡ retracts) ⊎ (terminate h ≡ exits)
  terminate-cases h = elim (Bool-cases h.subscribed) [
    | inl on ↦ inl (rw on refl)
    | inr off ↦ inr (rw off refl)
  ]

  terminate-EndsFrom : (main : Main) → (main ≡ retracts) ⊎ (main ≡ exits) → EndsFrom main
  terminate-EndsFrom main (inl e) = subst EndsFrom (sym e) retracts-EndsFrom
  terminate-EndsFrom main (inr e) = subst EndsFrom (sym e) exits-EndsFrom

  terminates-EndsFrom : EndsFrom terminates
  terminates-EndsFrom h inv =
      let st = terminated (record { main = terminates; handler = h }) refl in
      Step-then st
        (terminate-EndsFrom (terminate h) (terminate-cases h) h (Step-IsOrderly sha512 st inv))

  unsubscribes-EndsFrom : EndsFrom unsubscribes
  unsubscribes-EndsFrom =
      settled unsubscribes (handed unsubscribes (subscribing false) refl refl terminates-EndsFrom)

  receives-EndsFrom : EndsFrom receives
  receives-EndsFrom h inv =
      let st = interrupted (record { main = receives; handler = h }) refl in
      Step-then st (unsubscribes-EndsFrom h (Step-IsOrderly sha512 st inv))

  subscribes-EndsFrom : EndsFrom subscribes
  subscribes-EndsFrom =
      settled subscribes (handed subscribes (subscribing true) refl refl receives-EndsFrom)

  ends : (main : Main) → EndsFrom main
  ends subscribes = subscribes-EndsFrom
  ends receives = receives-EndsFrom
  ends unsubscribes = unsubscribes-EndsFrom
  ends terminates = terminates-EndsFrom
  ends retracts = retracts-EndsFrom
  ends exits = exits-EndsFrom
  ends waits = waits-EndsFrom
  ends disconnected = λ h inv. (record { main = disconnected; handler = h }, here, refl)

  -- No deadlock: from every state that is reached from the launch there are steps that bring `main`
  -- through `Terminate(true)`.
  pub Reach-ends :
      {s : System}
      → Reach sha512 launch s
      → (t : System) × Reach sha512 s t × (t.main ≡ disconnected)
  Reach-ends {s} r = ends s.main s.handler (Reach-IsOrderly sha512 (launch-IsOrderly sha512) r)
