-- ===== src/Sync/Sessions.antt =====
-- What holds in every state that the subscriber and `main` reach.
use ons_sawtooth.Base.Logic.{
  ◌≡◌, refl, true, false, none, some, ap, ◌∙◌, arith, Bool-cases, inl, inr,
}
use ons_sawtooth.Base.Text.{Bytes}
use ons_sawtooth.Base.Outcome.{success}
use ons_sawtooth.Sync.Subscriber.{
  new_ons_event_handler, run, launched, Command, subscribing, block_id, exit_sub, OnsEventHandler,
  run_subscriber, subscribe, get_block_delteas, Main, hand_over, after_send, command_of,
  disconnected, System, Step, sent, asked, handled, interrupted, terminated, waited, Reach, here,
  next, launch,
}
use ons_sawtooth.Sync.Protocol.{
  session, session-append, IsOrderly, sent-wants, sent-has_exited, sent-goes_on,
  terminate-has_exited,
}

-- The launch is what the two calls of `main` leave when the connection is made.
launched-run :
    (h : OnsEventHandler)
    → new_ons_event_handler (success tt) ≡ success h
    → run h ≡ (true, launched)
unfolding new_ons_event_handler run
launched-run h e = ground arith

module _ (sha512 : Bytes → Bytes) where
  -- The messages stay within the protocol, whatever the flag and the command.
  run_subscriber-session :
      (c : Command) (h : OnsEventHandler)
      → session false h.written ≡ some h.subscribed
      → session false (run_subscriber sha512 c h).written
        ≡ some (run_subscriber sha512 c h).subscribed
  unfolding run_subscriber subscribe get_block_delteas
  run_subscriber-session (subscribing true) h e = elim (Bool-cases h.subscribed) [
    | inl on ↦ rw on (e ∙ ap some on)
    | inr off ↦ rw (off, session-append false h.written, e) (rw off refl)
  ]
  run_subscriber-session (subscribing false) h e = elim (Bool-cases h.subscribed) [
    | inl on ↦ rw (on, session-append false h.written, e) (rw on refl)
    | inr off ↦ rw off (e ∙ ap some off)
  ]
  run_subscriber-session (block_id id) h e = rw (session-append false h.written, e) refl
  run_subscriber-session exit_sub h e = e

  handled-IsOrderly :
      (s : System) (c : Command)
      → s.handler.taken ≡ some c
      → IsOrderly s
      → IsOrderly (record s { handler = run_subscriber sha512 c s.handler })
  unfolding run_subscriber subscribe get_block_delteas
  handled-IsOrderly s (subscribing true) e inv = record {
    in_session = run_subscriber-session (subscribing true) s.handler inv.in_session;
    wanted = ground (arith, inv.wanted);
    leaving = ground (arith, inv.leaving);
    idle = λ r. ground arith;
    finished = λ d. ground (arith, inv.finished d);
  }
  handled-IsOrderly s (subscribing false) e inv = record {
    in_session = run_subscriber-session (subscribing false) s.handler inv.in_session;
    wanted = ground (arith, inv.wanted);
    leaving = ground (arith, inv.leaving);
    idle = λ r. ground arith;
    finished = λ d. ground (arith, inv.finished d);
  }
  handled-IsOrderly s (block_id id) e inv = record {
    in_session = run_subscriber-session (block_id id) s.handler inv.in_session;
    wanted = ground (arith, inv.wanted);
    leaving = ground (arith, inv.leaving);
    idle = λ r. refl;
    finished = λ d. ground (arith, inv.finished d);
  }
  handled-IsOrderly s exit_sub e inv = record {
    in_session = inv.in_session;
    wanted = ground (arith, inv.wanted);
    leaving = ground (arith, inv.leaving);
    idle = λ r. refl;
    finished = λ d. refl;
  }

  sent-IsOrderly :
      (main : Main) (h : OnsEventHandler) (c : Command)
      → h.is_running ≡ true
      → h.taken ≡ none
      → command_of main ≡ some c
      → IsOrderly (record { main = main; handler = h })
      → IsOrderly (record { main = after_send main; handler = hand_over c h })
  sent-IsOrderly main h c r e m inv = record {
    in_session = inv.in_session;
    wanted = sent-wants main h c m (ground (arith, inv.wanted));
    leaving = sent-has_exited main h c r m;
    idle = λ q. absurd (ground arith);
    finished = λ d. absurd (sent-goes_on main c m d);
  }

  pub Step-IsOrderly : {s t : System} → Step sha512 s t → IsOrderly s → IsOrderly t
  Step-IsOrderly (sent s c r e m) inv = sent-IsOrderly s.main s.handler c r e m inv
  Step-IsOrderly (asked s id r e) inv = record {
    in_session = inv.in_session;
    wanted = ground (arith, inv.wanted);
    leaving = ground (arith, inv.leaving);
    idle = λ q. absurd (ground arith);
    finished = inv.finished;
  }
  Step-IsOrderly (handled s c e) inv = handled-IsOrderly s c e inv
  Step-IsOrderly (interrupted s m) inv = record {
    in_session = inv.in_session;
    wanted = ground (arith, inv.wanted);
    leaving = ground (arith, inv.leaving);
    idle = inv.idle;
    finished = λ d. absurd (ground arith);
  }
  Step-IsOrderly (terminated s m) inv =
      let (w, x, d) = terminate-has_exited s.handler in
      record {
        in_session = inv.in_session;
        wanted = ground (arith, inv.wanted);
        leaving = ground (arith, inv.leaving);
        idle = inv.idle;
        finished = λ q. absurd (d q);
      }
  Step-IsOrderly (waited s m r) inv = record {
    in_session = inv.in_session;
    wanted = ground (arith, inv.wanted);
    leaving = ground (arith, inv.leaving);
    idle = inv.idle;
    finished = λ d. r;
  }

  pub Reach-IsOrderly : {s t : System} → IsOrderly s → Reach sha512 s t → IsOrderly t
  Reach-IsOrderly inv here = inv
  Reach-IsOrderly inv (next r st) = Step-IsOrderly st (Reach-IsOrderly inv r)

  pub launch-IsOrderly : IsOrderly launch
  unfolding session
  launch-IsOrderly = record {
    in_session = refl;
    wanted = refl;
    leaving = refl;
    idle = λ r. refl;
    finished = λ d. ground arith;
  }

  -- In every state that is reached from the launch, with the block ids that the goroutines ask for
  -- in between at any time, the messages written are a session of the validator's protocol, which
  -- subscribes only when it is not subscribed and ends only a subscription, and the flag of the
  -- handler is whether that session is subscribed.
  pub Reach-session :
      {s : System}
      → Reach sha512 launch s
      → session false s.handler.written ≡ some s.handler.subscribed
  Reach-session r = (Reach-IsOrderly launch-IsOrderly r).in_session

  -- When `main` has come through `Terminate(true)`, in any state that is reached from the launch,
  -- the session that was written has no subscription left, the goroutine has ended, and it has left
  -- no command unhandled.
  pub Reach-disconnected :
      {s : System}
      → Reach sha512 launch s
      → s.main ≡ disconnected
      → (session false s.handler.written ≡ some false)
        × (s.handler.is_running ≡ false)
        × (s.handler.taken ≡ none)
  Reach-disconnected {s} r d =
      let inv = Reach-IsOrderly launch-IsOrderly r in
      let stopped = inv.finished d in
      let nothing = inv.idle stopped in
      (inv.in_session ∙ ap some (ground (arith, inv.wanted)), stopped, nothing)
