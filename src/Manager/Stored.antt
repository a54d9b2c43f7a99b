-- ===== src/Manager/Stored.antt =====
-- The manager message in the global state, under `LoadONSManager` and `SaveONSManager`.
use ons_sawtooth.Base.Logic.{
  ◌≡◌, ◌≢◌, refl, ◌⊎◌, inl, inr, List, [], ◌∷◌, ◌++◌, Option, none, some, arith,
}
use ons_sawtooth.Base.Text.{GoString, text, Bytes}
use ons_sawtooth.Base.Outcome.{
  invalid_transaction, Reply, success, failure, Outcome, ok, err, Reply-cases,
}
use ons_sawtooth.Proto.State.{OnsManager}
use ons_sawtooth.Sdk.{Sdk, fetch}
use ons_sawtooth.Sdk.Laws.{IsLawful, wire_ons_manager}
use ons_sawtooth.World.{World}
use ons_sawtooth.Manager.Storage.{
  ons_manager_address, get_ons_manager_address, load_ons_manager, save_ons_manager,
}

module _ (sdk : Sdk) where
  -- The address variable holds "empty" or the address.
  abbrev pub HasAddress : World sdk.Store → Type 0
  HasAddress w =
      (w.ons_manager_address ≡ text "empty") ⊎ (w.ons_manager_address ≡ ons_manager_address sdk)

  abbrev pub with_address : World sdk.Store → World sdk.Store
  with_address w = record w { ons_manager_address = ons_manager_address sdk }

  get_ons_manager_address_lem :
      (w : World sdk.Store)
      → HasAddress w
      → get_ons_manager_address sdk w ≡ (ok (ons_manager_address sdk), with_address w)
  unfolding get_ons_manager_address
  get_ons_manager_address_lem w (inl e) = ground arith
  get_ons_manager_address_lem w (inr e) = ground arith

  -- What the bytes at the manager's address say.
  abbrev pub decode_ons_manager : Reply Bytes → Outcome (Option OnsManager)
  decode_ons_manager (failure e) = err e
  decode_ons_manager (success []) = ok none
  decode_ons_manager (success (b ∷ bs)) = elim (sdk.ons_manager_codec.unmarshal (b ∷ bs)) [
    | success m ↦ ok (some m)
    | failure _ ↦
        err (
          invalid_transaction (text "Faied to UnpackGS1Code, address: " ++ ons_manager_address sdk))
  ]

  abbrev pub stored_manager : sdk.Store → Outcome (Option OnsManager)
  stored_manager s = decode_ons_manager (fetch sdk (ons_manager_address sdk) s)

  -- `LoadONSManager` gives what the bytes at the manager's address decode to, and changes only the
  -- address variable, if that holds "empty" or the address.
  pub load_ons_manager-stored :
      (w : World sdk.Store)
      → HasAddress w
      → load_ons_manager sdk w ≡ (stored_manager w.store, with_address w)
  unfolding load_ons_manager fetch
  load_ons_manager-stored w h = ground (arith, get_ons_manager_address_lem w h)

module _ (sdk : Sdk) (law : IsLawful sdk) where
  decode_marshalled :
      (m : OnsManager) (b : Bytes)
      → sdk.ons_manager_codec.marshal (some m) ≡ success b
      → sdk.ons_manager_codec.marshal (some m) ≢ success []
      → decode_ons_manager sdk (success b) ≡ ok (some (wire_ons_manager m))
  decode_marshalled m [] e nonempty = absurd (nonempty e)
  decode_marshalled m (b ∷ bs) e nonempty =
      rw (law.ons_manager_round_trips m (b ∷ bs) e, decode_ons_manager)

  written :
      (requestor : GoString) (m : OnsManager) (w : World sdk.Store) (b v : Bytes)
      → HasAddress sdk w
      → sdk.ons_manager_codec.marshal (some m) ≡ success b
      → fetch sdk (ons_manager_address sdk) w.store ≡ success v
      → (r : Reply (List GoString))
      → (sdk.set_state ((ons_manager_address sdk, b) ∷ []) w.store).0 ≡ r
      → (save_ons_manager sdk requestor m w).0 ≡ ok tt
      → fetch sdk (ons_manager_address sdk) (save_ons_manager sdk requestor m w).1.store ≡ success b
  unfolding save_ons_manager
  written requestor m w b v h marshals readable (failure e) replied done =
      absurd (ground (arith, get_ons_manager_address_lem sdk w h))
  written requestor m w b v h marshals readable (success []) replied done =
      absurd (ground (arith, get_ons_manager_address_lem sdk w h))
  written requestor m w b v h marshals readable (success (x ∷ xs)) replied done = ground (
    arith,
    get_ons_manager_address_lem sdk w h,
    law.set_writes (ons_manager_address sdk) b v w.store x xs replied readable,
  )

  save_needs_marshal :
      (requestor : GoString) (m : OnsManager) (w : World sdk.Store)
      → HasAddress sdk w
      → (save_ons_manager sdk requestor m w).0 ≡ ok tt
      → (b : Bytes) × (sdk.ons_manager_codec.marshal (some m) ≡ success b)
  unfolding save_ons_manager
  save_needs_marshal requestor m w h done =
      elim (Reply-cases (sdk.ons_manager_codec.marshal (some m))) [
        | inl marshals ↦ marshals
        | inr (e, failed) ↦ absurd (ground (arith, get_ons_manager_address_lem sdk w h))
      ]

  -- With a lawful validator, after a successful save the stored message is the one that was saved,
  -- as it stood on the wire, if the address could be read before, the message does not marshal to
  -- no bytes at all, and the address variable holds "empty" or the address.
  pub stored_manager-save_ons_manager :
      (requestor : GoString) (m : OnsManager) (w : World sdk.Store) (v : Bytes)
      → HasAddress sdk w
      → (save_ons_manager sdk requestor m w).0 ≡ ok tt
      → fetch sdk (ons_manager_address sdk) w.store ≡ success v
      → sdk.ons_manager_codec.marshal (some m) ≢ success []
      → stored_manager sdk (save_ons_manager sdk requestor m w).1.store
        ≡ ok (some (wire_ons_manager m))
  stored_manager-save_ons_manager requestor m w v h done readable nonempty =
      let (b, marshals) = save_needs_marshal requestor m w h done in
      rw
        (written requestor m w b v h marshals readable
          (sdk.set_state ((ons_manager_address sdk, b) ∷ []) w.store).0 refl done)
        (decode_marshalled m b marshals nonempty)
