-- ===== src/Registry/Laws.antt =====
-- The registry of GS1 codes as a function of the global state, and how the operations of
-- ons_state.go change it.
use ons_sawtooth.Base.Logic.{
  ◌≡◌, ◌≢◌, refl, ◌⊎◌, inl, inr, ap, List, [], ◌∷◌, ◌++◌, Option, none, some, arith,
}
use ons_sawtooth.Base.Text.{GoString, text, Bytes}
use ons_sawtooth.Base.Outcome.{
  Error, invalid_transaction, internal, Reply, success, failure, Reply-cases, Outcome, ok, err,
}
use ons_sawtooth.Proto.State.{Gs1CodeData}
use ons_sawtooth.Sdk.{Sdk, fetch}
use ons_sawtooth.Sdk.Laws.{IsLawful, wire_gs1_code}
use ons_sawtooth.World.{World}
use ons_sawtooth.Address.{make_address}
use ons_sawtooth.Registry.{load_gs1_code, save_gs1_code, delete_gs1_code}

module _ (sdk : Sdk) where
  abbrev pub address_of : GoString → GoString
  address_of = make_address sdk.sha512

  -- What the bytes at an address say of a code: the reference that `LoadGS1Code` is held to.
  abbrev pub decode_gs1_code : GoString → Reply Bytes → Outcome (Option Gs1CodeData)
  decode_gs1_code address (failure e) = err e
  decode_gs1_code address (success []) = ok none
  decode_gs1_code address (success (b ∷ bs)) = elim (sdk.gs1_code_codec.unmarshal (b ∷ bs)) [
    | success m ↦ ok (some m)
    | failure _ ↦ err (invalid_transaction (text "Faied to UnpackGS1Code, address: " ++ address))
  ]

  -- The registry as a function of the global state.
  abbrev pub registry : sdk.Store → GoString → Outcome (Option Gs1CodeData)
  registry s gs1_code = decode_gs1_code (address_of gs1_code) (fetch sdk (address_of gs1_code) s)

  -- `LoadGS1Code` reads the registry and changes nothing.
  pub load_gs1_code-registry :
      (gs1_code : GoString) (w : World sdk.Store)
      → load_gs1_code sdk gs1_code w ≡ (registry w.store gs1_code, w)
  unfolding load_gs1_code fetch
  load_gs1_code-registry gs1_code w = ground arith

  -- A save that has gone through: what was written, and that nothing else of the world changed.
  pub record Saved (m : Gs1CodeData) (w : World sdk.Store) : Type 0 where
    pub bytes : Bytes
    pub marshals : sdk.gs1_code_codec.marshal (some m) ≡ success bytes
    pub named : GoString
    pub others : List GoString
    pub replied :
        (sdk.set_state ((address_of m.gs1_code, bytes) ∷ []) w.store).0 ≡ success (named ∷ others)
    pub result : save_gs1_code sdk m w ≡ (
      ok tt,
      record w { store = (sdk.set_state ((address_of m.gs1_code, bytes) ∷ []) w.store).1 },
    )

module _ (sdk : Sdk) (law : IsLawful sdk) where
  save_replied :
      (m : Gs1CodeData) (w : World sdk.Store) (b : Bytes)
      → sdk.gs1_code_codec.marshal (some m) ≡ success b
      → (r : Reply (List GoString))
      → (sdk.set_state ((address_of sdk m.gs1_code, b) ∷ []) w.store).0 ≡ r
      → Saved sdk m w ⊎ ((e : Error) × (save_gs1_code sdk m w ≡ (err e, w)))
  unfolding save_gs1_code
  save_replied m w b marshals (success []) e = inr (
    internal (text "No addresses in set response"),
    ground (arith, law.set_nothing (address_of sdk m.gs1_code) b w.store),
  )
  save_replied m w b marshals (success (x ∷ xs)) e = inl (record {
    bytes = b;
    marshals = marshals;
    named = x;
    others = xs;
    replied = e;
    result = ground arith;
  })
  save_replied m w b marshals (failure f) e =
      inr (f, ground (arith, law.set_refused (address_of sdk m.gs1_code) b w.store f))

  -- A save goes through, or fails and leaves the world as it was. It never panics.
  pub save_gs1_code-cases :
      (m : Gs1CodeData) (w : World sdk.Store)
      → Saved sdk m w ⊎ ((e : Error) × (save_gs1_code sdk m w ≡ (err e, w)))
  unfolding save_gs1_code
  save_gs1_code-cases m w = elim (Reply-cases (sdk.gs1_code_codec.marshal (some m))) [
    | inl (b, e) ↦
        save_replied m w b e (sdk.set_state ((address_of sdk m.gs1_code, b) ∷ []) w.store).0 refl
    | inr (f, e) ↦
        inr (internal (text "Failed to serialize GS1 Code data:" ++ sdk.error_text f), rw e)
  ]

  decode_marshalled :
      (a : GoString) (m : Gs1CodeData) (b : Bytes)
      → sdk.gs1_code_codec.marshal (some m) ≡ success b
      → sdk.gs1_code_codec.marshal (some m) ≢ success []
      → decode_gs1_code sdk a (success b) ≡ ok (some (wire_gs1_code m))
  decode_marshalled a m [] e nonempty = absurd (nonempty e)
  decode_marshalled a m (b ∷ bs) e nonempty =
      rw (law.gs1_code_round_trips m (b ∷ bs) e, decode_gs1_code)

  -- What a save has written is in the registry.
  pub Saved-registry :
      (m : Gs1CodeData) (w : World sdk.Store) (s : Saved sdk m w) (v : Bytes)
      → fetch sdk (address_of sdk m.gs1_code) w.store ≡ success v
      → sdk.gs1_code_codec.marshal (some m) ≢ success []
      → registry sdk (save_gs1_code sdk m w).1.store m.gs1_code ≡ ok (some (wire_gs1_code m))
  Saved-registry m w s v readable nonempty =
      let a = address_of sdk m.gs1_code in
      rw (s.result, law.set_writes a s.bytes v w.store s.named s.others s.replied readable)
        (decode_marshalled a m s.bytes s.marshals nonempty)

  -- With a lawful validator, what a successful save has stored is loaded again, as it stood on the
  -- wire, if the address could be read before the save and the message does not marshal to no bytes
  -- at all.
  pub load_gs1_code-save_gs1_code :
      (m : Gs1CodeData) (w : World sdk.Store) (v : Bytes)
      → (save_gs1_code sdk m w).0 ≡ ok tt
      → fetch sdk (address_of sdk m.gs1_code) w.store ≡ success v
      → sdk.gs1_code_codec.marshal (some m) ≢ success []
      → (load_gs1_code sdk m.gs1_code (save_gs1_code sdk m w).1).0 ≡ ok (some (wire_gs1_code m))
  load_gs1_code-save_gs1_code m w v done readable nonempty =
      rw (load_gs1_code-registry sdk m.gs1_code (save_gs1_code sdk m w).1)
        (elim (save_gs1_code-cases m w) [
          | inl s ↦ Saved-registry m w s v readable nonempty
          | inr (e, failed) ↦ absurd (ground (arith, done, failed))
        ])

  -- With a lawful validator, a save, successful or not, leaves what the ledger holds at every other
  -- address.
  pub save_gs1_code_others :
      (m : Gs1CodeData) (a : GoString) (w : World sdk.Store)
      → address_of sdk m.gs1_code ≢ a
      → fetch sdk a (save_gs1_code sdk m w).1.store ≡ fetch sdk a w.store
  save_gs1_code_others m a w apart = elim (save_gs1_code-cases m w) [
    | inl s ↦ rw (s.result, law.set_keeps (address_of sdk m.gs1_code) a s.bytes w.store apart)
    | inr (e, failed) ↦ rw failed
  ]

  delete_replied :
      (gs1_code : GoString) (w : World sdk.Store) (r : Reply (List GoString))
      → (sdk.delete_state (address_of sdk gs1_code ∷ []) w.store).0 ≡ r
      → ((x : GoString) × (xs : List GoString) × (r ≡ success (x ∷ xs))
          × (delete_gs1_code sdk gs1_code w ≡ (
            ok tt,
            record w { store = (sdk.delete_state (address_of sdk gs1_code ∷ []) w.store).1 },
          )))
        ⊎ ((e : Error) × (delete_gs1_code sdk gs1_code w ≡ (err e, w)))
  unfolding delete_gs1_code
  delete_replied gs1_code w (success []) e = inr (
    internal (text "GS1 Code data was not deleted:<nil>"),
    ground (arith, law.delete_nothing (address_of sdk gs1_code) w.store),
  )
  delete_replied gs1_code w (success (x ∷ xs)) e = inl (x, xs, refl, ground arith)
  delete_replied gs1_code w (failure f) e = inr (
    internal (text "Failed to detele GS1 Code data:" ++ sdk.error_text f),
    ground (arith, law.delete_refused (address_of sdk gs1_code) w.store f),
  )

  -- After a successful deletion the code is not in the registry; a failed one leaves the world as
  -- it was.
  pub delete_gs1_code-cases :
      (gs1_code : GoString) (w : World sdk.Store) (v : Bytes)
      → fetch sdk (address_of sdk gs1_code) w.store ≡ success v
      → (((delete_gs1_code sdk gs1_code w).0 ≡ ok tt)
          × (registry sdk (delete_gs1_code sdk gs1_code w).1.store gs1_code ≡ ok none))
        ⊎ ((e : Error) × (delete_gs1_code sdk gs1_code w ≡ (err e, w)))
  delete_gs1_code-cases gs1_code w v readable =
      let a = address_of sdk gs1_code in
      elim (delete_replied gs1_code w (sdk.delete_state (a ∷ []) w.store).0 refl) [
        | inl (x, xs, replied, result) ↦
            inl (
              ap (λ r. r.0) result,
              rw (result, law.delete_clears a v w.store x xs replied readable),
            )
        | inr failed ↦ inr failed
      ]

  pub delete_gs1_code_others :
      (gs1_code other : GoString) (w : World sdk.Store)
      → address_of sdk gs1_code ≢ other
      → fetch sdk other (delete_gs1_code sdk gs1_code w).1.store ≡ fetch sdk other w.store
  delete_gs1_code_others gs1_code other w apart =
      let a = address_of sdk gs1_code in
      elim (delete_replied gs1_code w (sdk.delete_state (a ∷ []) w.store).0 refl) [
        | inl (x, xs, replied, result) ↦ rw (result, law.delete_keeps a other w.store apart)
        | inr (e, failed) ↦ rw failed
      ]

-- What is found at an address could be read there.
pub registry-readable :
    (sdk : Sdk) (s : sdk.Store) (gs1_code : GoString) (found : Option Gs1CodeData)
    → registry sdk s gs1_code ≡ ok found
    → (v : Bytes) × (fetch sdk (address_of sdk gs1_code) s ≡ success v)
registry-readable sdk s gs1_code found e =
    elim (Reply-cases (fetch sdk (address_of sdk gs1_code) s)) [
      | inl readable ↦ readable
      | inr (f, unreadable) ↦ absurd (ground arith)
    ]
