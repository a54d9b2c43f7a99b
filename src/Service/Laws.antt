-- ===== src/Service/Laws.antt =====
-- The service types in the global state, as a map from addresses.
use ons_sawtooth.Base.Logic.{
  ◌≡◌, ◌≢◌, refl, ◌⊎◌, inl, inr, List, [], ◌∷◌, ◌++◌, Option, none, some, arith,
}
use ons_sawtooth.Base.Text.{GoString, text, Bytes}
use ons_sawtooth.Base.Outcome.{
  Error, invalid_transaction, internal, Reply, success, failure, Outcome, ok, err, Reply-cases,
}
use ons_sawtooth.Proto.State.{ServiceType}
use ons_sawtooth.Sdk.{Sdk, fetch}
use ons_sawtooth.Sdk.Laws.{IsLawful, wire_service_type}
use ons_sawtooth.World.{World}
use ons_sawtooth.Service.{load_service_type, save_service_type, delete_service_type}

module _ (sdk : Sdk) where
  -- What the bytes at an address say of a service type.
  abbrev pub decode_service_type : GoString → Reply Bytes → Outcome (Option ServiceType)
  decode_service_type address (failure e) = err e
  decode_service_type address (success []) = ok none
  decode_service_type address (success (b ∷ bs)) =
      elim (sdk.service_type_codec.unmarshal (b ∷ bs)) [
        | success m ↦ ok (some m)
        | failure _ ↦
            err (invalid_transaction (text "Faied to UnpackServiceType, address: " ++ address))
      ]

  -- The service types as a function of the global state.
  abbrev pub catalog : sdk.Store → GoString → Outcome (Option ServiceType)
  catalog s address = decode_service_type address (fetch sdk address s)

  pub load_service_type-catalog :
      (address : GoString) (w : World sdk.Store)
      → load_service_type sdk address w ≡ (catalog w.store address, w)
  unfolding load_service_type fetch
  load_service_type-catalog address w = ground arith

  pub catalog-readable :
      (s : sdk.Store) (address : GoString) (found : Option ServiceType)
      → catalog s address ≡ ok found
      → (v : Bytes) × (fetch sdk address s ≡ success v)
  catalog-readable s address found was = elim (Reply-cases (fetch sdk address s)) [
    | inl readable ↦ readable
    | inr (e, refused) ↦ absurd (ground (arith, was, refused))
  ]

  -- A call that puts this at an address, and changes the map at no other one.
  pub record Puts (address : GoString) (after : Option ServiceType) (w : World sdk.Store)
      (r : Outcome (Unit {0}) × World sdk.Store) : Type 0 where
    pub succeeds : r.0 ≡ ok tt
    pub now : catalog r.1.store address ≡ ok after
    pub others :
        (other : GoString) → address ≢ other → catalog r.1.store other ≡ catalog w.store other

  -- A call that fails with an error and changes nothing.
  abbrev pub Fails : World sdk.Store → Outcome (Unit {0}) × World sdk.Store → Type 0
  Fails w r = (e : Error) × (r ≡ (err e, w))

module _ (sdk : Sdk) (law : IsLawful sdk) where
  decode_marshalled :
      (a : GoString) (m : ServiceType) (b : Bytes)
      → sdk.service_type_codec.marshal (some m) ≡ success b
      → sdk.service_type_codec.marshal (some m) ≢ success []
      → decode_service_type sdk a (success b) ≡ ok (some (wire_service_type m))
  decode_marshalled a m [] e nonempty = absurd (nonempty e)
  decode_marshalled a m (b ∷ bs) e nonempty =
      rw (law.service_type_round_trips m (b ∷ bs) e, decode_service_type)

  save_replied :
      (a : GoString) (m : ServiceType) (w : World sdk.Store) (b v : Bytes)
      → sdk.service_type_codec.marshal (some m) ≡ success b
      → sdk.service_type_codec.marshal (some m) ≢ success []
      → fetch sdk a w.store ≡ success v
      → (r : Reply (List GoString)) → (sdk.set_state ((a, b) ∷ []) w.store).0 ≡ r
      → Puts sdk a (some (wire_service_type m)) w (save_service_type sdk a (some m) w)
        ⊎ Fails sdk w (save_service_type sdk a (some m) w)
  unfolding save_service_type
  save_replied a m w b v marshals nonempty readable (success []) e =
      inr
        (internal (text "No address in set response"), ground (arith, law.set_nothing a b w.store))
  save_replied a m w b v marshals nonempty readable (success (x ∷ xs)) e =
      let saved : save_service_type sdk a (some m) w
          ≡ (ok tt, record w { store = (sdk.set_state ((a, b) ∷ []) w.store).1 }) =
        ground arith in
      rw saved (
        inl (record {
          succeeds = refl;
          now =
              rw (law.set_writes a b v w.store x xs e readable)
                (decode_marshalled a m b marshals nonempty);
          others = λ other apart. rw (law.set_keeps a other b w.store apart);
        }))
  save_replied a m w b v marshals nonempty readable (failure f) e =
      inr (f, ground (arith, law.set_refused a b w.store f))

  -- With a lawful validator, a save of a service type at an address that can be read, if the message
  -- does not marshal to no bytes at all, puts it there as it stood on the wire and changes nothing
  -- elsewhere, or fails with an error and changes nothing. It never panics.
  pub save_service_type_result :
      (a : GoString) (m : ServiceType) (w : World sdk.Store) (v : Bytes)
      → sdk.service_type_codec.marshal (some m) ≢ success []
      → fetch sdk a w.store ≡ success v
      → Puts sdk a (some (wire_service_type m)) w (save_service_type sdk a (some m) w)
        ⊎ Fails sdk w (save_service_type sdk a (some m) w)
  unfolding save_service_type
  save_service_type_result a m w v nonempty readable =
      elim (Reply-cases (sdk.service_type_codec.marshal (some m))) [
        | inl (b, e) ↦
            save_replied a m w b v e nonempty readable (sdk.set_state ((a, b) ∷ []) w.store).0 refl
        | inr (f, e) ↦
            inr (internal (text "Failed to serialize service type data:" ++ sdk.error_text f), rw e)
      ]

  delete_replied :
      (a : GoString) (w : World sdk.Store) (v : Bytes)
      → fetch sdk a w.store ≡ success v
      → (r : Reply (List GoString)) → (sdk.delete_state (a ∷ []) w.store).0 ≡ r
      → Puts sdk a none w (delete_service_type sdk a w) ⊎ Fails sdk w (delete_service_type sdk a w)
  unfolding delete_service_type
  delete_replied a w v readable (success []) e = inr (
    internal (text "The Service type was not deleted:<nil>"),
    ground (arith, law.delete_nothing a w.store),
  )
  delete_replied a w v readable (success (x ∷ xs)) e =
      let gone : delete_service_type sdk a w
          ≡ (ok tt, record w { store = (sdk.delete_state (a ∷ []) w.store).1 }) =
        ground arith in
      rw gone (
        inl (record {
          succeeds = refl;
          now = rw (law.delete_clears a v w.store x xs e readable);
          others = λ other apart. rw (law.delete_keeps a other w.store apart);
        }))
  delete_replied a w v readable (failure f) e = inr (
    internal (text "Failed to detele service type:" ++ sdk.error_text f),
    ground (arith, law.delete_refused a w.store f),
  )

  -- A deletion clears an address that can be read, or fails and changes nothing.
  pub delete_service_type_result :
      (a : GoString) (w : World sdk.Store) (v : Bytes)
      → fetch sdk a w.store ≡ success v
      → Puts sdk a none w (delete_service_type sdk a w) ⊎ Fails sdk w (delete_service_type sdk a w)
  delete_service_type_result a w v readable =
      delete_replied a w v readable (sdk.delete_state (a ∷ []) w.store).0 refl
