-- ===== src/Manager/Coherence.antt =====
-- When the two maps of the cache agree with the lists of the cached message; adding a manager.
use ons_sawtooth.Base.Logic.{
  ◌≡◌, ◌≢◌, refl, sym, subst, Bool, true, false, Bool-cases, Option, none, some, inl, inr, arith,
}
use ons_sawtooth.Base.Text.{GoString}
use ons_sawtooth.Base.Slice.{elements}
use ons_sawtooth.Base.Dict.{Dict, lookup, insert, lookup-insert}
use ons_sawtooth.Base.Outcome.{panic}
use ons_sawtooth.Proto.State.{OnsManager, OnsGs1CodeManager}
use ons_sawtooth.Sdk.{Sdk}
use ons_sawtooth.World.{World, Call}
use ons_sawtooth.Manager.Storage.{save_ons_manager}
use ons_sawtooth.Manager.Cache.{lookup_map}
use ons_sawtooth.Manager.Edit.{is_value, put_manager, save_current, add_gs1_code_manager}
use ons_sawtooth.Manager.Find.{find, IsUnique}
use ons_sawtooth.Manager.Put.{
  code_key, address_key, managed_by, managed_by-put_manager, put_manager-IsUnique,
}

abbrev pub su_found : Option OnsGs1CodeManager → Option Bool
su_found none = none
su_found (some _) = some true

-- The variables of the package that hold the cache.
pub record Cache : Type 0 where
  pub ons_manager : OnsManager
  pub managers : Option (Dict GoString)
  pub sumanagers : Option (Dict Bool)
  pub loaded : Bool

abbrev pub cache_of : {Store : Type 0} → World Store → Cache
cache_of w = record {
  ons_manager = w.ons_manager;
  managers = w.cached_ons_managers;
  sumanagers = w.cached_ons_sumanagers;
  loaded = w.state_cached;
}

-- A loaded cache whose maps exist and agree with the message, in which no code and no super
-- manager stands twice.
pub record IsCoherent (c : Cache) : Type 0 where
  pub is_loaded : c.loaded ≡ true
  pub code_map : Dict GoString
  pub has_code_map : c.managers ≡ some code_map
  pub su_map : Dict Bool
  pub has_su_map : c.sumanagers ≡ some su_map
  pub codes :
      (gs1_code : GoString)
      → lookup gs1_code code_map ≡ managed_by gs1_code (elements c.ons_manager.manager_addresses)
  pub sus :
      (address : GoString)
      → lookup address su_map
        ≡ su_found (find address_key address (elements c.ons_manager.su_addresses))
  pub unique_codes : IsUnique code_key (elements c.ons_manager.manager_addresses)
  pub unique_sus : IsUnique address_key (elements c.ons_manager.su_addresses)

put_in_cache : GoString → GoString → Dict GoString → Cache → Cache
put_in_cache gs1_code address m c = record c {
  managers = some (insert gs1_code address m);
  ons_manager = record (c.ons_manager) {
    manager_addresses = put_manager gs1_code address c.ons_manager.manager_addresses;
  };
}

put_in_cache-IsCoherent :
    (gs1_code address : GoString) (c : Cache) (h : IsCoherent c)
    → IsCoherent (put_in_cache gs1_code address h.code_map c)
unfolding put_in_cache
put_in_cache-IsCoherent gs1_code address c h = record {
  is_loaded = h.is_loaded;
  code_map = insert gs1_code address h.code_map;
  has_code_map = refl;
  su_map = h.su_map;
  has_su_map = h.has_su_map;
  codes = λ j. ground (
    arith,
    lookup-insert j gs1_code address h.code_map,
    managed_by-put_manager j gs1_code address c.ons_manager.manager_addresses,
    h.codes j,
  );
  sus = h.sus;
  unique_codes =
      put_manager-IsUnique gs1_code address c.ons_manager.manager_addresses h.unique_codes;
  unique_sus = h.unique_sus;
}

module _ (sdk : Sdk) where
  pub save_ons_manager-cache :
      (requestor : GoString) (m : OnsManager) (w : World sdk.Store)
      → cache_of (save_ons_manager sdk requestor m w).1 ≡ cache_of w
  unfolding save_ons_manager
  save_ons_manager-cache requestor m w = ground arith

  save_ons_manager-ne-panic :
      (requestor : GoString) (m : OnsManager) (w : World sdk.Store)
      → (save_ons_manager sdk requestor m w).0 ≢ panic
  unfolding save_ons_manager
  save_ons_manager-ne-panic requestor m w = ground arith

  -- A call that keeps a coherent cache so, and does not panic on one.
  abbrev pub KeepsCoherence : Call sdk (Unit {0}) → World sdk.Store → Type 0
  KeepsCoherence call w = IsCoherent (cache_of (call w).1) × ((call w).0 ≢ panic)

  pub saved-IsCoherent :
      (requestor : GoString) (w : World sdk.Store)
      → IsCoherent (cache_of w)
      → KeepsCoherence (save_current sdk requestor) w
  saved-IsCoherent requestor w h = (
    subst IsCoherent (sym (save_ons_manager-cache requestor w.ons_manager w)) h,
    save_ons_manager-ne-panic requestor w.ons_manager w,
  )

  -- The world with a manager put into the message and the map.
  unfoldable pub with_manager :
      GoString → GoString → Dict GoString → World sdk.Store → World sdk.Store
  with_manager gs1_code address m w = record w {
    cached_ons_managers = some (insert gs1_code address m);
    ons_manager = record (w.ons_manager) {
      manager_addresses = put_manager gs1_code address w.ons_manager.manager_addresses;
    };
  }

  pub add_cached :
      (gs1_code address requestor : GoString) (w : World sdk.Store) (h : IsCoherent (cache_of w))
      → is_value address (lookup_map gs1_code w.cached_ons_managers) ≡ false
      → add_gs1_code_manager sdk gs1_code address requestor w
        ≡ save_current sdk requestor (with_manager gs1_code address h.code_map w)
  unfolding add_gs1_code_manager with_manager
  add_cached gs1_code address requestor w h e = ground (arith, h.is_loaded, h.has_code_map)

  pub add_known :
      (gs1_code address requestor : GoString) (w : World sdk.Store)
      → IsCoherent (cache_of w)
      → is_value address (lookup_map gs1_code w.cached_ons_managers) ≡ true
      → add_gs1_code_manager sdk gs1_code address requestor w ≡ save_current sdk requestor w
  unfolding add_gs1_code_manager
  add_known gs1_code address requestor w h e = ground (arith, h.is_loaded)

  -- Adding a manager keeps a coherent cache coherent, whether or not the save succeeds, and does not
  -- panic.
  pub add_gs1_code_manager-KeepsCoherence :
      (gs1_code address requestor : GoString) (w : World sdk.Store)
      → IsCoherent (cache_of w)
      → KeepsCoherence (add_gs1_code_manager sdk gs1_code address requestor) w
  unfolding with_manager
  add_gs1_code_manager-KeepsCoherence gs1_code address requestor w h =
      elim (Bool-cases (is_value address (lookup_map gs1_code w.cached_ons_managers))) [
        | inl e ↦ rw (add_known gs1_code address requestor w h e) (saved-IsCoherent requestor w h)
        | inr e ↦ rw (add_cached gs1_code address requestor w h e) (
            saved-IsCoherent requestor (with_manager gs1_code address h.code_map w)
              (unfold put_in_cache in put_in_cache-IsCoherent gs1_code address (cache_of w) h))
      ]
