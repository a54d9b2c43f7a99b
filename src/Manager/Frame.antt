-- ===== src/Manager/Frame.antt =====
-- Which parts of the world the reads of the manager package may change.
use ons_sawtooth.Base.Logic.{◌≡◌, [], ◌∷◌, Option, none, some, arith}
use ons_sawtooth.Base.Text.{GoString, Bytes}
use ons_sawtooth.Base.Outcome.{Outcome, ok, err, panic, hang, ◌>>=◌, resume}
use ons_sawtooth.Proto.State.{OnsManager}
use ons_sawtooth.Sdk.{Sdk}
use ons_sawtooth.World.{World, Call}
use ons_sawtooth.Manager.Storage.{load_ons_manager, read_ons_manager}
use ons_sawtooth.Manager.Cache.{when_uncached, adopt, load_cached_ons_manager, check_permission}

module _ (sdk : Sdk) where
  -- The world after a call that writes nothing.
  pub record Keeps (w v : World sdk.Store) : Type 0 where
    pub same_store : v.store ≡ w.store
    pub same_sudo : v.sudo_address ≡ w.sudo_address

  abbrev pub ReadsOnly : {A : Type 0} → Call sdk A → Type 0
  ReadsOnly m = (w : World sdk.Store) → Keeps w (m w).1

  Keeps-trans : (u v w : World sdk.Store) → Keeps u v → Keeps v w → Keeps u w
  Keeps-trans u v w p q = ground arith

  read_ons_manager-ReadsOnly : (a : GoString) (b : Bytes) → ReadsOnly (read_ons_manager sdk a b)
  read_ons_manager-ReadsOnly a [] w = ground arith
  read_ons_manager-ReadsOnly a (b ∷ bs) w = ground arith

  load_ons_manager-ReadsOnly : ReadsOnly (load_ons_manager sdk)
  unfolding load_ons_manager
  load_ons_manager-ReadsOnly w = ground arith

  adopt-ReadsOnly : (m : Option OnsManager) → ReadsOnly (adopt sdk m)
  adopt-ReadsOnly none w = ground arith
  adopt-ReadsOnly (some m) w = ground arith

  resume-Keeps :
      {A B : Type 0} (f : A → Call sdk B) (w : World sdk.Store) (r : Outcome A × World sdk.Store)
      → Keeps w r.1
      → ((a : A) → ReadsOnly (f a))
      → Keeps w (resume f r).1
  resume-Keeps f w (ok a, v) k h = Keeps-trans w v (f a v).1 k (h a v)
  resume-Keeps f w (err e, v) k h = k
  resume-Keeps f w (panic, v) k h = k
  resume-Keeps f w (hang, v) k h = k

  bind-ReadsOnly :
      {A B : Type 0} (m : Call sdk A) (f : A → Call sdk B)
      → ReadsOnly m
      → ((a : A) → ReadsOnly (f a))
      → ReadsOnly (m >>= f)
  bind-ReadsOnly m f hm hf w = resume-Keeps f w (m w) (hm w) hf

  when_uncached-ReadsOnly :
      (m : Call sdk (Unit {0})) → ReadsOnly m → ReadsOnly (when_uncached sdk m)
  when_uncached-ReadsOnly m h w = ground (arith, h w)

  pub load_cached_ons_manager-ReadsOnly : ReadsOnly (load_cached_ons_manager sdk)
  unfolding load_cached_ons_manager
  load_cached_ons_manager-ReadsOnly =
      when_uncached-ReadsOnly (load_ons_manager sdk >>= adopt sdk) (
        bind-ReadsOnly (load_ons_manager sdk) (adopt sdk) load_ons_manager-ReadsOnly
          adopt-ReadsOnly)

  pub check_permission-ReadsOnly :
      (gs1_code address : GoString) → ReadsOnly (check_permission sdk gs1_code address)
  unfolding check_permission
  check_permission-ReadsOnly gs1_code address w =
      let loaded =
        when_uncached-ReadsOnly (load_cached_ons_manager sdk) load_cached_ons_manager-ReadsOnly in
      ground (arith, loaded w)
