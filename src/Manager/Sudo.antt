-- ===== src/Manager/Sudo.antt =====
-- Who the super user is, through any operation.
use ons_sawtooth.Base.Logic.{ℕ, ◌≡◌, refl, arith, ◌∙◌, none, some}
use ons_sawtooth.Base.Text.{GoString}
use ons_sawtooth.Base.Outcome.{Outcome, ok, err, panic, hang, ◌>>=◌, resume, attempt}
use ons_sawtooth.Base.Slice.{Slice}
use ons_sawtooth.Proto.State.{OnsGs1CodeManager, OnsManager}
use ons_sawtooth.Sdk.{Sdk}
use ons_sawtooth.World.{World, Call}
use ons_sawtooth.Manager.Storage.{get_ons_manager_address, save_ons_manager}
use ons_sawtooth.Manager.Cache.{load_cached_ons_manager, clear_cached_ons_manager, when_uncached}
use ons_sawtooth.Manager.Edit.{
  add_gs1_code_manager, remove_gs1_code_manager, delete_all_manager, add_su_manager,
  remove_su_manager, operate_manager, remove_listed_manager, add_new_manager,
}
use ons_sawtooth.Manager.Frame.{load_cached_ons_manager-ReadsOnly}

module _ (sdk : Sdk) where
  abbrev pub SameSudo : {A : Type 0} → Call sdk A → Type 0
  SameSudo m = (w : World sdk.Store) → (m w).1.sudo_address ≡ w.sudo_address

  resume-SameSudo :
      {A B : Type 0} (k : A → Call sdk B) (w : World sdk.Store) (r : Outcome A × World sdk.Store)
      → r.1.sudo_address ≡ w.sudo_address
      → ((a : A) → SameSudo (k a))
      → (resume k r).1.sudo_address ≡ w.sudo_address
  resume-SameSudo k w (ok a, v) e h = h a v ∙ e
  resume-SameSudo k w (err x, v) e h = e
  resume-SameSudo k w (panic, v) e h = e
  resume-SameSudo k w (hang, v) e h = e

  pub bind-SameSudo :
      {A B : Type 0} (m : Call sdk A) (k : A → Call sdk B)
      → SameSudo m
      → ((a : A) → SameSudo (k a))
      → SameSudo (m >>= k)
  bind-SameSudo m k hm hk w = resume-SameSudo k w (m w) (hm w) hk

  save_ons_manager-SameSudo :
      (requestor : GoString) (m : OnsManager) → SameSudo (save_ons_manager sdk requestor m)
  unfolding save_ons_manager get_ons_manager_address
  save_ons_manager-SameSudo requestor m w = ground arith

  add_new_manager-SameSudo :
      (gs1_code address requestor : GoString)
      → SameSudo (add_new_manager sdk gs1_code address requestor)
  add_new_manager-SameSudo gs1_code address requestor w = grind (arith, save_ons_manager-SameSudo)

  clear_cached_ons_manager-SameSudo : SameSudo (clear_cached_ons_manager sdk)
  unfolding clear_cached_ons_manager
  clear_cached_ons_manager-SameSudo w = ground arith

  loaded-SameSudo : SameSudo (attempt (when_uncached sdk (load_cached_ons_manager sdk)))
  loaded-SameSudo w = ground (arith, load_cached_ons_manager-ReadsOnly sdk w)

  pub add_gs1_code_manager-SameSudo :
      (gs1_code address requestor : GoString)
      → SameSudo (add_gs1_code_manager sdk gs1_code address requestor)
  unfolding add_gs1_code_manager
  add_gs1_code_manager-SameSudo gs1_code address requestor =
      bind-SameSudo (attempt (when_uncached sdk (load_cached_ons_manager sdk))) _ loaded-SameSudo
        (λ _ w. grind (arith, save_ons_manager-SameSudo, add_new_manager-SameSudo))

  remove_listed_manager-SameSudo :
      (gs1_code requestor : GoString) (ms : Slice OnsGs1CodeManager)
      → SameSudo (remove_listed_manager sdk gs1_code requestor ms)
  remove_listed_manager-SameSudo gs1_code requestor none w = refl
  remove_listed_manager-SameSudo gs1_code requestor (some ms) w =
      grind (arith, save_ons_manager-SameSudo)

  pub remove_gs1_code_manager-SameSudo :
      (gs1_code requestor : GoString) → SameSudo (remove_gs1_code_manager sdk gs1_code requestor)
  unfolding remove_gs1_code_manager
  remove_gs1_code_manager-SameSudo gs1_code requestor =
      bind-SameSudo (attempt (when_uncached sdk (load_cached_ons_manager sdk))) _ loaded-SameSudo
        (λ _ w. remove_listed_manager-SameSudo gs1_code requestor w.ons_manager.manager_addresses w)

  pub add_su_manager-SameSudo :
      (address requestor : GoString) → SameSudo (add_su_manager sdk address requestor)
  unfolding add_su_manager
  add_su_manager-SameSudo address requestor w = grind (arith, save_ons_manager-SameSudo)

  pub remove_su_manager-SameSudo :
      (address requestor : GoString) → SameSudo (remove_su_manager sdk address requestor)
  unfolding remove_su_manager
  remove_su_manager-SameSudo address requestor w = grind (arith, save_ons_manager-SameSudo)

  pub delete_all_manager-SameSudo : SameSudo (delete_all_manager sdk)
  unfolding delete_all_manager get_ons_manager_address clear_cached_ons_manager
  delete_all_manager-SameSudo w = ground arith

  pub operate_manager-SameSudo :
      (op : ℕ) (requestor : GoString) → SameSudo (operate_manager sdk op requestor)
  unfolding operate_manager clear_cached_ons_manager
  operate_manager-SameSudo op requestor w =
      ground (arith, load_cached_ons_manager-ReadsOnly sdk (clear_cached_ons_manager sdk w).1)
