-- ===== src/Manager/Upkeep.antt =====
-- What the edits of a list of managers do to the cache, as a function of its parts.
use ons_sawtooth.Base.Logic.{◌≡◌, refl, List, [], ◌∷◌, ◌++◌, Bool, true, none, some, arith}
use ons_sawtooth.Base.Text.{GoString}
use ons_sawtooth.Base.Slice.{Slice, elements}
use ons_sawtooth.Base.Dict.{Dict, lookup, insert, erase, lookup-insert, lookup-erase}
use ons_sawtooth.Proto.State.{OnsGs1CodeManager}
use ons_sawtooth.Manager.Loop.{without}
use ons_sawtooth.Manager.Edit.{append_slice, has_code, has_address}
use ons_sawtooth.Manager.Find.{find, find-without, without-IsUnique, find-append, append-IsUnique}
use ons_sawtooth.Manager.Put.{code_key, address_key}
use ons_sawtooth.Manager.Coherence.{Cache, IsCoherent}

-- The cache without the manager of a code, given the list and the map.
unfoldable pub drop_code : GoString → List OnsGs1CodeManager → Dict GoString → Cache → Cache
drop_code gs1_code ms m c = record c {
  managers = some (erase gs1_code m);
  ons_manager = record (c.ons_manager) {
    manager_addresses = some (without (has_code gs1_code) ms);
  };
}

pub drop_code-IsCoherent :
    (gs1_code : GoString) (ms : List OnsGs1CodeManager) (c : Cache) (h : IsCoherent c)
    → c.ons_manager.manager_addresses ≡ some ms
    → IsCoherent (drop_code gs1_code ms h.code_map c)
unfolding drop_code
drop_code-IsCoherent gs1_code ms c h listed = record {
  is_loaded = h.is_loaded;
  code_map = erase gs1_code h.code_map;
  has_code_map = refl;
  su_map = h.su_map;
  has_su_map = h.has_su_map;
  codes = λ j.
      ground
        (arith, lookup-erase j gs1_code h.code_map, find-without code_key j gs1_code ms, h.codes j);
  sus = h.sus;
  unique_codes = without-IsUnique code_key gs1_code ms (rw listed at (h.unique_codes));
  unique_sus = h.unique_sus;
}

abbrev pub new_su : GoString → OnsGs1CodeManager
new_su address = record { gs1_code = []; address = address }

unfoldable pub put_su : GoString → Dict Bool → Cache → Cache
put_su address m c = record c {
  sumanagers = some (insert address true m);
  ons_manager = record (c.ons_manager) {
    su_addresses = append_slice c.ons_manager.su_addresses (new_su address);
  };
}

append_slice-elements :
    (s : Slice OnsGs1CodeManager) (x : OnsGs1CodeManager)
    → elements (append_slice s x) ≡ elements s ++ (x ∷ [])
append_slice-elements none x = refl
append_slice-elements (some xs) x = refl

pub put_su-IsCoherent :
    (address : GoString) (c : Cache) (h : IsCoherent c)
    → lookup address h.su_map ≡ none
    → IsCoherent (put_su address h.su_map c)
unfolding put_su
put_su-IsCoherent address c h fresh =
    let old = elements c.ons_manager.su_addresses in
    let absent : find address_key address old ≡ none = ground (arith, h.sus address) in
    record {
      is_loaded = h.is_loaded;
      code_map = h.code_map;
      has_code_map = h.has_code_map;
      su_map = insert address true h.su_map;
      has_su_map = refl;
      codes = h.codes;
      sus = λ j. ground (
        arith,
        lookup-insert j address true h.su_map,
        append_slice-elements c.ons_manager.su_addresses (new_su address),
        find-append address_key j old (new_su address) absent,
        h.sus j,
      );
      unique_codes = h.unique_codes;
      unique_sus =
          rw (append_slice-elements c.ons_manager.su_addresses (new_su address))
            (append-IsUnique address_key old (new_su address) absent h.unique_sus);
    }

unfoldable pub drop_su : GoString → List OnsGs1CodeManager → Dict Bool → Cache → Cache
drop_su address ms m c = record c {
  sumanagers = some (erase address m);
  ons_manager = record (c.ons_manager) { su_addresses = some (without (has_address address) ms) };
}

pub drop_su-IsCoherent :
    (address : GoString) (ms : List OnsGs1CodeManager) (c : Cache) (h : IsCoherent c)
    → c.ons_manager.su_addresses ≡ some ms
    → IsCoherent (drop_su address ms h.su_map c)
unfolding drop_su
drop_su-IsCoherent address ms c h listed = record {
  is_loaded = h.is_loaded;
  code_map = h.code_map;
  has_code_map = h.has_code_map;
  su_map = erase address h.su_map;
  has_su_map = refl;
  codes = h.codes;
  sus = λ j.
      ground
        (arith, lookup-erase j address h.su_map, find-without address_key j address ms, h.sus j);
  unique_codes = h.unique_codes;
  unique_sus = without-IsUnique address_key address ms (rw listed at (h.unique_sus));
}
