-- ===== src/Handler/Effect.antt =====
-- The abstract registry: a map from codes to what is known of them, changed one code at a time, by a
-- relation of Handler/Transitions.antt.
use ons_sawtooth.Base.Logic.{
  ℕ, ◌≡◌, ◌≢◌, refl, ap, subst, sym, ◌⊎◌, inl, inr, [], Option, none, some, arith,
}
use ons_sawtooth.Base.Text.{GoString}
use ons_sawtooth.Base.Outcome.{Outcome, ok, err, panic, hang, resume, ◌>>=◌}
use ons_sawtooth.Proto.State.{Gs1CodeData}
use ons_sawtooth.Handler.Transitions.{CodeRelation}
use ons_sawtooth.Sdk.{Sdk, fetch}
use ons_sawtooth.Sdk.Laws.{IsLawful, wire_gs1_code}
use ons_sawtooth.World.{World, Call}
use ons_sawtooth.Registry.{load_gs1_code, save_gs1_code, delete_gs1_code}
use ons_sawtooth.Registry.Laws.{
  address_of, registry, load_gs1_code-registry, save_gs1_code-cases, save_gs1_code_others,
  registry-readable, Saved-registry, delete_gs1_code-cases, delete_gs1_code_others,
}
use ons_sawtooth.Handler.Permission.{get_permission_level, if_permitted}
use ons_sawtooth.Handler.Gate.{get_permission_level-ReadsOnly}

abbrev pub wire_option : Option Gs1CodeData → Option Gs1CodeData
wire_option none = none
wire_option (some m) = some (wire_gs1_code m)

module _ (sdk : Sdk) where
  -- Before and after are related at this code, and nothing changes at any other address.
  pub record Stepped (R : CodeRelation) (gs1_code : GoString) (s s' : sdk.Store) : Type 0 where
    pub before : Option Gs1CodeData
    pub after : Option Gs1CodeData
    pub was : registry sdk s gs1_code ≡ ok before
    pub step : R before after
    pub now : registry sdk s' gs1_code ≡ ok (wire_option after)
    pub others :
        (other : GoString)
        → address_of sdk gs1_code ≢ other
        → fetch sdk other s' ≡ fetch sdk other s

  -- A call at a code succeeds and relates before and after, or does not succeed and leaves the
  -- ledger as it was.
  abbrev pub Effect :
      CodeRelation → GoString → sdk.Store → Outcome (Unit {0}) × World sdk.Store → Type 0
  Effect R gs1_code s r =
      ((r.0 ≡ ok tt) × Stepped R gs1_code s r.1.store) ⊎ ((r.0 ≢ ok tt) × (r.1.store ≡ s))

  -- What the ledger holds at the address of a code, if anything, bears that code as its name: no
  -- other code with the same address is registered.
  abbrev pub IsNamed : sdk.Store → GoString → Type 0
  IsNamed s gs1_code =
      (m : Gs1CodeData) → registry sdk s gs1_code ≡ ok (some m) → m.gs1_code ≡ gs1_code

  -- Whatever comes of the call, the ledger is the same at every other address.
  pub Effect-others :
      (R : CodeRelation) (gs1_code other : GoString) (s : sdk.Store)
      (r : Outcome (Unit {0}) × World sdk.Store)
      → Effect R gs1_code s r
      → address_of sdk gs1_code ≢ other
      → fetch sdk other r.1.store ≡ fetch sdk other s
  Effect-others R gs1_code other s r (inl (done, stepped)) apart = stepped.others other apart
  Effect-others R gs1_code other s r (inr (failed, same)) apart = ap (fetch sdk other) same

  -- The name is the same in the same store.
  pub IsNamed-transport :
      (s s' : sdk.Store) (gs1_code : GoString) → s' ≡ s → IsNamed s gs1_code → IsNamed s' gs1_code
  IsNamed-transport s s' gs1_code same = subst (λ u. IsNamed u gs1_code) (sym same)

  -- Behind a gate the rest has its effect, or nothing has any.
  pub if_permitted-Effect :
      (R : CodeRelation) (c requestor message gs1_code : GoString) (level : ℕ)
      (rest : Call sdk (Unit {0})) (w : World sdk.Store)
      → ((v : World sdk.Store) → v.store ≡ w.store → Effect R gs1_code v.store (rest v))
      → Effect R gs1_code w.store (if_permitted sdk c requestor level message rest w)
  if_permitted-Effect R c requestor message gs1_code level rest w h =
      let keeps = get_permission_level-ReadsOnly sdk c requestor level w in
      let v = (get_permission_level sdk c requestor level w).1 in
      let passed : Effect R gs1_code w.store (rest v) =
        rw (keeps.same_store) at (h v keeps.same_store) in
      ground (arith, keeps)

module _ (sdk : Sdk) (law : IsLawful sdk) where
  save_own-Effect :
      (R : CodeRelation) (before : Option Gs1CodeData) (m : Gs1CodeData) (w : World sdk.Store)
      → m.gs1_code ≢ []
      → registry sdk w.store m.gs1_code ≡ ok before
      → R before (some m)
      → Effect sdk R m.gs1_code w.store (save_gs1_code sdk m w)
  save_own-Effect R before m w nonempty was step = elim (save_gs1_code-cases sdk law m w) [
    | inl s ↦
        let (v, readable) = registry-readable sdk w.store m.gs1_code before was in
        inl (
          ap (λ r. r.0) s.result,
          record {
            before = before;
            after = some m;
            was = was;
            step = step;
            now = Saved-registry sdk law m w s v readable (law.gs1_code_marshals_some m nonempty);
            others = λ other apart. save_gs1_code_others sdk law m other w apart;
          },
        )
    | inr (e, failed) ↦ inr (rw failed (ground arith), rw failed)
  ]

  after_read :
      (R : CodeRelation) (gs1_code : GoString) (rest : Option Gs1CodeData → Call sdk (Unit {0}))
      (w : World sdk.Store) (r : Outcome (Option Gs1CodeData))
      → ((found : Option Gs1CodeData) → r ≡ ok found → Effect sdk R gs1_code w.store (rest found w))
      → Effect sdk R gs1_code w.store (resume rest (r, w))
  after_read R gs1_code rest w (ok found) h = h found refl
  after_read R gs1_code rest w (err e) h = inr (ground arith, refl)
  after_read R gs1_code rest w panic h = inr (ground arith, refl)
  after_read R gs1_code rest w hang h = inr (ground arith, refl)

  -- A save of what a code is related to has that effect, or fails.
  pub save-Effect :
      (R : CodeRelation) (gs1_code : GoString) (before : Option Gs1CodeData) (m : Gs1CodeData)
      (w : World sdk.Store)
      → gs1_code ≢ []
      → m.gs1_code ≡ gs1_code
      → registry sdk w.store gs1_code ≡ ok before
      → R before (some m)
      → Effect sdk R gs1_code w.store (save_gs1_code sdk m w)
  save-Effect R gs1_code before m w nonempty named was step =
      subst
        (λ c.
          c ≢ []
          → registry sdk w.store c ≡ ok before
          → R before (some m)
          → Effect sdk R c w.store (save_gs1_code sdk m w))
        named (save_own-Effect R before m w) nonempty was step

  -- A deletion, where it is related, has that effect, or fails.
  pub delete-Effect :
      (R : CodeRelation) (gs1_code : GoString) (m : Gs1CodeData) (w : World sdk.Store)
      → registry sdk w.store gs1_code ≡ ok (some m)
      → R (some m) none
      → Effect sdk R gs1_code w.store (delete_gs1_code sdk gs1_code w)
  delete-Effect R gs1_code m w was step =
      let (v, readable) = registry-readable sdk w.store gs1_code (some m) was in
      elim (delete_gs1_code-cases sdk law gs1_code w v readable) [
        | inl (done, gone) ↦ inl (
          done,
          record {
            before = some m;
            after = none;
            was = was;
            step = step;
            now = gone;
            others = λ other apart. delete_gs1_code_others sdk law gs1_code other w apart;
          },
        )
        | inr (e, failed) ↦ inr (rw failed (ground arith), rw failed)
      ]

  -- A load hands on what the registry holds, or its error.
  pub load-Effect :
      (R : CodeRelation) (gs1_code : GoString) (rest : Option Gs1CodeData → Call sdk (Unit {0}))
      (w : World sdk.Store)
      → ((found : Option Gs1CodeData)
          → registry sdk w.store gs1_code ≡ ok found
          → Effect sdk R gs1_code w.store (rest found w))
      → Effect sdk R gs1_code w.store ((load_gs1_code sdk gs1_code >>= rest) w)
  load-Effect R gs1_code rest w h =
      rw (load_gs1_code-registry sdk gs1_code w)
        (after_read R gs1_code rest w (registry sdk w.store gs1_code) h)
