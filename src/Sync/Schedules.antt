-- ===== src/Sync/Schedules.antt =====
-- The rows that the goroutines of several events leave, whatever turns they take.
use mathlib.Core.List.Permᴰ
use mathlib.Core.List.{Permᴰ, append_assoc, append-nil}
use ons_sawtooth.Base.Logic.{◌≡◌, refl, sym, ap, subst, ◌∙◌, List, [], ◌∷◌, ◌++◌}
use ons_sawtooth.Base.Outcome.{ok}
use ons_sawtooth.Base.Flat.{flat, flat-append, moved_out}
use ons_sawtooth.Sdk.{Sdk}
use ons_sawtooth.Sync.Database.{Database, IsLawfulDatabase}
use ons_sawtooth.Sync.Mirror.{Mirror}
use ons_sawtooth.Sync.Newest.{Item}
use ons_sawtooth.Sync.Puts.{rows_of}
use ons_sawtooth.Sync.Order.{AllApart, all_newest, all_newest-perm}
use ons_sawtooth.Sync.Runs.{IsReady}
use ons_sawtooth.Sync.Events.{Feed}
use ons_sawtooth.Sync.Goroutines.{Goroutine, turn, Pool, Turn, taken, Schedule, here, next}
use ons_sawtooth.Sync.Turns.{
  DataSame, all_newest-DataSame, all_newest-append, items_left, IsAddressed, AlwaysAnswers,
  turn-Turned,
}

module _ (sdk : Sdk) (base : Database) (law : IsLawfulDatabase base) (feed : Feed) where
  abbrev pub AllGoroutines : List Goroutine → Type 0
  AllGoroutines [] = Unit
  AllGoroutines (g ∷ gs) = IsAddressed sdk base law feed g × AllGoroutines gs

  AllGoroutines-replaced :
      (before after : List Goroutine) (g g' : Goroutine)
      → AllGoroutines (before ++ (g ∷ after))
      → IsAddressed sdk base law feed g'
      → AllGoroutines (before ++ (g' ∷ after))
  AllGoroutines-replaced [] after g g' all new = (new, all.1)
  AllGoroutines-replaced (b ∷ before) after g g' all new =
      (all.0, AllGoroutines-replaced before after g g' all.1 new)

  AllGoroutines-at :
      (before after : List Goroutine) (g : Goroutine)
      → AllGoroutines (before ++ (g ∷ after))
      → IsAddressed sdk base law feed g
  AllGoroutines-at [] after g all = all.0
  AllGoroutines-at (b ∷ before) after g all = AllGoroutines-at before after g all.1

  abbrev pub pending : Pool sdk base feed → List Item
  pending p = flat (items_left sdk base law feed) p.goroutines

  -- What a schedule has come to: the items set so far, with those that are left, are the items of the
  -- start in some order, and the data rows are those of the reference.
  record Came (p q : Pool sdk base feed) : Type 0 where
    done : List Item
    order : Permᴰ (done ++ pending q) (pending p)
    addressed : AllGoroutines q.goroutines
    ready : IsReady base q.mirror
    rows_now : DataSame (rows_of base q.mirror) (all_newest done (rows_of base p.mirror))

  turn_order :
      (done did : List Item) (before after : List Goroutine) (g g' : Goroutine)
      → items_left sdk base law feed g ≡ did ++ items_left sdk base law feed g'
      → Permᴰ
          ((done ++ did) ++ flat (items_left sdk base law feed) (before ++ (g' ∷ after)))
          (done ++ flat (items_left sdk base law feed) (before ++ (g ∷ after)))
  turn_order done did before after g g' left =
      rw
        (
          flat-append (items_left sdk base law feed) before (g' ∷ after),
          flat-append (items_left sdk base law feed) before (g ∷ after),
          left,
          append_assoc did (items_left sdk base law feed g')
              (flat (items_left sdk base law feed) after),
        )
        (moved_out done (flat (items_left sdk base law feed) before) did
          (items_left sdk base law feed g' ++ flat (items_left sdk base law feed) after))

  taken-Came :
      (p : Pool sdk base feed) (before after : List Goroutine) (g g' : Goroutine)
      (m m' : Mirror base.Db)
      → AlwaysAnswers sdk base law feed
      → turn sdk base feed g m ≡ (ok g', m')
      → Came p (record { goroutines = before ++ (g ∷ after); mirror = m })
      → Came p (record { goroutines = before ++ (g' ∷ after); mirror = m' })
  taken-Came p before after g g' m m' answers came c =
      let t =
        turn-Turned sdk base law feed g m (g', m') answers c.ready
          (AllGoroutines-at before after g c.addressed) came in
      record {
        done = c.done ++ t.did;
        order = Permᴰ.trans (turn_order c.done t.did before after g g' t.left) c.order;
        addressed = AllGoroutines-replaced before after g g' c.addressed t.addressed;
        ready = t.ready;
        rows_now = λ table key data_table.
            t.rows_then table key data_table
            ∙ all_newest-DataSame t.did (rows_of base m) (all_newest c.done (rows_of base p.mirror))
                c.rows_now table key data_table
            ∙ ap (λ f. f table key) (sym (all_newest-append c.done t.did (rows_of base p.mirror)));
      }

  Turn-Came :
      (p q r : Pool sdk base feed)
      → AlwaysAnswers sdk base law feed
      → Turn sdk base feed q r
      → Came p q
      → Came p r
  Turn-Came p q r answers (taken before after g g' m e came f) c = subst (Came p) (sym f) (
      taken-Came p before after g g' q.mirror m answers came
        (subst (λ gs. Came p (record { goroutines = gs; mirror = q.mirror })) e c))

  Schedule-Came :
      (p : Pool sdk base feed) {q : Pool sdk base feed}
      → AlwaysAnswers sdk base law feed
      → IsReady base p.mirror
      → AllGoroutines p.goroutines
      → Schedule sdk base feed p q
      → Came p q
  unfolding all_newest
  Schedule-Came p answers ready long here = record {
    done = [];
    order = Permᴰ.refl (pending p);
    addressed = long;
    ready = ready;
    rows_now = λ table key data_table. refl;
  }
  Schedule-Came p answers ready long (next s t) =
      Turn-Came p _ _ answers t (Schedule-Came p answers ready long s)

  -- With a lawful database that answers every update, a connected mirror whose rows stand in the
  -- tables of their kinds, addresses of 14 characters, and any two of the items for one row of
  -- different blocks, every schedule of the goroutines of several events that leaves nothing to set
  -- leaves the same rows of codes and service types: those of the reference for all the items of
  -- the events.
  pub Schedule-rows :
      (p q : Pool sdk base feed)
      → AlwaysAnswers sdk base law feed
      → IsReady base p.mirror
      → AllGoroutines p.goroutines
      → AllApart (pending p)
      → Schedule sdk base feed p q
      → pending q ≡ []
      → DataSame (rows_of base q.mirror) (all_newest (pending p) (rows_of base p.mirror))
  Schedule-rows p q answers ready long apart s all_set table key data_table =
      let c = Schedule-Came p answers ready long s in
      let order : Permᴰ (pending p) c.done = Permᴰ.symm (
        subst (λ l. Permᴰ l (pending p)) (ap (λ l. c.done ++ l) all_set ∙ append-nil c.done)
          c.order) in
      c.rows_now table key data_table
      ∙ sym (all_newest-perm (pending p) c.done (rows_of base p.mirror) order apart table key)
