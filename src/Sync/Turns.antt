-- ===== src/Sync/Turns.antt =====
-- One turn of a goroutine: the items it has set, and the rows after it.
use ons_sawtooth.Base.Logic.{
  ◌∙◌, ◌⊎◌, inl, inr, true, Bool-cases, arith, ◌≡◌, ◌≢◌, refl, sym, ap, subst, List, [], ◌∷◌, ◌++◌,
}
use ons_sawtooth.Base.Text.{GoString, ◌==◌}
use ons_sawtooth.Base.Dict.{Dict}
use ons_sawtooth.Base.Outcome.{Outcome, ok, err, panic, hang}
use ons_sawtooth.Sdk.{Sdk}
use ons_sawtooth.Sync.Database.{Key, latest_updated_block_info, Database, Rows, IsLawfulDatabase}
use ons_sawtooth.Sync.Mirror.{OnsEvent, Mirror}
use ons_sawtooth.Sync.Newest.{Item, with_newest}
use ons_sawtooth.Sync.Puts.{put_item, rows_of}
use ons_sawtooth.Sync.Order.{all_newest}
use ons_sawtooth.Sync.Runs.{IsReady, put_item-IsReady, answered_row}
use ons_sawtooth.Sync.BlockInfos.{OnlyBlockInfo}
use ons_sawtooth.Sync.Events.{Feed, update_state_change}
use ons_sawtooth.Sync.EventItems.{
  Change, change_of, items_of, AllAddressed, Does, update_state_change-Does,
}
use ons_sawtooth.Sync.EventRows.{ask_for_previous-Returns, get_current_latest-Returns}
use ons_sawtooth.Sync.Goroutines.{Goroutine, starts, asks, writes, turn}

-- The rows of codes and service types are the same.
abbrev pub DataSame : Rows → Rows → Type 0
DataSame f g =
    (table : GoString) (key : Key) → table ≢ latest_updated_block_info → f table key ≡ g table key

pub all_newest-DataSame :
    (items : List Item) (f g : Rows)
    → DataSame f g
    → DataSame (all_newest items f) (all_newest items g)
unfolding all_newest
all_newest-DataSame [] f g h = h
all_newest-DataSame (item ∷ items) f g h =
    all_newest-DataSame items (with_newest item f) (with_newest item g)
      (λ table key data_table. rw (h table key data_table) refl)

pub all_newest-append :
    (xs ys : List Item) (f : Rows) → all_newest (xs ++ ys) f ≡ all_newest ys (all_newest xs f)
unfolding all_newest
all_newest-append [] ys f = refl
all_newest-append (x ∷ xs) ys f = all_newest-append xs ys (with_newest x f)

module _ (sdk : Sdk) (base : Database) (law : IsLawfulDatabase base) (feed : Feed) where
  -- What a goroutine has still to set.
  abbrev pub items_left : Goroutine → List Item
  items_left (starts event) = items_of sdk feed event event.state_changes
  items_left (asks event) = items_of sdk feed event event.state_changes
  items_left (writes event states) = items_of sdk feed event states

  abbrev pub IsAddressed : Goroutine → Type 0
  IsAddressed (starts event) = AllAddressed event.state_changes
  IsAddressed (asks event) = AllAddressed event.state_changes
  IsAddressed (writes event states) = AllAddressed states

  abbrev pub AlwaysAnswers : Type 0
  AlwaysAnswers =
      (item : Item) (m : Mirror base.Db) → IsReady base m → (put_item base item m).0 ≡ ok tt

  -- One turn: the items it has set, and what is left.
  pub record Turned (g : Goroutine) (m : Mirror base.Db) (r : Goroutine × Mirror base.Db)
      : Type 0 where
    pub did : List Item
    pub left : items_left g ≡ did ++ items_left r.0
    pub addressed : IsAddressed r.0
    pub ready : IsReady base r.1
    pub rows_then : DataSame (rows_of base r.1) (all_newest did (rows_of base m))

  -- A turn that has come to one goroutine and mirror has not come to others.
  came_to :
      (g : Goroutine) (m : Mirror base.Db) (a b : Goroutine × Mirror base.Db)
      → turn sdk base feed g m ≡ (ok a.0, a.1)
      → turn sdk base feed g m ≡ (ok b.0, b.1)
      → Turned g m a
      → Turned g m b
  came_to g m a b came e = subst (Turned g m) (ap (λ r. (of_ok r.0, r.1)) (sym came ∙ e))
    where
      of_ok : Outcome Goroutine → Goroutine
      of_ok (ok h) = h
      of_ok (err x) = g
      of_ok panic = g
      of_ok hang = g

  -- A turn that has written block information at most.
  noted :
      (g g' : Goroutine) (m after : Mirror base.Db)
      → items_left g ≡ items_left g'
      → IsAddressed g'
      → IsReady base after
      → OnlyBlockInfo (rows_of base m) (rows_of base after)
      → Turned g m (g', after)
  unfolding all_newest
  noted g g' m after left long ready only = record {
    did = [];
    left = left;
    addressed = long;
    ready = ready;
    rows_then = only.others;
  }

  started :
      (event : OnsEvent) (m : Mirror base.Db) (b : Goroutine × Mirror base.Db)
      → IsReady base m
      → AllAddressed event.state_changes
      → turn sdk base feed (starts event) m ≡ (ok b.0, b.1)
      → Turned (starts event) m b
  unfolding turn
  started event m b ready long e =
      let r = get_current_latest-Returns sdk base law feed event m ready in
      came_to (starts event) m (asks event, r.after) b (rw r.came refl) e
        (noted (starts event) (asks event) m r.after refl long r.ready r.rows_kept)

  -- The goroutine has got past the walk of the block ids, so nothing has kept it waiting.
  asked :
      (event : OnsEvent) (m : Mirror base.Db) (b : Goroutine × Mirror base.Db)
      → IsReady base m
      → AllAddressed event.state_changes
      → turn sdk base feed (asks event) m ≡ (ok b.0, b.1)
      → Turned (asks event) m b
  unfolding turn
  asked event m b ready long e =
      let done : (event.previous_block_id == m.latest_block_id ≡ true)
            ⊎ (feed.takes m.asked event.previous_block_id ≡ true)
          → Turned (asks event) m b =
        λ goes_on.
          let r = ask_for_previous-Returns sdk base law feed event m ready goes_on in
          came_to (asks event) m (writes event event.state_changes, r.after) b (rw r.came refl) e
            (noted (asks event) (writes event event.state_changes) m r.after refl long r.ready
              r.rows_kept) in
      elim (Bool-cases (event.previous_block_id == m.latest_block_id)) [
        | inl known ↦ done (inl known)
        | inr unknown ↦ elim (Bool-cases (feed.takes m.asked event.previous_block_id)) [
          | inl taken ↦ done (inr taken)
          | inr waits ↦ absurd (ground arith)
        ]
      ]

  wrote :
      (event : OnsEvent) (state : Dict GoString) (states : List (Dict GoString))
      (m : Mirror base.Db) (b : Goroutine × Mirror base.Db) (c : Change sdk feed)
      → AlwaysAnswers
      → IsReady base m
      → AllAddressed states
      → Does sdk base law feed m c (update_state_change sdk base feed event state m)
      → change_of sdk feed event state ≡ c
      → turn sdk base feed (writes event (state ∷ states)) m ≡ (ok b.0, b.1)
      → Turned (writes event (state ∷ states)) m b
  unfolding turn all_newest items_of
  wrote event state states m b Change.skipped answers ready long does e came =
      came_to (writes event (state ∷ states)) m (writes event states, m) b (rw does refl) came
        (record {
          did = [];
          left = rw (e, items_of) refl;
          addressed = long;
          ready = ready;
          rows_then = λ table key data_table. refl;
        })
  wrote event state states m b (Change.sets item) answers ready long does e came =
      came_to (writes event (state ∷ states)) m (writes event states, (put_item base item m).1) b
        (rw does refl) came
        (record {
          did = item ∷ [];
          left = rw (e, items_of) refl;
          addressed = long;
          ready = put_item-IsReady base law item m ready;
          rows_then = λ table key data_table.
              answered_row base law item m ready (answers item m ready) table key;
        })
  wrote event state states m b Change.gives_up answers ready long does e came =
      came_to (writes event (state ∷ states)) m (writes event [], m) b (rw does refl) came
        (record {
          did = [];
          left = rw (e, items_of) refl;
          addressed = tt;
          ready = ready;
          rows_then = λ table key data_table. refl;
        })

  ended :
      (event : OnsEvent) (m : Mirror base.Db) (b : Goroutine × Mirror base.Db)
      → IsReady base m
      → turn sdk base feed (writes event []) m ≡ (ok b.0, b.1)
      → Turned (writes event []) m b
  unfolding turn all_newest items_of
  ended event m b ready e =
      came_to (writes event []) m (writes event [], m) b refl e
        (record {
          did = [];
          left = refl;
          addressed = tt;
          ready = ready;
          rows_then = λ table key data_table. refl;
        })

  pub turn-Turned :
      (g : Goroutine) (m : Mirror base.Db) (b : Goroutine × Mirror base.Db)
      → AlwaysAnswers
      → IsReady base m
      → IsAddressed g
      → turn sdk base feed g m ≡ (ok b.0, b.1)
      → Turned g m b
  turn-Turned (starts event) m b answers ready long e = started event m b ready long e
  turn-Turned (asks event) m b answers ready long e = asked event m b ready long e
  turn-Turned (writes event []) m b answers ready long e = ended event m b ready e
  turn-Turned (writes event (state ∷ states)) m b answers ready long e =
      wrote event state states m b (change_of sdk feed event state) answers ready long.1
        (update_state_change-Does sdk base law feed event state m ready long.0) refl e
