-- ===== src/Sync/Runs.antt =====
-- Many calls of `DBUpdateOrInsert`, as the events of several goroutines make them: the mutex keeps
-- each call whole, so what they do is some order of the calls.
use mathlib.Core.List.{Permᴰ}
use native.Mathlib.Decide.{dec_lt}
use ons_sawtooth.Base.Logic.{
  ◌≤◌, ◌≡◌, refl, sym, ap, ◌∙◌, ◌⊎◌, Bool-cases, inl, inr, some, arith, List, [], ◌∷◌,
}
use ons_sawtooth.Base.Text.{GoString}
use ons_sawtooth.Base.Outcome.{ok}
use ons_sawtooth.Sync.Database.{Document, Key, Database, Rows, is_at, SameRows, IsLawfulDatabase}
use ons_sawtooth.Sync.Mirror.{Mirror}
use ons_sawtooth.Sync.Newest.{
  Item, document_of, num_of, document_num, newest, with_newest, IsTidy, is_at-eq, num_of-document,
}
use ons_sawtooth.Sync.Puts.{put_item, rows_of, IsConnected, put_item-Put}
use ons_sawtooth.Sync.Order.{all_newest, AllApart, all_newest-same, all_newest-perm}

with_newest-IsTidy : (item : Item) (f : Rows) → IsTidy f → IsTidy (with_newest item f)
with_newest-IsTidy item f tidy table key d e =
    ground (arith, tidy table key d, is_at-eq (document_of item) table key)

IsTidy-same : (f g : Rows) → SameRows g f → IsTidy f → IsTidy g
IsTidy-same f g same tidy table key d e = tidy table key d (sym (same table key) ∙ e)

-- Every row that was there is there, of the same block or a later one.
abbrev pub Advances : Rows → Rows → Type 0
Advances f g =
    (table : GoString) (key : Key) (d : Document)
    → f table key ≡ some d
    → (d' : Document) × (g table key ≡ some d') × (document_num d ≤ document_num d')

newest_advances :
    (item : Item) (d : Document)
    → (d' : Document) × (newest (some d) item ≡ some d') × (document_num d ≤ document_num d')
newest_advances item d = elim (dec_lt (document_num d) (num_of item)) [
  | yes later ↦ (document_of item, ground arith, omega (arith, num_of-document item))
  | no early ↦ (d, ground arith, omega arith)
]

with_newest-Advances : (item : Item) (f : Rows) → Advances f (with_newest item f)
with_newest-Advances item f table key d e = elim (Bool-cases (is_at (document_of item) table key)) [
  | inl own ↦ rw (own, e) (newest_advances item d)
  | inr other ↦ rw other (d, e, omega arith)
]

Advances-same : (f g h : Rows) → SameRows h g → Advances f g → Advances f h
Advances-same f g h same adv table key d e =
    let (d', there, le) = adv table key d e in (d', same table key ∙ there, le)

Advances-trans : (f g h : Rows) → Advances f g → Advances g h → Advances f h
Advances-trans f g h p q table key d e =
    let (d', there, le) = p table key d e in
    let (d'', there', le') = q table key d' there in (d'', there', omega arith)

module _ (base : Database) where
  -- The calls one after the other; the caller drops an error.
  unfoldable pub put_items : List Item → Mirror base.Db → Mirror base.Db
  put_items [] m = m
  put_items (item ∷ items) m = put_items items (put_item base item m).1

  -- The database answers every call.
  unfoldable pub AllAnswered : List Item → Mirror base.Db → Type 0
  AllAnswered [] m = Unit
  AllAnswered (item ∷ items) m =
      ((put_item base item m).0 ≡ ok tt) × AllAnswered items (put_item base item m).1

  -- What the calls need of the mirror, and leave true.
  pub record IsReady (m : Mirror base.Db) : Type 0 where
    pub connected : IsConnected base m
    pub tidy : IsTidy (rows_of base m)

module _ (base : Database) (law : IsLawfulDatabase base) where
  -- Whatever comes of a call, the rows are as before or with the item.
  rows_after_put :
      (item : Item) (m : Mirror base.Db)
      → IsReady base m
      → SameRows (rows_of base (put_item base item m).1) (rows_of base m)
        ⊎ SameRows (rows_of base (put_item base item m).1) (with_newest item (rows_of base m))
  rows_after_put item m ready =
      elim ((put_item-Put base law item m ready.connected ready.tidy).rows_after) [
        | inl (done, same) ↦ inr same
        | inr (e, failed, either) ↦ either
      ]

  pub put_item-IsReady :
      (item : Item) (m : Mirror base.Db) → IsReady base m → IsReady base (put_item base item m).1
  put_item-IsReady item m ready =
      let p = put_item-Put base law item m ready.connected ready.tidy in
      record {
        connected = record {
          session = ap (λ v. v.has_session) p.variables ∙ ready.connected.session;
          mutex = ap (λ v. v.has_mutex) p.variables ∙ ready.connected.mutex;
        };
        tidy = elim (rows_after_put item m ready) [
          | inl same ↦ IsTidy-same _ _ same ready.tidy
          | inr same ↦ IsTidy-same _ _ same (with_newest-IsTidy item (rows_of base m) ready.tidy)
        ];
      }

  put_item-Advances :
      (item : Item) (m : Mirror base.Db)
      → IsReady base m
      → Advances (rows_of base m) (rows_of base (put_item base item m).1)
  put_item-Advances item m ready = elim (rows_after_put item m ready) [
    | inl same ↦ Advances-same _ (rows_of base m) _ same (λ table key d e. (d, e, omega arith))
    | inr same ↦ Advances-same _ _ _ same (with_newest-Advances item (rows_of base m))
  ]

  -- With a lawful database and a connected mirror whose rows stand in the tables of their kinds, no
  -- sequence of updates loses a row or puts an older block in the place of a later one, whichever of
  -- the calls fail.
  pub put_items-Advances :
      (items : List Item) (m : Mirror base.Db)
      → IsReady base m
      → Advances (rows_of base m) (rows_of base (put_items base items m))
  unfolding put_items
  put_items-Advances [] m ready table key d e = (d, e, omega arith)
  put_items-Advances (item ∷ items) m ready table key d e =
      Advances-trans _ _ _ (put_item-Advances item m ready)
        (put_items-Advances items (put_item base item m).1 (put_item-IsReady item m ready)) table
        key d e

  pub put_items-IsReady :
      (items : List Item) (m : Mirror base.Db)
      → IsReady base m
      → IsReady base (put_items base items m)
  unfolding put_items
  put_items-IsReady [] m ready = ready
  put_items-IsReady (item ∷ items) m ready =
      put_items-IsReady items (put_item base item m).1 (put_item-IsReady item m ready)

  pub put_items-current :
      (items : List Item) (m : Mirror base.Db)
      → IsReady base m
      → (put_items base items m).current_latest_ons_event ≡ m.current_latest_ons_event
  unfolding put_items
  put_items-current [] m ready = refl
  put_items-current (item ∷ items) m ready =
      let p = put_item-Put base law item m ready.connected ready.tidy in
      put_items-current items (put_item base item m).1 (put_item-IsReady item m ready)
      ∙ ap (λ v. v.current_latest_ons_event) p.variables

  pub answered_row :
      (item : Item) (m : Mirror base.Db)
      → IsReady base m
      → (put_item base item m).0 ≡ ok tt
      → SameRows (rows_of base (put_item base item m).1) (with_newest item (rows_of base m))
  answered_row item m ready done =
      elim ((put_item-Put base law item m ready.connected ready.tidy).rows_after) [
        | inl (done', same) ↦ same
        | inr (e, failed, either) ↦ absurd (ground (arith, sym done ∙ failed))
      ]

  -- Where the database answers, the rows after a sequence are those of the reference.
  pub put_items-newest :
      (items : List Item) (m : Mirror base.Db)
      → IsReady base m
      → AllAnswered base items m
      → SameRows (rows_of base (put_items base items m)) (all_newest items (rows_of base m))
  unfolding put_items AllAnswered all_newest
  put_items-newest [] m ready answered table key = refl
  put_items-newest (item ∷ items) m ready answered table key =
      put_items-newest items (put_item base item m).1 (put_item-IsReady item m ready) answered.1
        table key
      ∙ all_newest-same items _ _ (answered_row item m ready answered.0) table key

  -- With a lawful database and a connected mirror whose rows stand in the tables of their kinds, two
  -- orders of the same updates, all answered, leave the same rows, if any two of the updates for one
  -- row are of different blocks.
  pub put_items-perm :
      (items others : List Item) (m : Mirror base.Db)
      → IsReady base m
      → Permᴰ items others
      → AllApart items
      → AllAnswered base items m
      → AllAnswered base others m
      → SameRows (rows_of base (put_items base items m)) (rows_of base (put_items base others m))
  put_items-perm items others m ready order apart answered answered' table key =
      put_items-newest items m ready answered table key
      ∙ all_newest-perm items others (rows_of base m) order apart table key
      ∙ sym (put_items-newest others m ready answered' table key)
