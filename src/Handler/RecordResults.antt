-- ===== src/Handler/RecordResults.antt =====
-- When a transaction on records succeeds, fails and panics, for a requestor who may edit the code.
use ons_sawtooth.Base.Logic.{
  ℕ, suc, ◌^◌, ◌<◌, ◌≤◌, ◌≡◌, ◌≢◌, refl, ap, subst, sym, inl, inr, ◌↔◌, [], ◌∷◌, ◌++◌, Option, none,
  some, true, false, Option-cases, arith, leb,
}
use ons_sawtooth.Base.Text.{GoString, text}
use ons_sawtooth.Base.Slice.{Slice, elements, length, get_elem?, take, drop, get_elem?-eq-none_iff}
use ons_sawtooth.Base.Outcome.{ok, err, panic, invalid_transaction, ◌>>=◌}
use ons_sawtooth.Proto.State.{Gs1CodeData, Record}
use ons_sawtooth.Proto.Payload.{AddRecordTransactionData, RemoveRecordTransactionData}
use ons_sawtooth.Proto.Getters.{
  get_gs1_code_of_add_record, get_gs1_code_of_remove_record, get_index_of_remove_record,
}
use ons_sawtooth.Sdk.{Sdk}
use ons_sawtooth.Sdk.Laws.{IsLawful, wire_gs1_code, wire_slice}
use ons_sawtooth.World.{World}
use ons_sawtooth.Registry.{load_gs1_code, save_gs1_code}
use ons_sawtooth.Registry.Laws.{registry, load_gs1_code-registry}
use ons_sawtooth.Manager.Edit.{append_slice}
use ons_sawtooth.Handler.Gate.{MayEdit, if_permitted_editor}
use ons_sawtooth.Handler.Codes.{existing}
use ons_sawtooth.Handler.Records.{
  apply_add_record, apply_remove_record, new_record, record_count, without_index, remove_at,
}
use ons_sawtooth.Handler.RecordEffects.{without_index-eq}
use ons_sawtooth.Handler.Success.{IsAccepting, Leaves, save-Leaves}

wire_slice-append_slice :
    (s : Slice Record) (r : Record) → wire_slice (append_slice s r) ≡ some (elements s ++ (r ∷ []))
wire_slice-append_slice none r = refl
wire_slice-append_slice (some []) r = refl
wire_slice-append_slice (some (x ∷ xs)) r = refl

wire_appended :
    (m : Gs1CodeData) (r : Record)
    → wire_gs1_code (record m { records = append_slice m.records r })
      ≡ record m { records = some (elements m.records ++ (r ∷ [])) }
wire_appended m r = ap (λ t. record m { records = t }) (wire_slice-append_slice m.records r)

module _ (sdk : Sdk) where
  -- What a removal by an editor comes to: the work on the code found.
  remove_granted :
      (request : Option RemoveRecordTransactionData) (requestor : GoString) (m : Gs1CodeData)
      (w : World sdk.Store)
      → w.state_cached ≡ true
      → MayEdit sdk (get_gs1_code_of_remove_record request) requestor w
      → registry sdk w.store (get_gs1_code_of_remove_record request) ≡ ok (some m)
      → apply_remove_record sdk request requestor w
        ≡ remove_at sdk (get_index_of_remove_record request) requestor m w
  unfolding apply_remove_record
  remove_granted request requestor m w cached may known =
      let c = get_gs1_code_of_remove_record request in
      rw (
        if_permitted_editor sdk c requestor (text "applyRemoveRecord : Authentication failed")
            (load_gs1_code sdk c >>= (λ found.
              existing sdk found >>= remove_at sdk (get_index_of_remove_record request) requestor))
            w cached may,
        load_gs1_code-registry sdk c w,
        known,
      )

  add_granted :
      (request : Option AddRecordTransactionData) (requestor : GoString) (m : Gs1CodeData)
      (w : World sdk.Store)
      → w.state_cached ≡ true
      → MayEdit sdk (get_gs1_code_of_add_record request) requestor w
      → registry sdk w.store (get_gs1_code_of_add_record request) ≡ ok (some m)
      → apply_add_record sdk request requestor w
        ≡ save_gs1_code sdk
            (record m { records = append_slice m.records (new_record request requestor) })
            w
  unfolding apply_add_record
  add_granted request requestor m w cached may known =
      let c = get_gs1_code_of_add_record request in
      rw (
        if_permitted_editor sdk c requestor (text "applyAddRecord : Authentication failed")
            (load_gs1_code sdk c >>= (λ found. existing sdk found >>= (λ d.
              save_gs1_code sdk
                (record d { records = append_slice d.records (new_record request requestor) }))))
            w cached may,
        load_gs1_code-registry sdk c w,
        known,
      )

  save-ne-panic : (d : Gs1CodeData) (w : World sdk.Store) → (save_gs1_code sdk d w).0 ≢ panic
  unfolding save_gs1_code
  save-ne-panic d w = ground arith

  remove_at_past_end :
      (idx : ℕ) (requestor : GoString) (m : Gs1CodeData) (w : World sdk.Store)
      → get_elem? (elements m.records) idx ≡ none
      → remove_at sdk idx requestor m w ≡ (panic, w)
  remove_at_past_end idx requestor m w past_end = ground arith

  remove_at-ne-panic :
      (idx : ℕ) (requestor : GoString) (m : Gs1CodeData) (r : Record) (w : World sdk.Store)
      → get_elem? (elements m.records) idx ≡ some r
      → (remove_at sdk idx requestor m w).0 ≢ panic
  remove_at-ne-panic idx requestor m r w there = ground (
    arith,
    save-ne-panic (record m { records = some (without_index idx (elements m.records)) }) w,
  )

  remove_at_own :
      (idx : ℕ) (requestor : GoString) (m : Gs1CodeData) (r : Record) (w : World sdk.Store)
      → get_elem? (elements m.records) idx ≡ some r
      → r.provider ≡ requestor
      → leb (record_count m) idx ≡ false
      → remove_at sdk idx requestor m w
        ≡ save_gs1_code sdk (record m { records = some (without_index idx (elements m.records)) }) w
  remove_at_own idx requestor m r w there provided below = ground arith

index_below :
    (idx : ℕ) (m : Gs1CodeData) (r : Record)
    → length (elements m.records) < 2 ^ 32
    → get_elem? (elements m.records) idx ≡ some r
    → leb (record_count m) idx ≡ false
index_below idx m r small there = ground (arith, (get_elem?-eq-none_iff (elements m.records) idx).1)

module _ (sdk : Sdk) (requestor : GoString) (m : Gs1CodeData) (w : World sdk.Store)
    (cached : w.state_cached ≡ true) where
  -- With the cache loaded, an editor's removal from a known code panics exactly when the index is
  -- past the end of the records: the handler reads the record before it checks the index.
  pub remove_record-panic_iff :
      (request : Option RemoveRecordTransactionData)
      → MayEdit sdk (get_gs1_code_of_remove_record request) requestor w
      → registry sdk w.store (get_gs1_code_of_remove_record request) ≡ ok (some m)
      → ((apply_remove_record sdk request requestor w).0 ≡ panic)
        ↔ (length (elements m.records) ≤ get_index_of_remove_record request)
  remove_record-panic_iff request may known =
      let idx = get_index_of_remove_record request in
      let at_end = get_elem?-eq-none_iff (elements m.records) idx in
      rw (remove_granted sdk request requestor m w cached may known)
        (elim (Option-cases (get_elem? (elements m.records) idx)) [
          | inl past_end ↦ (
            λ _. at_end.0 past_end,
            λ _. ap (λ r. r.0) (remove_at_past_end sdk idx requestor m w past_end),
          )
          | inr (r, there) ↦ (
            λ e. absurd (remove_at-ne-panic sdk idx requestor m r w there e),
            λ l. absurd (ground (arith, at_end.1 l)),
          )
        ])

  -- With the cache loaded, an editor's removal from a known code of a record that another provides
  -- fails with an error, and nothing changes.
  pub remove_record_of_another :
      (request : Option RemoveRecordTransactionData) (r : Record)
      → MayEdit sdk (get_gs1_code_of_remove_record request) requestor w
      → registry sdk w.store (get_gs1_code_of_remove_record request) ≡ ok (some m)
      → get_elem? (elements m.records) (get_index_of_remove_record request) ≡ some r
      → r.provider ≢ requestor
      → apply_remove_record sdk request requestor w
        ≡ (err (invalid_transaction (text "applyRemoveRecord : mismatch provider address")), w)
  remove_record_of_another request r may known there other =
      rw (remove_granted sdk request requestor m w cached may known) (ground arith)

module _ (sdk : Sdk) (law : IsLawful sdk) (accepting : IsAccepting sdk) (requestor : GoString)
    (m : Gs1CodeData) (w : World sdk.Store) (cached : w.state_cached ≡ true) where
  -- With the cache loaded and a lawful validator that accepts what it is sent, an editor adds a
  -- record to a known code that is stored under its own name, not empty: it stands at the end,
  -- inactive and provided by the editor, and all else of the code is as it was.
  pub add_record_succeeds :
      (request : Option AddRecordTransactionData)
      → MayEdit sdk (get_gs1_code_of_add_record request) requestor w
      → registry sdk w.store (get_gs1_code_of_add_record request) ≡ ok (some m)
      → m.gs1_code ≡ get_gs1_code_of_add_record request
      → m.gs1_code ≢ []
      → Leaves sdk m.gs1_code
          (some (record m {
            records = some (elements m.records ++ (new_record request requestor ∷ []));
          }))
          (apply_add_record sdk request requestor w)
  add_record_succeeds request may known named nonempty =
      let after = record m { records = append_slice m.records (new_record request requestor) } in
      rw (add_granted sdk request requestor m w cached may known) (
        rw (← wire_appended m (new_record request requestor)) (
          save-Leaves sdk law accepting after w (some m) nonempty
            (subst (λ c. registry sdk w.store c ≡ ok (some m)) (sym named) known)))

  -- With the cache loaded and a lawful validator that accepts what it is sent, an editor removes a
  -- record of his own from a known code, stored under its own name, not empty and of fewer than 2 ^
  -- 32 records: what stands before and behind the record is left.
  pub remove_record_succeeds :
      (request : Option RemoveRecordTransactionData) (r : Record)
      → MayEdit sdk (get_gs1_code_of_remove_record request) requestor w
      → registry sdk w.store (get_gs1_code_of_remove_record request) ≡ ok (some m)
      → m.gs1_code ≡ get_gs1_code_of_remove_record request
      → m.gs1_code ≢ []
      → length (elements m.records) < 2 ^ 32
      → get_elem? (elements m.records) (get_index_of_remove_record request) ≡ some r
      → r.provider ≡ requestor
      → Leaves sdk m.gs1_code
          (some (
            wire_gs1_code (record m {
              records = some (
                  take (get_index_of_remove_record request) (elements m.records)
                  ++ drop (suc (get_index_of_remove_record request)) (elements m.records));
            })))
          (apply_remove_record sdk request requestor w)
  remove_record_succeeds request r may known named nonempty small there provided =
      let idx = get_index_of_remove_record request in
      let below = index_below idx m r small there in
      rw
        (
          remove_granted sdk request requestor m w cached may known,
          remove_at_own sdk idx requestor m r w there provided below,
          ← without_index-eq idx m below,
        )
        (save-Leaves sdk law accepting
          (record m { records = some (without_index idx (elements m.records)) }) w (some m) nonempty
          (subst (λ c. registry sdk w.store c ≡ ok (some m)) (sym named) known))
