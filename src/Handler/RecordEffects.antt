-- ===== src/Handler/RecordEffects.antt =====
-- The handlers of records, as relations on the abstract registry.
use ons_sawtooth.Base.Logic.{
  ℕ, suc, ◌+◌, ◌≡◌, ◌≢◌, refl, inl, inr, List, [], ◌∷◌, ◌++◌, Option, some, false, Bool-cases,
  Option-cases, arith, leb,
}
use ons_sawtooth.Base.Text.{GoString}
use ons_sawtooth.Base.Slice.{
  elements, get_elem?, take, drop, split_at, set_split, get_elem?-lt, length, length-take,
  get_elem?-eq-none_iff,
}
use ons_sawtooth.Base.Outcome.{ok}
use ons_sawtooth.Proto.State.{Gs1CodeData, Record, RecordState}
use ons_sawtooth.Proto.Payload.{
  AddRecordTransactionData, RemoveRecordTransactionData, ChangeRecordStateTransactionData,
}
use ons_sawtooth.Proto.Getters.{
  get_flags_of_record_data, get_service_of_record_data, get_regexp_of_record_data,
  get_record_data_of_add_record, get_gs1_code_of_add_record, get_gs1_code_of_remove_record,
  get_index_of_remove_record, get_gs1_code_of_change_record_state, get_index_of_change_record_state,
  get_state_of_change_record_state,
}
use ons_sawtooth.Sdk.{Sdk}
use ons_sawtooth.Sdk.Laws.{IsLawful}
use ons_sawtooth.World.{World}
use ons_sawtooth.Manager.Edit.{append_slice}
use ons_sawtooth.Registry.{save_gs1_code}
use ons_sawtooth.Registry.Laws.{registry}
use ons_sawtooth.Handler.Records.{
  apply_add_record, apply_remove_record, apply_change_record_state, new_record, record_count,
  without_index, with_state, remove_at, change_state_at, u32,
}
use ons_sawtooth.Handler.Transitions.{Adds, Removes, SetsRecordState}
use ons_sawtooth.Handler.Effect.{
  Effect, IsNamed, IsNamed-transport, if_permitted-Effect, save-Effect,
}
use ons_sawtooth.Handler.CodeEffects.{load_existing-Effect}

append_slice-elements :
    (m : Gs1CodeData) (r : Record)
    → append_slice m.records r ≡ some (elements m.records ++ (r ∷ []))
append_slice-elements m r = ground arith

-- Below the count no index wraps.
pub without_index-eq :
    (idx : ℕ) (m : Gs1CodeData)
    → leb (record_count m) idx ≡ false
    → without_index idx (elements m.records)
      ≡ take idx (elements m.records) ++ drop (suc idx) (elements m.records)
without_index-eq idx m h = let bound : u32 (idx + 1) ≡ suc idx = ground arith in rw bound

pub with_state-eq :
    (state : RecordState) (idx : ℕ) (records : List Record) (r : Record)
    → get_elem? records idx ≡ some r
    → with_state state idx records
      ≡ take idx records ++ (record r { state = state } ∷ drop (suc idx) records)
with_state-eq state idx records r e =
    rw (e, with_state) (set_split records idx r (record r { state = state }) e)

-- The records before the one at an index are as many as the index says.
length_before :
    (xs : List Record) (idx : ℕ) (r : Record)
    → get_elem? xs idx ≡ some r
    → length (take idx xs) ≡ idx
length_before xs idx r there = length-take idx xs (ground (arith, (get_elem?-eq-none_iff xs idx).1))

module _ (sdk : Sdk) (law : IsLawful sdk) where
  save_removed-Effect :
      (idx : ℕ) (requestor gs1_code : GoString) (m : Gs1CodeData) (r : Record) (w : World sdk.Store)
      → gs1_code ≢ []
      → m.gs1_code ≡ gs1_code
      → registry sdk w.store gs1_code ≡ ok (some m)
      → get_elem? (elements m.records) idx ≡ some r
      → r.provider ≡ requestor
      → leb (record_count m) idx ≡ false
      → Effect sdk (Removes idx requestor) gs1_code w.store (
          save_gs1_code sdk
            (record m { records = some (without_index idx (elements m.records)) })
            w)
  save_removed-Effect idx requestor gs1_code m r w nonempty named was there provided below =
      rw (without_index-eq idx m below) (
        save-Effect sdk law (Removes idx requestor) gs1_code (some m) _ w nonempty named was (
          Removes.removes m (take idx (elements m.records)) r (drop (suc idx) (elements m.records))
            (split_at (elements m.records) idx r there)
            (length_before (elements m.records) idx r there) provided))

  remove_at-Effect :
      (idx : ℕ) (requestor gs1_code : GoString) (m : Gs1CodeData) (w : World sdk.Store)
      → gs1_code ≢ []
      → m.gs1_code ≡ gs1_code
      → registry sdk w.store gs1_code ≡ ok (some m)
      → Effect sdk (Removes idx requestor) gs1_code w.store (remove_at sdk idx requestor m w)
  remove_at-Effect idx requestor gs1_code m w nonempty named was =
      elim (Option-cases (get_elem? (elements m.records) idx)) [
        | inl past_end ↦ inr (ground arith, ground arith)
        | inr (r, there) ↦
            ground
              (arith, save_removed-Effect idx requestor gs1_code m r w nonempty named was there)
      ]

  save_changed-Effect :
      (idx : ℕ) (state : RecordState) (gs1_code : GoString) (m : Gs1CodeData) (r : Record)
      (w : World sdk.Store)
      → gs1_code ≢ []
      → m.gs1_code ≡ gs1_code
      → registry sdk w.store gs1_code ≡ ok (some m)
      → get_elem? (elements m.records) idx ≡ some r
      → Effect sdk (SetsRecordState idx state) gs1_code w.store (
          save_gs1_code sdk
            (record m { records = some (with_state state idx (elements m.records)) })
            w)
  save_changed-Effect idx state gs1_code m r w nonempty named was there =
      rw (with_state-eq state idx (elements m.records) r there) (
        save-Effect sdk law (SetsRecordState idx state) gs1_code (some m) _ w nonempty named was (
          SetsRecordState.sets_record_state m (take idx (elements m.records)) r
            (drop (suc idx) (elements m.records)) (split_at (elements m.records) idx r there)
            (length_before (elements m.records) idx r there)))

  -- Below the count, which is that of the list modulo 2 ^ 32, there is a record.
  count_below :
      (idx : ℕ) (m : Gs1CodeData)
      → leb (record_count m) idx ≡ false
      → (r : Record) × (get_elem? (elements m.records) idx ≡ some r)
  count_below idx m below = get_elem?-lt (elements m.records) idx (ground arith)

  change_state_at-Effect :
      (idx : ℕ) (state : RecordState) (gs1_code : GoString) (m : Gs1CodeData) (w : World sdk.Store)
      → gs1_code ≢ []
      → m.gs1_code ≡ gs1_code
      → registry sdk w.store gs1_code ≡ ok (some m)
      → Effect sdk (SetsRecordState idx state) gs1_code w.store (change_state_at sdk idx state m w)
  change_state_at-Effect idx state gs1_code m w nonempty named was =
      elim (Bool-cases (leb (record_count m) idx)) [
        | inl past_end ↦ rw (past_end) (inr (ground arith, refl))
        | inr below ↦
            let (r, there) = count_below idx m below in
            rw (below) (save_changed-Effect idx state gs1_code m r w nonempty named was there)
      ]

module _ (sdk : Sdk) (law : IsLawful sdk) (requestor : GoString) (w : World sdk.Store) where
  -- Under a lawful validator, at a code that is not empty and whose entry bears its name, an
  -- addition either succeeds, and then the code was known, afterwards has after its records the one
  -- with the request's flags, service and regexp, inactive and provided by the requestor, and all
  -- else it had, as that stands on the wire, and the ledger is the same at every other address; or
  -- does not succeed and leaves the ledger as it was.
  pub apply_add_record-Effect :
      (request : Option AddRecordTransactionData)
      → get_gs1_code_of_add_record request ≢ []
      → IsNamed sdk w.store (get_gs1_code_of_add_record request)
      → Effect sdk
          (Adds
            (get_flags_of_record_data (get_record_data_of_add_record request))
            (get_service_of_record_data (get_record_data_of_add_record request))
            (get_regexp_of_record_data (get_record_data_of_add_record request))
            requestor)
          (get_gs1_code_of_add_record request)
          w.store
          (apply_add_record sdk request requestor w)
  unfolding apply_add_record
  apply_add_record-Effect request nonempty named =
      let c = get_gs1_code_of_add_record request in
      let r = new_record request requestor in
      let R = Adds r.flags r.service r.regexp requestor in
      if_permitted-Effect sdk R c requestor _ c _ _ w (λ v same.
        load_existing-Effect sdk law R c
          (λ m. save_gs1_code sdk (record m { records = append_slice m.records r })) v
          (λ m was. rw (append_slice-elements m r) (
            save-Effect sdk law R c (some m) _ v nonempty
              (IsNamed-transport sdk w.store v.store c same named m was) was (Adds.adds m))))

  -- Under a lawful validator, at a code that is not empty and whose entry bears its name, a removal
  -- either succeeds, and then the code was known with a record at the request's index that the
  -- requestor provides, afterwards has the records before and after it and all else it had, as that
  -- stands on the wire, and the
  -- ledger is the same at every other address; or does not succeed and leaves the ledger as it
  -- was.
  pub apply_remove_record-Effect :
      (request : Option RemoveRecordTransactionData)
      → get_gs1_code_of_remove_record request ≢ []
      → IsNamed sdk w.store (get_gs1_code_of_remove_record request)
      → Effect sdk
          (Removes (get_index_of_remove_record request) requestor)
          (get_gs1_code_of_remove_record request)
          w.store
          (apply_remove_record sdk request requestor w)
  unfolding apply_remove_record
  apply_remove_record-Effect request nonempty named =
      let c = get_gs1_code_of_remove_record request in
      let idx = get_index_of_remove_record request in
      let R = Removes idx requestor in
      if_permitted-Effect sdk R c requestor _ c _ _ w (λ v same.
        load_existing-Effect sdk law R c (remove_at sdk idx requestor) v (λ m was.
          remove_at-Effect sdk law idx requestor c m v nonempty
            (IsNamed-transport sdk w.store v.store c same named m was) was))

  -- Under a lawful validator, at a code that is not empty and whose entry bears its name, a change
  -- of a record's state either succeeds, and then the code was known with a record at the request's
  -- index, afterwards that record has the request's state, the other records and all else are as
  -- they were, as that stands on the wire, and the ledger is the same at every other address; or
  -- does not succeed and leaves the ledger as it was.
  pub apply_change_record_state-Effect :
      (request : Option ChangeRecordStateTransactionData)
      → get_gs1_code_of_change_record_state request ≢ []
      → IsNamed sdk w.store (get_gs1_code_of_change_record_state request)
      → Effect sdk
          (SetsRecordState
            (get_index_of_change_record_state request)
            (get_state_of_change_record_state request))
          (get_gs1_code_of_change_record_state request)
          w.store
          (apply_change_record_state sdk request requestor w)
  unfolding apply_change_record_state
  apply_change_record_state-Effect request nonempty named =
      let c = get_gs1_code_of_change_record_state request in
      let idx = get_index_of_change_record_state request in
      let s = get_state_of_change_record_state request in
      let R = SetsRecordState idx s in
      if_permitted-Effect sdk R [] requestor _ c _ _ w (λ v same.
        load_existing-Effect sdk law R c (change_state_at sdk idx s) v (λ m was.
          change_state_at-Effect sdk law idx s c m v nonempty
            (IsNamed-transport sdk w.store v.store c same named m was) was))
