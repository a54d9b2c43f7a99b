-- ===== src/Client/Queries.antt =====
-- A query of the client against what the validator's state holds.
use ons_sawtooth.Base.Logic.{ℕ, ◌≡◌, refl, ap, ◌∙◌, List, [], ◌∷◌, ◌++◌, Option, none, some, arith}
use ons_sawtooth.Base.Text.{GoString, text, Bytes}
use ons_sawtooth.Base.Dict.{Dict, lookup}
use ons_sawtooth.Base.Outcome.{Reply, success, failure, ok, err, Reply-cases}
use ons_sawtooth.Base.Logic.{inl, inr}
use ons_sawtooth.Proto.State.{Gs1CodeData}
use ons_sawtooth.Sdk.{Sdk, fetch}
use ons_sawtooth.Address.{make_address}
use ons_sawtooth.Address.Client.{make_address_by_gs1_code}
use ons_sawtooth.Address.Laws.{client_address_agrees}
use ons_sawtooth.Registry.Laws.{registry, address_of, decode_gs1_code}
use ons_sawtooth.Client.Query.{
  Scalar, string_scalar, number_scalar, Value, string_value, object_value, Rest, state_url,
  get_raw_data, query_gs1_code_data,
}

-- The fields by which the interface reports an error.
pub record IsReport (fields : Dict Scalar) : Type 0 where
  pub title : (s : GoString) × (lookup (text "title") fields ≡ some (string_scalar s))
  pub message : (s : GoString) × (lookup (text "message") fields ≡ some (string_scalar s))
  pub code : (n : ℕ) × (lookup (text "code") fields ≡ some (number_scalar n))

module _ (sdk : Sdk) (rest : Rest) where
  -- An answer to a request, down to the object that it is.
  pub record Answers (url : GoString) (json : Dict Value) : Type 0 where
    pub response : rest.Response
    pub body : Bytes
    pub got : rest.http_get url ≡ success response
    pub read : rest.read_all response ≡ success body
    pub parsed : rest.unmarshal_json body ≡ success json

  -- The interface serves a state: what stands at an address in base64, and otherwise an error.
  pub record IsServing (url : GoString) (s : sdk.Store) : Type 0 where
    pub served :
        (address : GoString) (b : ℕ) (bs : Bytes)
        → fetch sdk address s ≡ success (b ∷ bs)
        → (json : Dict Value) × (encoded : GoString) × Answers (state_url rest url address) json
          × (lookup (text "error") json ≡ none)
          × (lookup (text "data") json ≡ some (string_value encoded))
          × (rest.decode_base64 encoded ≡ success (b ∷ bs))
    pub unknown :
        (address : GoString)
        → fetch sdk address s ≡ success []
        → (json : Dict Value) × (fields : Dict Scalar) × Answers (state_url rest url address) json
          × (lookup (text "error") json ≡ some (object_value fields))
          × IsReport fields

  get_raw_data-served :
      (url address : GoString) (s : sdk.Store) (bytes : Bytes) (asked : List GoString)
      → IsServing url s
      → fetch sdk address s ≡ success bytes
      → get_raw_data rest address url asked ≡ (ok bytes, asked ++ (state_url rest url address ∷ []))
  unfolding get_raw_data
  get_raw_data-served url address s [] asked serving e =
      let (json, fields, a, error, report) = serving.unknown address e in
      let (title, t) = report.title in
      let (message, m) = report.message in
      let (code, c) = report.code in rw (a.got, a.read, a.parsed, error, t, m, c) refl
  get_raw_data-served url address s (b ∷ bs) asked serving e =
      let (json, encoded, a, fine, there, decoded) = serving.served address b bs e in
      rw (a.got, a.read, a.parsed, fine, there, decoded) refl

  -- What the client gets for the bytes at the address of a code.
  query_bytes :
      (url gs1_code : GoString) (s : sdk.Store) (bytes : Bytes) (asked : List GoString)
      → IsServing url s
      → fetch sdk (make_address sdk.sha512 gs1_code) s ≡ success bytes
      → query_gs1_code_data rest sdk (make_address_by_gs1_code sdk.sha512 gs1_code) url asked ≡ (
        elim (sdk.gs1_code_codec.unmarshal bytes) [ success m ↦ ok m | failure e ↦ err e ],
        asked ++ (state_url rest url (make_address sdk.sha512 gs1_code) ∷ []),
      )
  unfolding query_gs1_code_data
  query_bytes url gs1_code s bytes asked serving e =
      rw
        (
          client_address_agrees sdk.sha512 gs1_code,
          get_raw_data-served url (make_address sdk.sha512 gs1_code) s bytes asked serving e,
        )
        (elim (Reply-cases (sdk.gs1_code_codec.unmarshal bytes)) [
          | inl (m, u) ↦ rw u refl
          | inr (x, u) ↦ rw u refl
        ])

  -- With the message that no bytes stand for.
  abbrev pub or_empty : Gs1CodeData → Option Gs1CodeData → Gs1CodeData
  or_empty empty none = empty
  or_empty empty (some m) = m

  known_bytes :
      (gs1_code : GoString) (s : sdk.Store) (o : Option Gs1CodeData) (empty : Gs1CodeData)
      (r : Reply Bytes)
      → sdk.gs1_code_codec.unmarshal [] ≡ success empty
      → decode_gs1_code sdk (address_of sdk gs1_code) r ≡ ok o
      → (bytes : Bytes) × (r ≡ success bytes)
        × (sdk.gs1_code_codec.unmarshal bytes ≡ success (or_empty empty o))
  known_bytes gs1_code s o empty (failure e) zero_message known = absurd (ground arith)
  known_bytes gs1_code s none empty (success []) zero_message known = ([], refl, zero_message)
  known_bytes gs1_code s (some m) empty (success []) zero_message known = absurd (ground arith)
  known_bytes gs1_code s o empty (success (b ∷ bs)) zero_message known =
      elim (Reply-cases (sdk.gs1_code_codec.unmarshal (b ∷ bs))) [
        | inl (m, u) ↦
            let same : some m ≡ o = ground arith in
            (b ∷ bs, refl, u ∙ ap (λ x. success (or_empty empty x)) same)
        | inr (x, u) ↦ absurd (ground arith)
      ]

  -- If the REST interface serves a state, no bytes unmarshal to the empty message, and the registry
  -- can tell of a code, a query for the client's address of the code asks for one URL and returns
  -- what the registry holds; for a code that the registry does not know it returns the empty
  -- message, and no error.
  pub query-registry :
      (url gs1_code : GoString) (s : sdk.Store) (o : Option Gs1CodeData) (empty : Gs1CodeData)
      (asked : List GoString)
      → IsServing url s
      → sdk.gs1_code_codec.unmarshal [] ≡ success empty
      → registry sdk s gs1_code ≡ ok o
      → query_gs1_code_data rest sdk (make_address_by_gs1_code sdk.sha512 gs1_code) url asked ≡ (
        ok (or_empty empty o),
        asked ++ (state_url rest url (make_address sdk.sha512 gs1_code) ∷ []),
      )
  query-registry url gs1_code s o empty asked serving zero_message known =
      let (bytes, there, decoded) =
        known_bytes gs1_code s o empty (fetch sdk (address_of sdk gs1_code) s) zero_message known in
      query_bytes url gs1_code s bytes asked serving there ∙ rw decoded refl
