-- ===== src/Client/Batches.antt =====
-- What a batch list of the client is to the validator that unmarshals it.
use ons_sawtooth.Base.Logic.{◌≡◌, refl, [], ◌∷◌, true, Option, some, arith, inl, inr}
use ons_sawtooth.Base.Text.{GoString, Bytes}
use ons_sawtooth.Base.Outcome.{success, Reply-cases}
use ons_sawtooth.Proto.Payload.{SendOnsTransactionPayload}
use ons_sawtooth.Sdk.{Sdk}
use ons_sawtooth.Sdk.Laws.{RoundTrips}
use ons_sawtooth.Address.{hexdigest}
use ons_sawtooth.Address.Client.{hexdigest_by_byte}
use ons_sawtooth.Client.Batch.{
  TransactionHeader, Transaction, BatchHeader, Batch, Signing, returned, lower_hex,
  transaction_header, transaction_of, batch_header, batch_of, make_batch_list,
}

-- What was marshalled comes back, and a signature verifies under the signer's key.
pub record IsSound (signing : Signing) : Type 0 where
  pub transaction_headers : RoundTrips (λ m. m) signing.transaction_header_codec
  pub batch_headers : RoundTrips (λ m. m) signing.batch_header_codec
  pub batch_lists : RoundTrips (λ m. m) signing.batch_list_codec
  pub verifies :
      (bytes : Bytes)
      → signing.verify signing.public_key bytes (lower_hex (signing.sign bytes)) ≡ true

module _ (sdk : Sdk) (signing : Signing) where
  -- What the validator and the processor ask of a list of one transaction: both headers signed by one
  -- key, the batch naming its transaction, and the digest that of the payload that is carried.
  pub record IsSubmission (payload address : GoString) (bytes : Bytes) : Type 0 where
    pub batch : Batch
    pub transaction : Transaction
    pub header : TransactionHeader
    pub header_of_batch : BatchHeader
    pub list_read :
        signing.batch_list_codec.unmarshal bytes ≡ success (record { batches = batch ∷ [] })
    pub transactions : batch.transactions ≡ transaction ∷ []
    pub header_read : signing.transaction_header_codec.unmarshal transaction.header ≡ success header
    pub batch_header_read :
        signing.batch_header_codec.unmarshal batch.header ≡ success header_of_batch
    pub names_transaction : header_of_batch.transaction_ids ≡ transaction.header_signature ∷ []
    pub one_signer : header_of_batch.signer_public_key ≡ header.batcher_public_key
    pub transaction_signed :
        signing.verify header.signer_public_key transaction.header transaction.header_signature
        ≡ true
    pub batch_signed :
        signing.verify header_of_batch.signer_public_key batch.header batch.header_signature ≡ true
    pub carries : transaction.payload ≡ payload
    pub digested : header.payload_sha512 ≡ hexdigest sdk.sha512 transaction.payload
    pub reads : header.inputs ≡ address ∷ []
    pub writes : header.outputs ≡ address ∷ []

  -- With sound codecs and signatures, a batch list that the client returns carries the marshalled
  -- payload to the validator: it unmarshals to one batch of one transaction, both headers unmarshal,
  -- name one signer and bear a signature that verifies, the batch names its transaction, the digest
  -- is that of the payload, and the address is the one input and output.
  pub make_batch_list-IsSubmission :
      (p : Option SendOnsTransactionPayload) (address timestamp : GoString) (bytes : Bytes)
      → IsSound signing
      → make_batch_list sdk signing p address timestamp ≡ returned (success bytes)
      → (payload : Bytes) × (sdk.payload_codec.marshal p ≡ success payload)
        × IsSubmission payload address bytes
  unfolding make_batch_list hexdigest hexdigest_by_byte
  make_batch_list-IsSubmission p address timestamp bytes sound e =
      elim (Reply-cases (sdk.payload_codec.marshal p)) [
        | inr (x, failed) ↦ absurd (ground arith)
        | inl (payload, packed) ↦
            let header = transaction_header sdk signing payload address timestamp in
            elim (Reply-cases (signing.transaction_header_codec.marshal (some header))) [
              | inr (x, failed) ↦ absurd (ground arith)
              | inl (h, made) ↦
                  let transaction = transaction_of sdk signing h payload in
                  let of_batch = batch_header sdk signing transaction in
                  elim (Reply-cases (signing.batch_header_codec.marshal (some of_batch))) [
                    | inr (x, failed) ↦ absurd (ground arith)
                    | inl (b, made_too) ↦
                        let batch = batch_of sdk signing b transaction in
                        let listed : signing.batch_list_codec.marshal
                              (some (record { batches = batch ∷ [] }))
                            ≡ success bytes =
                          ground arith in
                        (
                          payload,
                          packed,
                          record {
                            batch = batch;
                            transaction = transaction;
                            header = header;
                            header_of_batch = of_batch;
                            list_read = sound.batch_lists _ bytes listed;
                            transactions = refl;
                            header_read = sound.transaction_headers header h made;
                            batch_header_read = sound.batch_headers of_batch b made_too;
                            names_transaction = refl;
                            one_signer = refl;
                            transaction_signed = sound.verifies h;
                            batch_signed = sound.verifies b;
                            carries = refl;
                            digested = refl;
                            reads = refl;
                            writes = refl;
                          },
                        )
                  ]
            ]
      ]
