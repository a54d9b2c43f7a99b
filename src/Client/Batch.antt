-- ===== src/Client/Batch.antt =====
-- `MakeBatchList` of the command line client (src/ons_test/sawtooth-ons-test.go): a payload wrapped
-- into a transaction, a batch and a batch list. The messages are those of the Sawtooth SDK; their
-- codecs and the signer are a parameter. A slice of a message is a list here, as none is told from an
-- empty one on the wire.
use ons_sawtooth.Base.Logic.{ℕ, List, [], ◌∷◌, Bool, Option, some, map}
use ons_sawtooth.Base.Text.{GoString, text, Bytes}
use ons_sawtooth.Base.Outcome.{Reply, success, failure}
use ons_sawtooth.Proto.Payload.{SendOnsTransactionPayload}
use ons_sawtooth.Sdk.{Sdk, Codec}
use ons_sawtooth.Address.{hex_encode, lower}
use ons_sawtooth.Address.Client.{hexdigest_by_byte}

pub record TransactionHeader : Type 0 where
  pub family_name : GoString
  pub family_version : GoString
  pub inputs : List GoString
  pub outputs : List GoString
  pub batcher_public_key : GoString
  pub signer_public_key : GoString
  pub dependencies : List GoString
  pub payload_sha512 : GoString
  pub nonce : GoString

pub record Transaction : Type 0 where
  pub header : Bytes
  pub header_signature : GoString
  pub payload : Bytes

pub record BatchHeader : Type 0 where
  pub signer_public_key : GoString
  pub transaction_ids : List GoString

pub record Batch : Type 0 where
  pub header : Bytes
  pub header_signature : GoString
  pub transactions : List Transaction

pub record BatchList : Type 0 where
  pub batches : List Batch

pub record Signing : Type 0 where
  pub transaction_header_codec : Codec TransactionHeader
  pub batch_header_codec : Codec BatchHeader
  pub batch_list_codec : Codec BatchList
  -- `signer.GetPublicKey().AsHex()` and `signer.Sign`
  pub public_key : GoString
  pub sign : Bytes → Bytes
  -- The validator's check of a signature in hexadecimal digits, by the key.
  pub verify : GoString → Bytes → GoString → Bool

-- `log.Fatal` ends the program.
pub data Run (A : Type 0) : Type 0 where
  returned : A → Run A
  exited : ℕ → Run A

-- `strings.ToLower(hex.EncodeToString(bytes))`
unfoldable pub lower_hex : Bytes → GoString
unfolding lower hex_encode
lower_hex bytes = map lower (hex_encode bytes)

-- `if err != nil { log.Fatal(...) }`
abbrev pub or_fatal : {A B : Type 0} → Reply A → (A → Run B) → Run B
or_fatal (success a) k = k a
or_fatal (failure e) k = exited 1

module _ (sdk : Sdk) (signing : Signing) where
  abbrev pub transaction_header : Bytes → GoString → GoString → TransactionHeader
  transaction_header payload address timestamp = record {
    family_name = text "ons";
    family_version = text "1.0";
    inputs = address ∷ [];
    outputs = address ∷ [];
    batcher_public_key = signing.public_key;
    signer_public_key = signing.public_key;
    dependencies = [];
    payload_sha512 = hexdigest_by_byte sdk.sha512 payload;
    nonce = timestamp;
  }

  abbrev pub transaction_of : Bytes → Bytes → Transaction
  transaction_of header payload = record {
    header = header;
    header_signature = lower_hex (signing.sign header);
    payload = payload;
  }

  abbrev pub batch_header : Transaction → BatchHeader
  batch_header transaction = record {
    signer_public_key = signing.public_key;
    transaction_ids = transaction.header_signature ∷ [];
  }

  abbrev pub batch_of : Bytes → Transaction → Batch
  batch_of header transaction = record {
    header = header;
    header_signature = lower_hex (signing.sign header);
    transactions = transaction ∷ [];
  }

  unfoldable pub make_batch_list :
      Option SendOnsTransactionPayload → GoString → GoString → Run (Reply Bytes)
  make_batch_list transaction_payload address timestamp =
      or_fatal (sdk.payload_codec.marshal transaction_payload) λ payload.
        or_fatal
          (signing.transaction_header_codec.marshal
            (some (transaction_header payload address timestamp)))
          λ header.
            or_fatal
              (signing.batch_header_codec.marshal
                (some (batch_header (transaction_of header payload))))
              λ batch_header_bytes. returned (
                signing.batch_list_codec.marshal (
                  some (record {
                    batches = batch_of batch_header_bytes (transaction_of header payload) ∷ [];
                  })))
