-- ===== src/Lib.antt =====
-- Verification of the ONS transaction family: a registry of GS1 codes, their records and service
-- types on a Hyperledger Sawtooth ledger.
--
-- The program. A transaction processor (src/ons) receives the payload of a transaction and the key of
-- its signer. ons_handler unpacks the payload and runs one of thirteen handlers; each asks ons_manager
-- about the signer, and reads and writes the ledger through ons_state (codes), ons_service
-- (service types) or ons_manager (the managers of the codes and the super managers, with a cache in
-- package variables). src/ons_test/sawtooth-ons-test.go is the client that builds the payloads, and
-- src/ons_sync copies the ledger into a database: it subscribes to the validator's events, and writes
-- what an event sets to the table that its address belongs to.
--
-- The files.
--   Base      booleans, Go strings and byte slices (lists of numbers), slices (`none` is nil), maps
--             (association lists), and what a call does: it returns a value or an error, panics, or
--             hangs on a channel, and what was written before stays written.
--   Sdk       the code that is called and is not in the repository, as one record of parameters: the
--             state behind processor.Context, protobuf marshalling, the text of errors, SHA-512.
--             Sdk.Laws names what the program relies on there.
--   Proto     the messages of src/protobuf/ons_pb2/ons.pb.go and the getters that the handlers call.
--   World     the package variables of ons_manager together with the ledger: the state of a call.
--   Address   Hexdigest and MakeAddress of src/ons/ons_state/ons_state.go; Address.Client has the
--             client's own copies of them.
--   Registry  UnpackGS1Code, LoadGS1Code, SaveGS1Code and DeleteGS1Code of ons_state.go.
--   Service   src/ons/ons_service/ons_service.go; Service.Laws has the map of service types.
--   Manager   src/ons/ons_manager/ons_manager.go: Storage (the stored message), Cache (loading,
--             clearing, CheckPermission), Loop (the loop that removes from a slice while it ranges
--             over it), Edit (the operations); the other files prove.
--   Handler   src/ons/ons_handler/ons_handler.go: Permission (GetPermissionLevel), Codes, Records,
--             Services, Managers (the handlers), Apply. Handler.Effect states the registry as an
--             abstract map, Transitions what each kind of transaction does to it as a relation;
--             CodeEffects and RecordEffects hold each handler to its own relation, Success and
--             RecordResults are about when they succeed, ServiceResults about service types, Sudo is
--             about runs of transactions and the super user, Gate and Authority about who is let
--             through.
--   Sync      the mirror of the ledger, src/ons_sync. Of sync.go, Table (GetTableIdxByAddress),
--             Database (the documents, and the database as a record of calls with laws) and Mirror
--             (the package variables and the calls); of handler.go, Events (UpdateOnsEvent) and
--             Subscriber (the goroutine, its channels and the end of main in main.go, as a step
--             relation). Newest, Puts, Order and Runs are about rows under one update and under many
--             in any order, EventItems, BlockInfos and EventRows about an event. Goroutines has the
--             turns of the goroutines of several events, Turns and Schedules are about their rows,
--             Stalls about an event whose block id nobody takes, Mirrored about a code from the
--             ledger to its row, Protocol, Sessions and Shutdown about the subscriber, Faults about
--             refused calls.
--   Client    src/ons_test/sawtooth-ons-test.go: the payload builders, Command (from the action to the
--             payload and its address), Batch (MakeBatchList), ServiceTypeFile (GenerateServiceType);
--             src/ons_test/ons_query/query.go: Query. Targets, Batches, FieldOrder, Queries and
--             Requests relate them to the handler, the validator and the mirror.
--   Start     the key of the super user in src/ons/main.go.
--   Tests     a concrete ledger with codecs and a digest, at which the results are run.
--
-- The names are those of the code in the spelling of this library (`SaveGS1Code` is `save_gs1_code`,
-- `applyRemoveRecord` is `apply_remove_record`); a part of a function that has a name of its own here
-- is described where it stands.
--
-- Bounds. Every loop of the code ranges over a slice and is structural recursion here; the removal
-- loop recurses on the number of rounds, which `range` fixes at its start. The two endless loops of
-- the subscriber are a step relation: a command is handed over by one step and handled by another,
-- so that other goroutines come in between. Whether the subscriber takes a block id that the
-- handling of an event sends is a parameter of the handling, so that a send may also wait for ever;
-- a schedule of goroutines is a run without a panic, in which a goroutine that hangs stays where it
-- is. A range over a map is a list of its entries in any order. Numbers of the messages are natural
-- numbers, as are the block numbers that the code keeps as floats; the conversion
-- `uint32(len(...))` keeps its wrap-around.
--
-- Not modelled: logging and printing, the generated reflection code, the websocket and HTTP calls, the
-- creation of the database and its tables, the flags, the XML conversion and the signer of the client:
-- input and output, or calls of libraries that are not here. The mutex of the mirror is in the shape of
-- its updates, each of which is one turn of a goroutine; so is a call of getCurrentLatestONSEvent,
-- whose variable the code reads and writes without the mutex.
pub mod Base
pub mod Proto
pub mod Sdk
pub mod World
pub mod Address
pub mod Manager
pub mod Registry
pub mod Service
pub mod Handler
pub mod Sync
pub mod Start
pub mod Client
pub mod Tests
