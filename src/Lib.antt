-- ===== src/Lib.antt =====
-- Mainstay attests commitments of its clients to the Bitcoin blockchain. A commitment is the root
-- of a merkle tree over the clients' hashes; an attestation is a transaction of a chain of
-- transactions (the subchain, which starts at a base transaction), each paying to an address that is
-- tweaked by a commitment. This library models the program's own logic and proves what it promises.
--
-- The parts, and the files that model them (paths from the repository's root):
--
--   Merkle       models/commitmentmerkletree.go, commitmentmerkleproof.go, commitment.go
--                (buildMerkleTree, buildMerkleProof, ProveMerkleProof, NewCommitment)
--   Attestation  models/attestation.go, attestationinfo.go
--   Config       config/jsonparser.go, configreader.go (Config/Rpc), config.go (Config/Sections,
--                Config/Load, with the initialisation in main.go)
--   Fees         attestation/attestfees.go: the fee per byte and its limits (ResetFee, BumpFee)
--   Script       crypto/scripts.go: CreateScriptSig and ParseScriptSig; CreateMultisig and
--                ParseRedeemScript in Script/Multisig
--   Tweak        crypto/tweaking.go: derivation paths, tweaked private, public and extended keys
--   Signer       attestation/attestsigner_http.go: the framing of byte slices, and GetSigs; the
--                signer of the tests in Signer/Fake
--   Client       attestation/attestclient.go: the fee of a transaction, createAttestation and
--                bumpAttestationFees (Client/Tx), the searches of the subchain (Client/Chain), keys
--                and addresses (Client/Keys), pre-images and signing (Client/Sign), the
--                constructors (Client/New)
--   Server       attestation/attestserver.go over the interface of db/db.go; GetClientCommitment in
--                Server/Placed and Server/Committed
--   DbFake       db/db_fake.go, an implementation of that interface
--   Mongo        db/db_mongo.go (Mongo/Db) over a driver, and the documents of the models
--   Service      attestation/attestservice.go: the state machine. Service/Init, Create and Confirm
--                hold the handlers of its nine states, Service/Run the loop.
--   Staychain    staychain/chain.go and chainfetcher.go: the search for the next transaction, and the
--                goroutine with its channel as a step relation
--   Verifier     staychain/chainverifier.go: the checks of a transaction and its commitment
--   Signup       cmd/clientsignuptool/clientsignuptool.go over Mongo
--   MultisigTool cmd/multisigtool/multisigtool.go; its script against that of Script/Multisig
--   CommitmentTool  cmd/commitmenttool/commitmenttool.go
--   ConfirmationTool  cmd/confirmationtool/confirmationtool.go, over Staychain and Verifier
--   SidechainClients  clients/sidechainclient.go, sidechainclient_ocean.go, sidechainclient_fake.go
--   Text, Hex    what the program uses of Go's strings, strconv, encoding/hex and fmt
--   Hashing, Wire  what the program uses of third-party packages, as records of operations: the
--                hash type with sha256d, the structs of transactions and RPC answers, sizes, the
--                strings of hashes. A toy instance of each serves the tests.
--
-- How they interact: the service asks the server for the latest commitment, the client for an
-- address and a transaction, the signers for signatures, and then stores, sends and watches the
-- transaction. In Service a step gets the answers of all the calls that it may make as one record,
-- Replies, which every theorem quantifies over; its result is the new state with the calls that
-- change something outside, in order. The fees, createAttestation and bumpAttestationFees are the
-- definitions of Fees and Client themselves.
--
-- Conventions. A struct is a record and a method that changes it returns the new one. `none` of
-- Option is a panic (an index out of range, nil dereferenced, a negative size), in the constructors
-- and in Staychain and Verifier also the end of the process by log.Error or log.Fatal; an error is a
-- value of Result. `int`, `int64` and `int32` are integers that wrap by wrap64 and wrap32; a length or an
-- index is a natural number. Times count nanoseconds. Logging is left out.
--
-- Bounds and fuel. The loops over slices are structural recursion. proof_loop has the depth as its
-- fuel, which is halved in each round. parse_loop and unserialize_loop have the length of the input,
-- of which each round uses at least a byte. verify_tx_on_subchain follows transactions that a node
-- gives, which no input bounds, so that its fuel is a parameter. A fetch has as many rounds as there
-- are blocks above the latest height; a decimal number has fewer digits than its value plus one.
--
-- The staychain is followed on the client's side: the fetcher gives its transactions to the
-- verifier, which tests them with Tweak, Script and Merkle. Its goroutine and the client that reads
-- from the channel are interleaved in any order by the steps of Staychain. The constructors of the
-- client take the configuration that Config reads.
--
-- Parameters stand for what is outside: the decoded configuration file, the environment, the RPC
-- client, keys and addresses of btcec, btcutil and hdkeychain, the answers of the API. An answer of
-- the API keeps what the code tells apart, and a URL is what it asks for. Signing and the tweak of
-- keys are answers in Service.
--
-- A model's BSON form is the list of its fields; the driver of the database is a parameter.
-- Mongo/Documented states what the driver documents of a query and of an update with upsert; a
-- collection is then a table of values with different keys (Mongo/Table, Mongo/Query), on which the
-- properties of the database and of Signup stand. Mongo/Toy is a driver that does so.
--
-- The command line tools stand on the other parts: Signup reads and writes the clients by Mongo, the
-- script of MultisigTool is the one of Script/Multisig, and ConfirmationTool takes the transactions of
-- Staychain and tests each by Verifier. How a tool ends is a value: finished, by log.Error, or by a
-- panic; CommitmentTool keeps the requests that it posts, in order.
--
-- Not modelled: the key extraction tool and the token generator, which are a fixed script and one call
-- of a library, and the start of the goroutines in main; the request API under doc, whose code is
-- commented out; Attestation.UnmarshalBSON, which nothing calls. The delay between fetches and
-- Chain.Close, which blocks for ever, have no step.
pub mod Prelude
pub mod Text
pub mod Hex
pub mod Hashing
pub mod Wire
pub mod Config
pub mod Fees
pub mod Merkle
pub mod Attestation
pub mod Script
pub mod Tweak
pub mod Signer
pub mod Client
pub mod Server
pub mod DbFake
pub mod Mongo
pub mod Service
pub mod Staychain
pub mod Verifier
pub mod Signup
pub mod MultisigTool
pub mod CommitmentTool
pub mod ConfirmationTool
pub mod SidechainClients
