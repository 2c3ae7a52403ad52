-- ===== src/Lib.antt =====
-- The verification library of a messaging system on a blockchain: its chain of blocks with Merkle
-- proofs, the splitting of payloads into chunks, the framing of the wire protocol, the
-- synchronization of chains between peers, the directories of clients and peers, and the messages
-- and files that two users of a peer-to-peer network send each other.
--
-- Parts, files and sources:
-- - Json: the decoded values and the text of `json.dumps`, which src/core/blockchain.py hashes and
--   measures. A float is kept as the text of its `repr`. Json/Decimal and Json/Quoted are about
--   what can be read back of the texts.
-- - Merkle: `calculate_merkle_root`, `generate_merkle_path` and `MerkleProof.verify` of
--   src/core/blockchain.py; Merkle/Levels, Merkle/Verify and Merkle/Binding are its proofs.
-- - Block: the class `Block` of the same file; the field `data` is named `content`.
-- - Chain: the class `Blockchain` of the same file. Chain/State has its fields, its three indexes
--   and the methods that hash nothing; Chain/Entries says which blocks can be indexed;
--   Chain/Methods has mining, validation, replacement and proofs; Chain/Storage has `to_dict` and
--   `from_dict`, and Chain/Saving `save` and `load` with the files at each moment. The other files
--   of Chain are proofs.
-- - Chunks: `Chunk`, `DataChunker.chunk`, `ReassemblyBuffer` and `ChunkReassembler` of
--   src/engine/chunker.py; Chunks/Iteration has the generator `chunk_iter`.
-- - Frame: `FrameType` and `ProtocolFrame` of src/network/protocol.py.
-- - Sync: `ChainSynchronizer` of src/core/sync.py, over Chain; Sync/Transfer has the serving,
--   receiving and applying of blocks.
-- - Registry: `RegisteredClient` and `Registry` of src/server/registry.py; Registry/Server has the
--   `RegistryServer` around it, and Registry/Entry the `BMPServer` of src/server/server.py.
--   Registry/Keys is about the keys of the directory, Registry/Expiry about the clients over time,
--   and Registry/Greeting about a client that the server can read.
-- - Peers: `Peer` and `PeerManager` of src/network/peer.py; Peers/Storage has the dictionary of a
--   peer.
-- - Message: `MessagePayload`, `ChunkInfo` and the functions that create messages of
--   src/core/message.py, over base64 and signing as parameters; Message/Creation has the latter,
--   and Message/Packing the MessagePack and JSON forms over the record `Codecs` of the libraries.
--   Message/Binding and Message/Names are about the signed content.
-- - Media: the types, limits, blocks and metadata of files of src/engine/media.py;
--   Media/Transfer has `MediaTransfer`, Media/Manager has `TransferManager`.
-- - Crypto: `KeyPair` and `Wallet` of src/core/crypto.py. Crypto/Library has its functions around
--   the cryptography library, whose calls are the record `Library`. The engine takes these
--   functions as the record `Primitives`, and Crypto/Laws says what two wallets rely on.
-- - Handshake: `HandshakeMessage` and `HandshakeAck` of src/network/protocol.py.
-- - P2P: `P2PNode` of src/network/p2p.py, over Peers, Frame, Handshake and Message. P2P has the
--   handshakes, P2P/Connections the connections, the frames of a peer and sending; P2P/Exchange
--   and P2P/Delivery are about two nodes, P2P/Listed, P2P/Sends and P2P/Runs about one over
--   time.
-- - Engine: `TransmissionEngine` of src/engine/engine.py, over P2P, Chain, Media and Chunks.
--   Engine/Sending and Engine/Receiving have its calls and handlers; Engine/Secrets,
--   Engine/Texts, Engine/Files and Engine/Transfers follow a text and a file from one engine to
--   another, and Engine/Soundness and Engine/Runs are about one engine over time.
-- - Client: `Client` of src/client/client.py, over Engine, P2P and Registry. Client has its wallet
--   and its chain on disk, Client/Registration `register`, and Client/Calls starting, stopping and
--   sending; Client/Commands has the commands of src/client/cli.py. Client/Joining and
--   Client/Discovery are about a client and the registry server, Client/Directory about what a
--   client knows, Client/Storage and Client/Sending about its files, its chain and its messages,
--   and Client/Addresses and Client/Recipients about the commands.
-- - Pool: `ConnectionPool` of src/network/pool.py, one function for each stretch of code between
--   two awaits. Pool/Tasks has the tasks that use a pool at once, as a step relation with the
--   lock, and Pool/Waiting is about an eviction.
-- - Common: shared names, Boolean tests, results, lists, texts with UTF-8, and dictionaries.
-- - Tests: concrete inputs for the theorems.
--
-- How the code is read. A method that changes its object takes the state and returns it. An
-- exception is a value of `Error`; where the state can have changed before it, the state comes back
-- beside it. A dictionary is an association list in the order of insertion. SHA-256 is a parameter,
-- as are base64 and the texts of times; whether a message can be sent is a function of the message
-- and the peer. Generated ids and the clock's readings are arguments. Heights, indexes, nonces,
-- ports and clock ticks are natural numbers. The functions that read decoded fields raise
-- `type_error` for a value that does not have the annotated type, where the code goes on with it.
-- The messages of a block are what an iteration over them yields, and indexing a block whose
-- messages cannot be iterated, or with an id that cannot be a key, raises with what is in the
-- indexes by then; ids that are numbers, truth values or null are not kept in the index, in which
-- only texts are looked up. `Block.from_dict` does not raise for messages that are a number above
-- zero or true, where the constructor of the code does. A handler of the synchronizer runs as one
-- step: what other handlers do while it waits for the transport is not modelled, and the same holds
-- for a call of the engine. A WebSocket is a number; what is sent on it is logged, and whether it
-- takes some bytes is a parameter. The callbacks of the engine are logs of what they are called
-- with. An object that several structures share, as a transfer or a peer, is put back under its id
-- when it changes.
--
-- Fuel. `mine` runs on fuel, because the loop in the code has no bound: the theorems on mining say
-- that any fuel beyond the first nonce with enough work gives the result. The loops over the
-- levels of a Merkle tree run on the number of hashes, and a level halves it, so they end by their
-- test. A loop over the generator of chunks takes one call of `next` more than there are chunks.
-- `request_batches` runs for the number of rounds of its range, and `read_loop` of a file for
-- the number of its bytes, of which every round takes at least one.
--
-- Not modelled: `ReceivedMedia.save`, which works on the file system only and whose exceptions the
-- handler of a completed file catches; progress and rates as floats; the drawing of random keys and
-- nonces, which are arguments; the repr texts; the WebSocket servers that the methods `start`
-- create, of which only the success is known; the output of the commands, and the commands that
-- only print; waiting for signals.
pub mod Common
pub mod Json
pub mod Merkle
pub mod Block
pub mod Chain
pub mod Chunks
pub mod Frame
pub mod Sync
pub mod Registry
pub mod Peers
pub mod Message
pub mod Media
pub mod Crypto
pub mod Handshake
pub mod P2P
pub mod Engine
pub mod Client
pub mod Pool
pub mod Tests
