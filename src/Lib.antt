-- ===== src/Lib.antt =====
-- A model of ensicoin-cpp, a node of the ensicoin network.
--
-- A node receives bytes from its peers into a NetworkBuffer, from which the classes of Networkable
-- are read and to which they are written; transactions, scripts, entries of the database of unspent
-- outputs and messages are built of these. The mempool links each transaction to the outputs that
-- it spends, keeps it as an orphan while one is missing, and runs the scripts of the others.
--
-- The files, and the code that they are about:
--   Prelude        shared names, lists over native numbers, big-endian bytes, `int`, results of calls
--   NetworkBuffer  include/networkbuffer.hpp, src/networkbuffer.cpp. `read_uint16`, `read_var_uint`,
--                  `read_str` are readUint16, readVar_uint, readStr; a Reader returns a value and
--                  the buffer it leaves
--   Networkable    include/networkable.hpp, src/networkable.cpp. `x_byte_repr` is byteRepr of the
--                  class X, `x_from_buffer` its constructor from a NetworkBuffer
--   Crypto         include/crypto.hpp, src/crypto.cpp: hexPublicKey and ECDSASignature, with what they
--                  call of Crypto++ as interfaces
--   Socket         the reads of asio, as an interface
--   Constants      include/constants.hpp, src/constants.cpp
--   Logger         include/logger.hpp: what is printed
--   Program        src/main.cpp
--   Util           include/util.hpp, src/util.cpp: bytes printed to look at them
--   Script         include/script.hpp, src/script.cpp. `step`, `done`, `chain` are the methods; `run`
--                  is the loop of validateScript
--   Json           include/jsonable.hpp: the documents that `json` builds
--   Transaction    include/transaction.hpp, src/transaction/
--   Block          include/blocks.hpp, src/blocks.cpp, include/target.hpp, src/target.cpp
--   Blockchain     include/blockchain.hpp, src/blockchain.cpp: the blocks in the database, BlockIndex
--   HashMemory     include/hashmemory.hpp
--   LevelDb        the calls of LevelDB, as an interface; in LevelDb/Opening, the constructors of
--                  Blockchain and UTXOManager
--   Utxo           include/utxo.hpp, src/utxo.cpp: UTXOdata and UTXOManager
--   LinkedTransaction  include/linkedtransaction.hpp, src/linkedtransaction.cpp
--   Mempool        include/mempool.hpp, src/mempool.cpp
--   Message        include/messages.hpp, src/message/. `x_message` is what the class X sends; Content
--                  has a constructor for each class
--   Node           include/node.hpp, src/node.cpp: registerConnection, transactionExists, handleAccept,
--                  and what the constructor makes to try the network out
--   Connection     include/connection.hpp, src/connection.cpp: the handshake and what is sent
--   MessageHandler  include/messagehandler.hpp, src/messagehandler.cpp, with handleMessage
--                  and handleHeader of src/connection.cpp; in MessageHandler/Receive, the bytes that
--                  come and the reads of a closed connection
--   Tests          concrete runs
--
-- How the code is modelled:
--   - A std::string is the list of its bytes, numbers below 256. An integer of w bits is a number
--     with its wrap-around written out; an `int` that is sent or stored is its bit pattern.
--   - What stands in uninitialised storage is an argument: `fresh` of a NetworkBuffer for what is
--     allocated while it is read, `stack` for the array of a FixedStr that is written to. A byte past
--     those listed is 0. "Zeroed storage" lists none. A FixedStr that is given more bytes than it has
--     writes past its end, which is undefined; those bytes are left out.
--   - HexDecoder, HexEncoder, Crypto, Signer, LevelDb, Socket and FileSystem are records of the calls
--     that the program makes of Crypto++, LevelDB, asio and the system, with their documented laws.
--     What RapidJSON prints for a document, which `check` asks for, and the CryptoPP::Integer that a
--     hash is read as are arguments too. A Get, Put or Delete of LevelDB that fails for another reason
--     than a missing key is not modelled.
--   - Where a call throws, is undefined or does not end, its result is `throws`, `undefined` or
--     `endless` of Outcome, and `undefined` or `running` of Run.
--   - The pointers of a LinkedTransaction to the mempool and the database are arguments.
--   - The code pointer of a Script is an index into its own instructions. In C++ it is an iterator,
--     which does not follow a copy of the Script or an insertion into its vector: `chain` gives the
--     instructions only, and the loop that validateScript runs on a chained copy is undefined
--     (`run_chained`); `run` is the loop for a script in place. getOrphanDeps and any_of in validate
--     take begin() and end() from two vectors, and are undefined. So is an `int` that overflows in
--     incrementHeight, decrementHeight, isSpendable and inputValue.
--   - A Connection keeps the list of what it handed to async_write and the number of its reads in
--     place of the socket; the completion handlers are functions, and the order in which they run is
--     the order of the calls (the relation Reaches).
--     `read_message` is one read of a header and of the payload behind it. `receive` is told how many
--     reads are under way: with none the bytes wait, and two at one time, which asio forbids for one
--     socket, are undefined. `receive_all` keeps count of them.
--
-- Fuel: `read_str_loop` has one round more than there are bytes, and a round that goes on takes 4096
-- bytes. `run` takes its rounds as an argument, as a script may run for ever. `register_transaction`
-- takes fuel for its calls out of updateOrphan, each of which takes an orphan away. `receive_all` takes
-- a number of rounds, of which each message uses one, and `receive_closed_all` the number of reads.
--
-- Not modelled: the digests, and the signing and verifying, of Crypto++; the printing of JSON; which
-- lines the parts of the program log; what io_context runs, but as sequences of handlers; and the
-- functions on blocks that the source declares and does not define (registerBlock, deleteBlock,
-- pushBlock, popBlock, getCreationTime).
pub mod Prelude
pub mod NetworkBuffer
pub mod Networkable
pub mod Crypto
pub mod Constants
pub mod Logger
pub mod Program
pub mod Util
pub mod Script
pub mod Json
pub mod Transaction
pub mod Block
pub mod HashMemory
pub mod LevelDb
pub mod Blockchain
pub mod Utxo
pub mod LinkedTransaction
pub mod Mempool
pub mod Message
pub mod Node
pub mod Socket
pub mod Connection
pub mod MessageHandler
pub mod Tests
