-- ===== src/Node/Accept.antt =====
-- How a connection begins: handleAccept of src/node.cpp, and the call of a peer that the constructor of
-- Node makes.
use ensicoin_cpp.Connection.{Connection, Local, create, bind, start}
use ensicoin_cpp.Networkable.{HexDecoder}
use ensicoin_cpp.Node.{Node, insert_name}
use ensicoin_cpp.Prelude.{ℕ, List}

-- `unregistred.insert`.
unfoldable pub note_connection : List ℕ → Node → Node
note_connection remote node = record node { unregistred = insert_name remote node.unregistred }

unfoldable pub call_peer : HexDecoder → Local → List ℕ → Node → Connection × Node
call_peer hex here remote node = (bind hex here (create remote), note_connection remote node)

-- The node goes on to accept the next connection.
unfoldable pub handle_accept : List ℕ → Node → Connection × Node
handle_accept remote node = (start (create remote), note_connection remote node)
