-- ===== src/Tests/Peers.antt =====
-- A connection with a peer.
use ensicoin_cpp.Connection.{
  Connection, Local, handle_write, ack, is_ack, create, start, bind, send_message, wait_message,
}
use ensicoin_cpp.Connection.Buffer.{wait_message-send_messages, send_messages, backwards}
use ensicoin_cpp.Connection.Quiet.{AllHandshake}
use ensicoin_cpp.Message.{whoamiack, get_addr, get_mempool, who_am_i_message}
use ensicoin_cpp.MessageHandler.{handle_message}
use ensicoin_cpp.MessageHandler.Conserved.{given, Reaches-given}
use ensicoin_cpp.MessageHandler.Reads.{accepted, writes_ended, messages_handled, Reaches-reads}
use ensicoin_cpp.MessageHandler.Handshake.{
  Reaches, handles, accepts, writes, sends, binds, handle_message_twice, Reaches-AllHandshake,
}
use ensicoin_cpp.MessageHandler.Versions.{version_of, Reaches-version}
use ensicoin_cpp.Networkable.Strings.{zeroed}
use ensicoin_cpp.Node.{Node, nodepeer, has_name, register_connection}
use ensicoin_cpp.Node.Registration.{register_connection-has_name}
use ensicoin_cpp.Prelude.{◌+◌, ◌≡◌, ◌⊎◌, refl, true, false, [], ◌∷◌, ◌++◌}
use ensicoin_cpp.Tests.Samples.{hex_pairs}
use mathlib.Core.List.{Perm}

abbrev here : Local
here = record { time = 1566862920; v4_bytes = 127 ∷ 0 ∷ 0 ∷ 1 ∷ []; port = 4224 }

abbrev lonely : Node
lonely = record { connected_nodes = []; connected_relays = []; unregistred = (97 ∷ []) ∷ [] }

abbrev accepted_connection : Connection
accepted_connection = start (create (97 ∷ []))

abbrev asking : Connection
asking = send_message get_addr (bind hex_pairs here (create (97 ∷ [])))

Reaches-AllHandshake_example : AllHandshake asking.sent
unfolding bind create send_message who_am_i_message
Reaches-AllHandshake_example =
    Reaches-AllHandshake hex_pairs asking (sends get_addr _ (binds (97 ∷ []) here)) refl

handle_message_twice_example :
    (handle_message hex_pairs here
      (λ h. false)
      (λ h. false)
      whoamiack
      zeroed
      []
      (handle_message hex_pairs here
        (λ h. false)
        (λ h. false)
        whoamiack
        zeroed
        []
        accepted_connection
        lonely).0
      lonely).0.current_status
    ≡ ack
handle_message_twice_example =
    handle_message_twice hex_pairs here (λ h. false) (λ h. false) whoamiack whoamiack zeroed zeroed
      [] [] accepted_connection lonely lonely refl refl

wait_message-send_messages_example :
    ((send_messages (get_addr ∷ get_mempool ∷ []) (create [])).sent ≡ [])
    × ((wait_message (record (send_messages (get_addr ∷ get_mempool ∷ []) (create [])) {
      current_status = ack;
    })).sent
        ≡ get_mempool ∷ get_addr ∷ [])
unfolding create backwards
wait_message-send_messages_example =
    wait_message-send_messages (get_addr ∷ get_mempool ∷ []) (create []) ack refl (refl, (refl, tt))
      refl

register_connection-has_name_example :
    (has_name (97 ∷ []) (register_connection nodepeer (97 ∷ []) lonely).unregistred ≡ false)
    × (has_name (97 ∷ []) (register_connection nodepeer (97 ∷ []) lonely).connected_nodes ≡ true)
    × (has_name (97 ∷ []) (register_connection nodepeer (97 ∷ []) lonely).connected_relays ≡ false)
unfolding has_name
register_connection-has_name_example =
    register_connection-has_name nodepeer (97 ∷ []) (97 ∷ []) lonely refl refl

abbrev written : Connection
written = handle_write (start (create (97 ∷ [])))

-- Two reads are under way.
abbrev write_ended : Reaches hex_pairs written
write_ended = writes (start (create (97 ∷ []))) (accepts (97 ∷ []))

Reaches-reads_example :
    written.reads
    ≡ messages_handled hex_pairs write_ended
      + (writes_ended hex_pairs write_ended + accepted hex_pairs write_ended)
Reaches-reads_example = Reaches-reads hex_pairs write_ended

-- A question that waits behind the introduction.
asked : Reaches hex_pairs asking
asked = sends get_addr _ (binds (97 ∷ []) here)

Reaches-given_example :
    Perm (asking.sent ++ asking.buffered_messages) (given hex_pairs asked)
    × ((is_ack asking.current_status ≡ false)
        ⊎ ((asking.buffered_messages ≡ []) × Perm asking.sent (given hex_pairs asked)))
Reaches-given_example = Reaches-given hex_pairs asked

abbrev acknowledged : Connection
acknowledged =
    (handle_message hex_pairs here (λ h. false) (λ h. false) whoamiack zeroed [] accepted_connection
      lonely).0

greeted : Reaches hex_pairs acknowledged
greeted =
    handles here (λ h. false) (λ h. false) whoamiack zeroed [] lonely accepted_connection
      (accepts (97 ∷ []))

Reaches-version_example : acknowledged.version_used ≡ version_of hex_pairs greeted
Reaches-version_example = Reaches-version hex_pairs greeted
