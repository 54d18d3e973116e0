-- ===== src/Tests/Network.antt =====
-- Messages that come to a node, and the reads of a closed connection.
use ensicoin_cpp.Connection.{Connection, Local, create, handle_write, send_message}
use ensicoin_cpp.Message.{who_am_i_ack, get_addr, inv_message, get_data_message}
use ensicoin_cpp.MessageHandler.{on_inv}
use ensicoin_cpp.MessageHandler.Announcements.{to_tx, to_block, missing, on_inv-inv_message}
use ensicoin_cpp.MessageHandler.Receive.{receive, receive_all, receive_closed_all}
use ensicoin_cpp.MessageHandler.Receive.Closed.{receive_closed_all-reads}
use ensicoin_cpp.MessageHandler.Receive.Magic.{receive-magic}
use ensicoin_cpp.MessageHandler.Receive.Stream.{handle_all, sent_bytes, receive_all-sent_bytes}
use ensicoin_cpp.NetworkBuffer.{buffer_of}
use ensicoin_cpp.Networkable.Strings.{zeroed}
use ensicoin_cpp.Node.{Node}
use ensicoin_cpp.Prelude.{
  codes, ℕ, ◌+◌, ◌-◌, ◌≡◌, ◌<◌, ◌^◌, refl, false, Bool, List, [], ◌∷◌, ◌++◌, length, replicate, map,
  All, list_eq, arith,
}
use ensicoin_cpp.Prelude.Outcome.{returns, undefined}
use ensicoin_cpp.Tests.Samples.{hex_pairs, seven_hash, list_socket}
use ensicoin_cpp.Tests.Wire.{All-replicate}

abbrev home : Local
home = record { time = 1566862920; v4_bytes = 127 ∷ 0 ∷ 0 ∷ 1 ∷ []; port = 4224 }

abbrev eight_hash : List ℕ
eight_hash = replicate 32 8

abbrev nobody : Node
nobody = record { connected_nodes = []; connected_relays = []; unregistred = [] }

abbrev known : Bool → List ℕ → Bool
known b h = b

abbrev small_payloads : All (λ m. length m.payload < 2 ^ 64) (who_am_i_ack ∷ get_addr ∷ [])
small_payloads = (omega arith, (omega arith, tt))

-- After two messages, which are handled in order.
abbrev after_two : Connection × Node
after_two =
    handle_all hex_pairs home (known false) (known false) (who_am_i_ack ∷ get_addr ∷ [])
      (create (97 ∷ [])) nobody

-- Two messages, and the first bytes of a third.
receive_all-sent_bytes_example :
    (receive_all list_socket hex_pairs home
        (known false)
        (known false)
        zeroed
        9
        1
        (sent_bytes hex_pairs [] (who_am_i_ack ∷ get_addr ∷ []) ++ 66 ∷ 67 ∷ [])
        (create (97 ∷ []))
        nobody
      ≡ returns (1, (after_two, 66 ∷ 67 ∷ [])))
    × (receive list_socket hex_pairs home
          (known false)
          (known false)
          zeroed
          (1 + ((handle_write after_two.0).reads - after_two.0.reads))
          (66 ∷ 67 ∷ 68 ∷ [])
          (handle_write after_two.0)
          after_two.1
        ≡ undefined)
receive_all-sent_bytes_example =
    receive_all-sent_bytes hex_pairs home (known false) (known false) list_socket []
      (who_am_i_ack ∷ get_addr ∷ []) 9 (66 ∷ 67 ∷ []) (68 ∷ []) (create (97 ∷ [])) nobody
      small_payloads (omega arith) (omega arith)

receive-magic_example :
    receive list_socket hex_pairs home
      (known false)
      (known false)
      zeroed
      1
      ((0 ∷ 0 ∷ 0 ∷ 0 ∷ []) ++ (codes "whoamiack" ++ replicate 11 0))
      (create (97 ∷ []))
      nobody
    ≡ receive list_socket hex_pairs home
        (known false)
        (known false)
        zeroed
        1
        ((0 ∷ 6 ∷ 112 ∷ 133 ∷ []) ++ (codes "whoamiack" ++ replicate 11 0))
        (create (97 ∷ []))
        nobody
receive-magic_example =
    receive-magic list_socket hex_pairs home (known false) (known false) zeroed 1
      (0 ∷ 0 ∷ 0 ∷ 0 ∷ []) (0 ∷ 6 ∷ 112 ∷ 133 ∷ []) ((codes "whoamiack" ++ replicate 11 0))
      (create (97 ∷ [])) nobody refl refl
      (omega arith, (omega arith, (omega arith, (omega arith, tt))))
      (omega arith, (omega arith, (omega arith, (omega arith, tt))))

receive_closed_all-reads_example :
    receive_closed_all list_socket hex_pairs home
      (known false)
      (known false)
      zeroed
      1000000
      (create (97 ∷ []))
      nobody
    ≡ (record (create (97 ∷ [])) { reads = (create (97 ∷ [])).reads + 1000000 }, nobody)
unfolding create
receive_closed_all-reads_example =
    receive_closed_all-reads list_socket hex_pairs home (known false) (known false) 1000000
      (create (97 ∷ [])) nobody refl

on_inv-inv_message_example :
    (on_inv
        (known false)
        (list_eq seven_hash)
        hex_pairs
        (buffer_of zeroed
          (inv_message hex_pairs (map to_tx (seven_hash ∷ eight_hash ∷ []))).payload)
        (create [])
      ≡ send_message
          (get_data_message hex_pairs
            (map to_block (missing (list_eq seven_hash) (seven_hash ∷ eight_hash ∷ []))))
          (create []))
    × (on_inv
          (known false)
          (list_eq seven_hash)
          hex_pairs
          (buffer_of zeroed
            (inv_message hex_pairs (map to_block (seven_hash ∷ eight_hash ∷ []))).payload)
          (create [])
        ≡ send_message
            (get_data_message hex_pairs
              (map to_tx (missing (known false) (seven_hash ∷ eight_hash ∷ []))))
            (create []))
on_inv-inv_message_example =
    on_inv-inv_message (known false) (list_eq seven_hash) hex_pairs (seven_hash ∷ eight_hash ∷ [])
      (create [])
      (
        record { text = All-replicate 32 7 (omega arith); full = refl },
        (record { text = All-replicate 32 8 (omega arith); full = refl }, tt),
      )
      (record { fits = omega arith; unskipped = refl })
