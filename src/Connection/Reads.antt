-- ===== src/Connection/Reads.antt =====
-- The reads that the functions of src/connection.cpp start.
use ensicoin_cpp.Connection.{
  Connection, Local, Status, initiated, waiting, idle, waiting_ack, ack, is_ack, is_handshake,
  send_message, flush, wait_message, bind, change_status, update_status, lower_version,
}
use ensicoin_cpp.Message.{Message, who_am_i_ack}
use ensicoin_cpp.Networkable.{HexDecoder}
use ensicoin_cpp.Node.{Node, PeerType, is_peer}
use ensicoin_cpp.Prelude.{◌+◌, ◌≡◌, refl, ◌∙◌, Bool-cases, inl, inr, ◌||◌, List, [], ◌∷◌}
use ensicoin_cpp.Prelude.Int.{ℤ, ltb_ℤ}

pub send_message-reads : (m : Message) (c : Connection) → (send_message m c).reads ≡ c.reads
unfolding send_message
send_message-reads m c = elim (Bool-cases (is_handshake m.type || is_ack c.current_status)) [
  | inl now ↦ rw now refl
  | inr later ↦ rw later refl
]

flush-reads : (ms : List Message) (c : Connection) → (flush ms c).reads ≡ c.reads
unfolding flush
flush-reads [] c = refl
flush-reads (m ∷ ms) c =
    flush-reads ms (record (send_message m c) { buffered_messages = ms }) ∙ send_message-reads m c

pub wait_message-reads : (c : Connection) → (wait_message c).reads ≡ c.reads + 1
unfolding wait_message
wait_message-reads c = elim (Bool-cases (is_ack c.current_status)) [
  | inl done ↦ rw done (flush-reads c.buffered_messages (record c { reads = c.reads + 1 }))
  | inr before ↦ rw before refl
]

lower_version-reads : (version : ℤ) (c : Connection) → (lower_version version c).reads ≡ c.reads
unfolding lower_version
lower_version-reads version c = elim (Bool-cases (ltb_ℤ version c.version_used)) [
  | inl lower ↦ rw lower refl
  | inr as_before ↦ rw as_before refl
]

module _ (hex : HexDecoder) (here : Local) where
  pub bind-reads : (c : Connection) → (bind hex here c).reads ≡ c.reads
  unfolding bind
  bind-reads c = send_message-reads _ (record c { current_status = initiated })

  change_status-reads :
      (version : ℤ) (s : Status) (c : Connection) (node : Node)
      → (change_status hex here version s c node).0.reads ≡ c.reads
  unfolding change_status
  change_status-reads version idle c node =
      send_message-reads who_am_i_ack (send_message _ (lower_version version c))
      ∙ send_message-reads _ (lower_version version c)
      ∙ lower_version-reads version c
  change_status-reads version waiting_ack c node =
      lower_version-reads version (record c { current_status = ack })
  change_status-reads version initiated c node = refl
  change_status-reads version waiting c node =
      send_message-reads who_am_i_ack (record (lower_version version c) { current_status = ack })
      ∙ lower_version-reads version c
  change_status-reads version ack c node = refl

  pub update_status-reads :
      (version : ℤ) (t : PeerType) (c : Connection) (node : Node)
      → (update_status hex here version t c node).0.reads ≡ c.reads
  unfolding update_status
  update_status-reads version t c node = elim (Bool-cases (is_peer c.peer_type)) [
    | inl unset ↦
        rw unset (change_status-reads version c.current_status (record c { peer_type = t }) node)
    | inr set ↦ rw set (change_status-reads version c.current_status c node)
  ]
