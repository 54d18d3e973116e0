-- ===== src/Connection/Versions.antt =====
-- The version that a connection of src/connection.cpp uses.
use ensicoin_cpp.Connection.{
  Connection, Local, Status, initiated, waiting, idle, waiting_ack, ack, is_ack, send_message,
  wait_message, lower_version, change_status, update_status,
}
use ensicoin_cpp.Connection.Buffer.{wait_message-ack}
use ensicoin_cpp.Message.{Message}
use ensicoin_cpp.Networkable.{HexDecoder}
use ensicoin_cpp.Node.{Node, PeerType, is_peer}
use ensicoin_cpp.Prelude.{◌≡◌, refl, ap, ◌∙◌, Bool-cases, inl, inr, if◌then◌else◌, arith}
use ensicoin_cpp.Prelude.Int.{ℤ, ltb_ℤ}

abbrev pub least : ℤ → ℤ → ℤ
least v w = if ltb_ℤ v w then v else w

-- What a handshake message that offers a version makes of the version in use.
unfoldable pub negotiated : Status → (offered used : ℤ) → ℤ
negotiated initiated offered used = used
negotiated ack offered used = used
negotiated s offered used = least offered used

pub send_message-version :
    (m : Message) (c : Connection) → (send_message m c).version_used ≡ c.version_used
unfolding send_message
send_message-version m c = ground arith

pub wait_message-version : (c : Connection) → (wait_message c).version_used ≡ c.version_used
unfolding wait_message
wait_message-version c = elim (Bool-cases (is_ack c.current_status)) [
  | inl a ↦ ap (λ (d : Connection). d.version_used) (wait_message-ack c a)
  | inr n ↦ rw n
]

lower_version-least :
    (version : ℤ) (c : Connection)
    → (lower_version version c).version_used ≡ least version c.version_used
unfolding lower_version
lower_version-least version c = ground arith

module _ (hex : HexDecoder) (here : Local) where
  change_status-version :
      (version : ℤ) (s : Status) (c : Connection) (node : Node)
      → (change_status hex here version s c node).0.version_used
        ≡ negotiated s version c.version_used
  unfolding change_status negotiated
  change_status-version version idle c node =
      send_message-version _ _ ∙ send_message-version _ _ ∙ lower_version-least version c
  change_status-version version waiting_ack c node =
      lower_version-least version (record c { current_status = ack })
  change_status-version version initiated c node = refl
  change_status-version version waiting c node =
      send_message-version _ _ ∙ lower_version-least version c
  change_status-version version ack c node = refl

  pub update_status-version :
      (version : ℤ) (t : PeerType) (c : Connection) (node : Node)
      → (update_status hex here version t c node).0.version_used
        ≡ negotiated c.current_status version c.version_used
  unfolding update_status
  update_status-version version t c node = elim (Bool-cases (is_peer c.peer_type)) [
    | inl new ↦ rw new (change_status-version version c.current_status _ node)
    | inr old ↦ rw old (change_status-version version c.current_status c node)
  ]
