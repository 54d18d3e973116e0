-- ===== src/Connection/Held.antt =====
-- What a connection of src/connection.cpp holds: the messages it has sent, and those that wait.
use ensicoin_cpp.Connection.{
  Connection, Local, Status, initiated, waiting, idle, waiting_ack, ack, is_ack, is_handshake,
  send_message, wait_message, lower_version, introduction, change_status, update_status,
}
use ensicoin_cpp.Connection.Buffer.{send_message-now, send_message-later, wait_message-ack}
use ensicoin_cpp.Message.{Message, who_am_i_ack}
use ensicoin_cpp.Networkable.{HexDecoder}
use ensicoin_cpp.Node.{Node, PeerType, is_peer}
use ensicoin_cpp.Prelude.{
  ◌≡◌, refl, sym, ap, ◌∙◌, subst, Bool-cases, inl, inr, ◌||◌, List, [], ◌∷◌, ◌++◌, replicate,
  append-nil, append_assoc, arith,
}
use ensicoin_cpp.Prelude.Int.{ℤ}
use mathlib.Core.List.{Perm, perm_middle}
use mathlib.Core.List.Perm

abbrev pub held : Connection → List Message
held c = c.sent ++ c.buffered_messages

pub send_message-held : (m : Message) (c : Connection) → Perm (held (send_message m c)) (m ∷ held c)
send_message-held m c = elim (Bool-cases (is_handshake m.type || is_ack c.current_status)) [
  | inl now ↦
      subst (λ d. Perm (held d) (m ∷ held c)) (sym (send_message-now m c now))
        (subst (λ ms. Perm ms (m ∷ held c)) (sym (append_assoc c.sent (m ∷ []) c.buffered_messages))
          (perm_middle c.sent c.buffered_messages))
  | inr later ↦
      subst (λ d. Perm (held d) (m ∷ held c)) (sym (send_message-later m c later))
        (perm_middle c.sent c.buffered_messages)
]

pub wait_message-held : (c : Connection) → held (wait_message c) ≡ held c
unfolding wait_message
wait_message-held c = elim (Bool-cases (is_ack c.current_status)) [
  | inl a ↦ ap held (wait_message-ack c a) ∙ append-nil (held c)
  | inr n ↦ rw n refl
]

lower_version-held : (version : ℤ) (c : Connection) → held (lower_version version c) ≡ held c
unfolding lower_version
lower_version-held version c = ground arith

module _ (hex : HexDecoder) (here : Local) where
  -- The messages of the handshake that a handshake message makes a connection send, the last first.
  unfoldable pub greets : Status → List Message
  greets idle = who_am_i_ack ∷ introduction hex here (replicate 12 255 ++ here.v4_bytes) ∷ []
  greets waiting = who_am_i_ack ∷ []
  greets s = []

  change_status-held :
      (version : ℤ) (s : Status) (c : Connection) (node : Node)
      → Perm (held (change_status hex here version s c node).0) (greets s ++ held c)
  unfolding change_status greets
  change_status-held version idle c node =
      let greeting = introduction hex here (replicate 12 255 ++ here.v4_bytes) in
      let lower = lower_version version c in
      Perm.trans (send_message-held who_am_i_ack (send_message greeting lower)) (
        Perm.cons who_am_i_ack (
          subst (λ ms. Perm (held (send_message greeting lower)) (greeting ∷ ms))
            (lower_version-held version c) (send_message-held greeting lower)))
  change_status-held version waiting_ack c node =
      subst (λ ms. Perm ms (held c))
        (sym (lower_version-held version (record c { current_status = ack }))) (Perm.refl _)
  change_status-held version initiated c node = Perm.refl _
  change_status-held version waiting c node =
      subst
        (λ ms. Perm (held (change_status hex here version waiting c node).0) (who_am_i_ack ∷ ms))
        (lower_version-held version c)
        (send_message-held who_am_i_ack (record (lower_version version c) { current_status = ack }))
  change_status-held version ack c node = Perm.refl _

  pub update_status-held :
      (version : ℤ) (t : PeerType) (c : Connection) (node : Node)
      → Perm (held (update_status hex here version t c node).0) (greets c.current_status ++ held c)
  unfolding update_status
  update_status-held version t c node = elim (Bool-cases (is_peer c.peer_type)) [
    | inl new ↦ rw new (change_status-held version c.current_status _ node)
    | inr old ↦ rw old (change_status-held version c.current_status c node)
  ]
