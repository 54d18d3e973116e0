-- ===== src/Connection/Buffer.antt =====
-- The messages that wait for the end of the handshake: `sendMessage` and `idle` of
-- src/connection.cpp.
use ensicoin_cpp.Connection.{
  Connection, Status, is_ack, is_handshake, send_message, flush, wait_message,
}
use ensicoin_cpp.Message.{Message}
use ensicoin_cpp.Prelude.{
  ◌+◌, ◌≡◌, refl, sym, ap, ap₂, ◌∙◌, true, false, ◌||◌, List, [], ◌∷◌, ◌++◌, append-nil,
  append_assoc, arith,
}

-- Messages given to a connection, the first one first.
unfoldable pub send_messages : List Message → Connection → Connection
send_messages [] c = c
send_messages (m ∷ ms) c = send_messages ms (send_message m c)

-- What they leave, the last one first.
unfoldable pub backwards : List Message → List Message → List Message
backwards [] later = later
backwards (m ∷ ms) later = backwards ms (m ∷ later)

abbrev pub AllWait : List Message → Type 0
AllWait [] = Unit
AllWait (m ∷ ms) = (is_handshake m.type ≡ false) × AllWait ms

pub send_message-now :
    (m : Message) (c : Connection)
    → (is_handshake m.type || is_ack c.current_status) ≡ true
    → send_message m c ≡ record c { sent = c.sent ++ m ∷ [] }
unfolding send_message
send_message-now m c h = rw h

pub send_message-later :
    (m : Message) (c : Connection)
    → (is_handshake m.type || is_ack c.current_status) ≡ false
    → send_message m c ≡ record c { buffered_messages = m ∷ c.buffered_messages }
unfolding send_message
send_message-later m c h = rw h

flush-ack :
    (ms : List Message) (c : Connection)
    → is_ack c.current_status ≡ true
    → c.buffered_messages ≡ ms
    → flush ms c ≡ record c { sent = c.sent ++ ms; buffered_messages = [] }
unfolding flush
flush-ack [] c h e =
    ap (λ (p : List Message × List Message). record c { sent = p.0; buffered_messages = p.1 })
      (ap₂ (λ (s b : List Message). (s, b)) (sym (append-nil c.sent)) e)
flush-ack (m ∷ ms) c h e =
    ap (λ (d : Connection). flush ms (record d { buffered_messages = ms }))
      (send_message-now m c (ground arith))
    ∙ flush-ack ms (record c { sent = c.sent ++ m ∷ []; buffered_messages = ms }) h refl
    ∙ ap (λ (s : List Message). record c { sent = s; buffered_messages = [] })
        (append_assoc c.sent (m ∷ []) ms)

-- A connection whose handshake is done sends on its next call of `idle` all that has waited, the
-- message that came last first, and nothing waits after it; each call starts one more read.
pub wait_message-ack :
    (c : Connection)
    → is_ack c.current_status ≡ true
    → wait_message c ≡ record c {
      sent = c.sent ++ c.buffered_messages;
      buffered_messages = [];
      reads = c.reads + 1;
    }
unfolding wait_message
wait_message-ack c h =
    rw h (flush-ack c.buffered_messages (record c { reads = c.reads + 1 }) h refl)

send_messages-later :
    (ms : List Message) (c : Connection)
    → is_ack c.current_status ≡ false
    → AllWait ms
    → send_messages ms c ≡ record c { buffered_messages = backwards ms c.buffered_messages }
unfolding send_messages backwards
send_messages-later [] c h w = refl
send_messages-later (m ∷ ms) c h w =
    ap (send_messages ms) (send_message-later m c (ground arith)) ∙ send_messages-later ms _ h w.1

-- Messages that are not of the handshake, given to a connection before it is done, are not sent but
-- wait; when it is done, the next call of `idle` sends them behind what was sent, in the opposite
-- order, before those that waited already.
pub wait_message-send_messages :
    (ms : List Message) (c : Connection) (done : Status)
    → is_ack c.current_status ≡ false
    → AllWait ms
    → is_ack done ≡ true
    → ((send_messages ms c).sent ≡ c.sent)
      × ((wait_message (record (send_messages ms c) { current_status = done })).sent
          ≡ c.sent ++ backwards ms c.buffered_messages)
wait_message-send_messages ms c done h w d = (
  ap (λ (e : Connection). e.sent) held,
  ap (λ (e : Connection). (wait_message (record e { current_status = done })).sent) held
      ∙ ap (λ (e : Connection). e.sent) (wait_message-ack _ d),
)
  where
    held : send_messages ms c ≡ record c { buffered_messages = backwards ms c.buffered_messages }
    held = send_messages-later ms c h w
