-- ===== src/Connection/Quiet.antt =====
-- What src/connection.cpp sends before the handshake is done.
use ensicoin_cpp.Connection.{
  Connection, Local, Status, initiated, waiting, idle, waiting_ack, ack, is_ack, is_handshake,
  create, send_message, wait_message, lower_version, change_status, bind, update_status,
}
use ensicoin_cpp.Connection.Buffer.{send_message-now, send_message-later, wait_message-ack}
use ensicoin_cpp.Message.{Message, who_am_i_message}
use ensicoin_cpp.Networkable.{HexDecoder}
use ensicoin_cpp.Node.{Node, PeerType, is_peer}
use ensicoin_cpp.Prelude.{
  ℕ, ◌≡◌, refl, sym, ap, subst, Bool-cases, inl, inr, true, false, ◌||◌, List, [], ◌∷◌, ◌++◌, All,
  arith,
}
use ensicoin_cpp.Prelude.Int.{ℤ}

abbrev pub AllHandshake : List Message → Type 0
AllHandshake ms = All (λ m. is_handshake m.type ≡ true) ms

-- Before the handshake is done, only its own messages have been sent.
abbrev pub IsQuiet : Connection → Type 0
IsQuiet c = is_ack c.current_status ≡ false → AllHandshake c.sent

snoc-AllHandshake :
    (ms : List Message) (m : Message)
    → AllHandshake ms
    → is_handshake m.type ≡ true
    → AllHandshake (ms ++ m ∷ [])
snoc-AllHandshake [] m h e = (e, tt)
snoc-AllHandshake (x ∷ xs) m h e = (h.0, snoc-AllHandshake xs m h.1 e)

pub send_message-IsQuiet : (m : Message) (c : Connection) → IsQuiet c → IsQuiet (send_message m c)
send_message-IsQuiet m c q = elim (Bool-cases (is_handshake m.type || is_ack c.current_status)) [
  | inl now ↦
      subst IsQuiet (sym (send_message-now m c now))
        (λ n. snoc-AllHandshake c.sent m (q n) (ground arith))
  | inr later ↦ subst IsQuiet (sym (send_message-later m c later)) q
]

pub wait_message-IsQuiet : (c : Connection) → IsQuiet c → IsQuiet (wait_message c)
unfolding wait_message
wait_message-IsQuiet c q = elim (Bool-cases (is_ack c.current_status)) [
  | inl a ↦ subst IsQuiet (sym (wait_message-ack c a)) (λ n. absurd (ground arith))
  | inr n ↦ rw n (λ m. q n)
]

lower_version-sent : (version : ℤ) (c : Connection) → (lower_version version c).sent ≡ c.sent
unfolding lower_version
lower_version-sent version c = ground arith

lower_version-status :
    (version : ℤ) (c : Connection) → (lower_version version c).current_status ≡ c.current_status
unfolding lower_version
lower_version-status version c = ground arith

module _ (hex : HexDecoder) (here : Local) where
  change_status-IsQuiet :
      (version : ℤ) (s : Status) (c : Connection) (node : Node)
      → c.current_status ≡ s
      → IsQuiet c
      → IsQuiet (change_status hex here version s c node).0
  unfolding change_status who_am_i_message send_message
  change_status-IsQuiet version idle c node e q n =
      snoc-AllHandshake _ _
        (snoc-AllHandshake _ _
          (subst AllHandshake (sym (lower_version-sent version c)) (q (rw e refl))) refl)
        refl
  change_status-IsQuiet version waiting_ack c node e q n =
      absurd (ground (arith, lower_version-status version (record c { current_status = ack })))
  change_status-IsQuiet version initiated c node e q n = q (rw e refl)
  change_status-IsQuiet version waiting c node e q n = absurd (ground arith)
  change_status-IsQuiet version ack c node e q n = q n

  pub update_status-IsQuiet :
      (version : ℤ) (t : PeerType) (c : Connection) (node : Node)
      → IsQuiet c
      → IsQuiet (update_status hex here version t c node).0
  unfolding update_status
  update_status-IsQuiet version t c node q = elim (Bool-cases (is_peer c.peer_type)) [
    | inl new ↦ rw new (change_status-IsQuiet version c.current_status _ node refl q)
    | inr old ↦ rw old (change_status-IsQuiet version c.current_status c node refl q)
  ]

  pub bind-IsQuiet : (remote : List ℕ) → IsQuiet (bind hex here (create remote))
  unfolding bind create send_message who_am_i_message
  bind-IsQuiet remote n = (refl, tt)

  -- The status that a handshake message leaves.
  abbrev pub next_status : Status → Status
  next_status idle = waiting_ack
  next_status initiated = waiting
  next_status s = ack

  change_status-next :
      (version : ℤ) (s : Status) (c : Connection) (node : Node)
      → c.current_status ≡ s
      → (change_status hex here version s c node).0.current_status ≡ next_status s
  unfolding change_status who_am_i_message send_message
  change_status-next version idle c node e = refl
  change_status-next version waiting_ack c node e =
      lower_version-status version (record c { current_status = ack })
  change_status-next version initiated c node e = refl
  change_status-next version waiting c node e = refl
  change_status-next version ack c node e = e

  pub update_status-next :
      (version : ℤ) (t : PeerType) (c : Connection) (node : Node)
      → (update_status hex here version t c node).0.current_status ≡ next_status c.current_status
  unfolding update_status
  update_status-next version t c node = elim (Bool-cases (is_peer c.peer_type)) [
    | inl new ↦ rw new (change_status-next version c.current_status _ node refl)
    | inr old ↦ rw old (change_status-next version c.current_status c node refl)
  ]

pub wait_message-status : (c : Connection) → (wait_message c).current_status ≡ c.current_status
unfolding wait_message
wait_message-status c = elim (Bool-cases (is_ack c.current_status)) [
  | inl a ↦ ap (λ (d : Connection). d.current_status) (wait_message-ack c a)
  | inr n ↦ rw n
]
