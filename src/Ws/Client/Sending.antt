-- ===== src/Ws/Client/Sending.antt =====
-- service/ws/client.go: `SafeSendMsg` on every branch, for the client and for the others.
use gim.Base.{
  ◌⊎◌, Bool-cases, ◌==◌, ℕ, ◌≤◌, ◌<◌, ◌≡◌, ◌≢◌, refl, inl, inr, true, false, Option, none, some, [],
  ◌∷◌, ◌++◌, arith, nat_eq, length,
}
use gim.Base.Chan.{Chan, sent, full, panicked, send, Sent-cases, send_sent}
use gim.ImErr.{Err, im_err, err_user_offline, err_send_chan_full}
use gim.Types.Message.{Bytes}
use gim.Ws.External.{External}
use gim.Ws.Node.{Node, Client, ClientState, online, offline, client_at, put_client, with_ext}
use gim.Ws.Client.{close, close_in, safe_send_msg, send_in, queue_msg, write_now}

-- The client with one message more in its queue.
abbrev pub with_queued : Client → Bytes → Client
with_queued c msg = record c {
  send_chan = record (c.send_chan) { buffer = c.send_chan.buffer ++ msg ∷ [] };
}

send_room :
    (ch : Chan Bytes) (msg : Bytes)
    → (send ch msg ≡ full → (ch.closed ≡ false) × (ch.cap ≤ length ch.buffer))
      × (send ch msg ≡ panicked → ch.closed ≡ true)
      × ((ch' : Chan Bytes) → send ch msg ≡ sent ch' → length ch.buffer < ch.cap)
unfolding send
send_room ch msg = (λ h. ground arith, λ h. ground arith, λ ch' h. ground arith)

module _ {E : External} where
  -- What an asynchronous send does in each state of the client and of its channel.
  pub data AsyncSend (msg : Bytes) (p : ℕ) (n : Node E) (r : Option Err × Node E) : Type 0 where
    refused :
        (client_at p n).state ≡ offline
        → r ≡ (some (im_err err_user_offline), n)
        → AsyncSend msg p n r
    queued :
        (client_at p n).state ≡ online
        → (client_at p n).send_chan.closed ≡ false
        → length (client_at p n).send_chan.buffer < (client_at p n).send_chan.cap
        → r ≡ (none, put_client p (with_queued (client_at p n) msg) n)
        → AsyncSend msg p n r
    overflowed :
        (client_at p n).state ≡ online
        → (client_at p n).send_chan.closed ≡ false
        → (client_at p n).send_chan.cap ≤ length (client_at p n).send_chan.buffer
        → r ≡ (some (im_err err_send_chan_full), close p n)
        → AsyncSend msg p n r
    lost :
        (client_at p n).state ≡ online
        → (client_at p n).send_chan.closed ≡ true
        → r ≡ (none, close p n)
        → AsyncSend msg p n r

  send_in-AsyncSend :
      (s : ClientState) (msg : Bytes) (p : ℕ) (n : Node E)
      → (client_at p n).state ≡ s
      → AsyncSend msg p n (send_in s msg 2 p n)
  unfolding send_in queue_msg
  send_in-AsyncSend offline msg p n e = refused e refl
  send_in-AsyncSend online msg p n e =
      let ch = (client_at p n).send_chan in
      let room = send_room ch msg in
      elim (Sent-cases (send ch msg)) [
        | inl r ↦ overflowed e (room.0 r).0 (room.0 r).1 (rw (r, queue_msg))
        | inr (inl r) ↦ lost e (room.1 r) (rw (r, queue_msg))
        | inr (inr (ch', r)) ↦
            queued e (send_sent ch msg r).0 (room.2 ch' r)
              (rw (r, queue_msg) (rw (send_sent ch msg r).1))
      ]

  -- An asynchronous send is refused, queued at the end, dropped with `SEND_CHAN_FULL` and a close,
  -- or, on a closed channel, dropped without an error.
  pub safe_send_msg-AsyncSend :
      (msg : Bytes) (p : ℕ) (n : Node E) → AsyncSend msg p n (safe_send_msg msg 2 p n)
  unfolding safe_send_msg
  safe_send_msg-AsyncSend msg p n = send_in-AsyncSend (client_at p n).state msg p n refl

  close-others :
      (s : ClientState) (p q : ℕ) (n : Node E)
      → q ≢ p
      → client_at q (close_in s p n) ≡ client_at q n
  unfolding close_in
  close-others offline p q n away = refl
  close-others online p q n away = ground arith

  send_in-others :
      (s : ClientState) (msg : Bytes) (t p q : ℕ) (n : Node E)
      → q ≢ p
      → client_at q (send_in s msg t p n).1 ≡ client_at q n
  unfolding send_in queue_msg close
  send_in-others offline msg t p q n away = refl
  send_in-others online msg t p q n away =
      ground (arith, close-others (client_at p n).state p q n away)

  -- No other client is touched by a send.
  pub safe_send_msg-others :
      (msg : Bytes) (t p q : ℕ) (n : Node E)
      → q ≢ p
      → client_at q (safe_send_msg msg t p n).1 ≡ client_at q n
  unfolding safe_send_msg
  safe_send_msg-others msg t p q n away = send_in-others (client_at p n).state msg t p q n away

  send_in-kinds :
      (st : ClientState) (msg : Bytes) (k p : ℕ) (n : Node E)
      → (send_in st msg k p n ≡ send_in st msg 2 p n)
        ⊎ ((s : E.State) × ((send_in st msg k p n).1 ≡ with_ext s n))
  unfolding send_in write_now
  send_in-kinds offline msg k p n = inl refl
  send_in-kinds online msg k p n = elim (Bool-cases (k == 1)) [
    | inl e ↦ inr (
      (E.write_message (client_at p n).socket (client_at p n).msg_code msg n.ext).1,
      rw (e, send_in) refl,
    )
    | inr e ↦ inl (rw (e, send_in) refl)
  ]

  -- A send is an asynchronous one, or changes the outside at most.
  pub safe_send_msg-kinds :
      (msg : Bytes) (k p : ℕ) (n : Node E)
      → (safe_send_msg msg k p n ≡ safe_send_msg msg 2 p n)
        ⊎ ((s : E.State) × ((safe_send_msg msg k p n).1 ≡ with_ext s n))
  unfolding safe_send_msg
  safe_send_msg-kinds msg k p n = send_in-kinds (client_at p n).state msg k p n
