-- ===== src/Ws/Client/Writing.antt =====
-- service/ws/client.go: `SendMsgLoop`, which writes what was queued.
use gim.Base.{
  ℕ, suc, ◌≡◌, refl, subst, ap, false, Option, none, some, List, [], ◌∷◌, arith, nat_eq,
  if◌then◌else◌, length,
}
use gim.Base.Chan.{receive-nil, receive-cons}
use gim.ImErr.{Err}
use gim.Types.Message.{Bytes}
use gim.Ws.External.{External, Opcode}
use gim.Ws.Node.{Node, online, offline, client_at, put_client, with_ext}
use gim.Ws.Client.{close, close_in}
use gim.Ws.Client.Loop.{
  Round, next_round, waits, ends, after_write, round_of, send_msg_round, send_msg_loop,
}
use gim.Ws.Client.Lifecycle.{close_offline}

module _ (E : External) where
  -- What the outside sees of a queue: writes in order, up to the first that fails, which closes
  -- the connection.
  pub deliver : ℕ → Opcode → List Bytes → E.State → E.State
  deliver socket code [] s = s
  deliver socket code (msg ∷ rest) s =
      let (e, s') = E.write_message socket code msg s in
      elim e [ none ↦ deliver socket code rest s' | some _ ↦ E.close_conn socket s' ]

module _ {E : External} where
  -- How the loop may come to rest: it waits with nothing in the queue, or the client is closed.
  abbrev pub AtRest : ℕ → Option (Round × Node E) → Type 0
  AtRest p none = ⊥
  AtRest p (some (next_round, n)) = ⊥
  AtRest p (some (waits, n)) =
      ((client_at p n).send_chan.buffer ≡ []) × ((client_at p n).send_chan.closed ≡ false)
  AtRest p (some (ends, n)) = (client_at p n).state ≡ offline

  abbrev pub ext_of : Option (Round × Node E) → E.State → E.State
  ext_of none s = s
  ext_of (some (r, n)) s = n.ext

  abbrev taken : ℕ → List Bytes → Node E → Node E
  taken p rest n =
      put_client p
        (record (client_at p n) {
          send_chan = record ((client_at p n).send_chan) { buffer = rest };
        })
        n

  round-cons :
      (p : ℕ) (n : Node E) (msg : Bytes) (rest : List Bytes)
      → (client_at p n).send_chan.buffer ≡ msg ∷ rest
      → send_msg_round p n
        ≡ after_write p
            (E.write_message (client_at p n).socket (client_at p n).msg_code msg n.ext)
            (taken p rest n)
  unfolding send_msg_round round_of
  round-cons p n msg rest e = rw (receive-cons (client_at p n).send_chan msg rest e, round_of)

  round-nil :
      (p : ℕ) (n : Node E)
      → (client_at p n).send_chan.buffer ≡ []
      → send_msg_round p n
        ≡ (if (client_at p n).send_chan.closed then (ends, close p n) else (waits, n))
  unfolding send_msg_round round_of
  round-nil p n e = ground (arith, receive-nil (client_at p n).send_chan e)

  abbrev continue : ℕ → ℕ → Round × Node E → Option (Round × Node E)
  continue fuel p r = elim r.0 [
    | next_round ↦ send_msg_loop fuel p r.1
    | waits ↦ some (waits, r.1)
    | ends ↦ some (ends, r.1)
  ]

  loop-continue :
      (fuel p : ℕ) (n : Node E)
      → send_msg_loop (suc fuel) p n ≡ continue fuel p (send_msg_round p n)
  unfolding send_msg_loop
  loop-continue fuel p n = refl

  rest_after_write :
      (fuel p : ℕ) (w : Option Err × E.State) (n : Node E)
      → AtRest p (send_msg_loop fuel p (with_ext w.1 n))
      → AtRest p (continue fuel p (after_write p w n))
  unfolding after_write
  rest_after_write fuel p (none, s) n h = h
  rest_after_write fuel p (some e, s) n h = close_offline p (with_ext s n)

  send_msg_loop_from :
      (msgs : List Bytes) (p : ℕ) (n : Node E)
      → (client_at p n).send_chan.buffer ≡ msgs
      → AtRest p (send_msg_loop (suc (length msgs)) p n)
  send_msg_loop_from [] p n e =
      rw (loop-continue 0 p n, round-nil p n e) (ground (arith, close_offline p n))
  send_msg_loop_from (msg ∷ rest) p n e =
      rw (loop-continue (suc (length rest)) p n, round-cons p n msg rest e)
        (rest_after_write (suc (length rest)) p _ (taken p rest n)
          (send_msg_loop_from rest p _ (ground arith)))

  -- In one round more than there are messages the loop comes to rest: it waits with an empty
  -- queue, or the client is offline.
  pub send_msg_loop-AtRest :
      (p : ℕ) (n : Node E)
      → AtRest p (send_msg_loop (suc (length (client_at p n).send_chan.buffer)) p n)
  send_msg_loop-AtRest p n = send_msg_loop_from _ p n refl

  ext_after_write :
      (fuel p socket : ℕ) (code : Opcode) (rest : List Bytes) (w : Option Err × E.State)
      (n : Node E) (d : E.State)
      → (client_at p n).state ≡ online
      → (client_at p n).socket ≡ socket
      → ext_of (send_msg_loop fuel p (with_ext w.1 n)) d ≡ deliver E socket code rest w.1
      → ext_of (continue fuel p (after_write p w n)) d
        ≡ elim w.0 [ none ↦ deliver E socket code rest w.1 | some _ ↦ E.close_conn socket w.1 ]
  unfolding after_write close
  ext_after_write fuel p socket code rest (none, s) n d on e h = h
  ext_after_write fuel p socket code rest (some x, s) n d on e h =
      rw (on, close_in) (ap (λ k. E.close_conn k s) e)

  -- The client of which `deliver` tells: online, its channel open.
  abbrev Writes : ℕ → ℕ → Opcode → Node E → Type 0
  Writes p socket code n =
      ((client_at p n).state ≡ online)
      × ((client_at p n).send_chan.closed ≡ false)
      × ((client_at p n).socket ≡ socket)
      × ((client_at p n).msg_code ≡ code)

  round-Writes :
      (p socket : ℕ) (code : Opcode) (n : Node E) (msg : Bytes) (rest : List Bytes)
      → Writes p socket code n
      → (client_at p n).send_chan.buffer ≡ msg ∷ rest
      → send_msg_round p n ≡ after_write p (E.write_message socket code msg n.ext) (taken p rest n)
  round-Writes p socket code n msg rest h e =
      subst
        (λ k.
          send_msg_round p n ≡ after_write p (E.write_message k code msg n.ext) (taken p rest n))
        h.2
        (subst
          (λ c.
            send_msg_round p n
            ≡ after_write p (E.write_message (client_at p n).socket c msg n.ext) (taken p rest n))
          h.3 (round-cons p n msg rest e))

  send_msg_loop-deliver_from :
      (msgs : List Bytes) (p socket : ℕ) (code : Opcode) (n : Node E) (d : E.State)
      → Writes p socket code n
      → (client_at p n).send_chan.buffer ≡ msgs
      → ext_of (send_msg_loop (suc (length msgs)) p n) d ≡ deliver E socket code msgs n.ext
  unfolding deliver
  send_msg_loop-deliver_from [] p socket code n d h e =
      rw (loop-continue 0 p n, round-nil p n e, h.1) refl
  send_msg_loop-deliver_from (msg ∷ rest) p socket code n d h e =
      rw (loop-continue (suc (length rest)) p n, round-Writes p socket code n msg rest h e)
        (ext_after_write (suc (length rest)) p socket code rest
          (E.write_message socket code msg n.ext) (taken p rest n) d (ground (arith, h.0))
          (ground (arith, h.2))
          (send_msg_loop-deliver_from rest p socket code
            (with_ext (E.write_message socket code msg n.ext).1 (taken p rest n)) d
            (ground (arith, h.0), ground (arith, h.1), ground (arith, h.2), ground (arith, h.3))
            (ground arith)))

  -- While the client is online and its channel open, the loop writes the queue in order, and
  -- stops at the first write that fails, with which it closes the connection.
  pub send_msg_loop-deliver :
      (p : ℕ) (n : Node E)
      → (client_at p n).state ≡ online
      → (client_at p n).send_chan.closed ≡ false
      → ext_of (send_msg_loop (suc (length (client_at p n).send_chan.buffer)) p n) n.ext
        ≡ deliver E
            (client_at p n).socket
            (client_at p n).msg_code
            (client_at p n).send_chan.buffer
            n.ext
  send_msg_loop-deliver p n on open' =
      send_msg_loop-deliver_from _ p _ _ n n.ext (on, open', refl, refl) refl
