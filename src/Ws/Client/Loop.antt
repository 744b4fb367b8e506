-- ===== src/Ws/Client/Loop.antt =====
-- service/ws/client.go: `SendMsgLoop`, by its rounds.
use gim.Base.{ℕ, zero, suc, Option, none, some, nat_eq, string_eq}
use gim.Base.Chan.{Received, received, waiting, finished, receive}
use gim.ImErr.{Err}
use gim.Types.Message.{Bytes}
use gim.Ws.External.{External}
use gim.Ws.Node.{Node, client_at, put_client, with_ext}
use gim.Ws.Client.{close}

-- What a round of `SendMsgLoop` comes to: the next round, a wait for a message, or the end.
pub data Round : Type 0 where
  next_round waits ends : Round

module _ {E : External} where
  -- A write that fails ends the loop; `Close` is deferred.
  unfoldable pub after_write : ℕ → Option Err × E.State → Node E → Round × Node E
  unfolding close
  after_write p (none, s) n = (next_round, with_ext s n)
  after_write p (some e, s) n = (ends, close p (with_ext s n))

  unfoldable pub round_of : ℕ → Received Bytes → Node E → Round × Node E
  unfolding after_write
  round_of p waiting n = (waits, n)
  round_of p finished n = (ends, close p n)
  round_of p (received msg ch) n =
      after_write p (E.write_message (client_at p n).socket (client_at p n).msg_code msg n.ext)
        (put_client p (record (client_at p n) { send_chan = ch }) n)

  unfoldable pub send_msg_round : ℕ → Node E → Round × Node E
  unfolding round_of
  send_msg_round p n = round_of p (receive (client_at p n).send_chan) n

  -- `SendMsgLoop` up to its end, or to a wait, on fuel.
  unfoldable pub send_msg_loop : ℕ → ℕ → Node E → Option (Round × Node E)
  send_msg_loop zero p n = none
  send_msg_loop (suc fuel) p n =
      let (round, n') = send_msg_round p n in
      elim round [
        | next_round ↦ send_msg_loop fuel p n'
        | waits ↦ some (waits, n')
        | ends ↦ some (ends, n')
      ]
