-- ===== src/Ws/Cluster/Arrival.antt =====
-- service/ws/redis_proxy.go, cache.go and service/api: a message to a user of another node, from the
-- record in redis to the queue of the client.
use gim.Base.{
  ℕ, ◌≡◌, ◌≢◌, ◌<◌, ap, ◌∙◌, String, false, none, some, arith, length, nat_eq, string_eq,
}
use gim.Base.Dict.{lookup}
use gim.ImErr.{ok}
use gim.Types.Message.{Bytes}
use gim.Types.Server.{new_server, server_string}
use gim.Api.Client as Rpc
use gim.Ws.External.{External, UserOnline}
use gim.Ws.External.Laws.{IsRedis, IsJson}
use gim.Ws.Node.{Node, RpcClient, online, client_at, put_client}
use gim.Ws.Cache.Records.{record_of, get_user_rpc_server-written}
use gim.Ws.Client.{safe_send_msg}
use gim.Ws.Client.Sending.{
  with_queued, AsyncSend, refused, queued, overflowed, lost, safe_send_msg-AsyncSend,
}
use gim.Ws.ClientManager.{has_user, get_client, send_msg_to_user}
use gim.Ws.LocalProxy as Local
use gim.Ws.RedisProxy as Redis
use gim.Ws.Cluster.Remote.{IsPeer, IsRouted, carried, send_msg_to_user-IsRemote}

module _ {F : External} where
  -- A client of the user on the node, that takes one more message.
  pub record HasRoom (uid : String) (p : ℕ) (n : Node F) : Type 0 where
    pub entry : lookup uid n.client_m.clients ≡ some p
    pub is_online : (client_at p n).state ≡ online
    pub opened : (client_at p n).send_chan.closed ≡ false
    pub room : length (client_at p n).send_chan.buffer < (client_at p n).send_chan.cap

  queued_there :
      (uid : String) (msg : Bytes) (p : ℕ) (n : Node F)
      → HasRoom uid p n
      → AsyncSend msg p n (safe_send_msg msg 2 p n)
      → safe_send_msg msg 2 p n ≡ (none, put_client p (with_queued (client_at p n) msg) n)
  queued_there uid msg p n h (refused a e) = ground (arith, h.is_online)
  queued_there uid msg p n h (queued a b c e) = e
  queued_there uid msg p n h (overflowed a b c e) = absurd (omega (arith, c, h.room))
  queued_there uid msg p n h (lost a b e) = ground (arith, h.opened)

  sent_there :
      (uid : String) (msg : Bytes) (p : ℕ) (n : Node F)
      → HasRoom uid p n
      → Local.send_msg_to_local_user uid msg n
        ≡ (none, put_client p (with_queued (client_at p n) msg) n)
  unfolding Local.send_msg_to_local_user send_msg_to_user get_client
  sent_there uid msg p n h =
      rw (h.entry, send_msg_to_user) (queued_there uid msg p n h (safe_send_msg-AsyncSend msg p n))

module _ {E F : External} {cli : ℕ} (peer : IsPeer E F cli) (r : IsRedis E) (json : IsJson E) where
  -- The user's record in redis names the peer, to which the node has an rpc client.
  pub record Names (uid : String) (u : UserOnline) (n : Node E) : Type 0 where
    pub client : RpcClient
    pub away : has_user uid n ≡ false
    pub recorded : record_of r uid n ≡ some (json.written u)
    pub reads_back : E.unmarshal_user_online (json.written u) ≡ (u, none)
    pub has_ip : u.acc_ip ≢ ""
    pub has_port : u.rpc_port ≢ ""
    pub known :
        Rpc.get_client_by_addr (server_string (some (new_server u.acc_ip u.rpc_port))) n ≡ ok client
    pub same : client.cli ≡ cli

  routed : (uid : String) (u : UserOnline) (n : Node E) → Names uid u n → IsRouted peer uid n
  routed uid u n d = record {
    server = new_server u.acc_ip u.rpc_port;
    client = d.client;
    away = d.away;
    found = get_user_rpc_server-written r json uid u n d.recorded d.reads_back d.has_ip d.has_port;
    known = d.known;
    same = d.same;
  }

  -- While redis answers as IsRedis says, records are encoded as IsJson says, and the rpc client
  -- runs the handlers of the peer as IsPeer says, a message from a node without a client of the
  -- user, whose redis has a record of the user that can be read and has an ip and an rpc port,
  -- to whose address the node has an rpc client of the peer, where the user has an online
  -- client with room: the send succeeds, and the peer changes by nothing but this message at
  -- the end of the queue of that client.
  pub send_msg_to_user-arrives :
      (uid : String) (msg : Bytes) (u : UserOnline) (p : ℕ) (n : Node E)
      → Names uid u n
      → HasRoom uid p (peer.node_at n.ext)
      → let there = peer.node_at n.ext in
        ((Redis.send_msg_to_user uid msg n).0 ≡ none)
        × (peer.node_at (Redis.send_msg_to_user uid msg n).1.ext
            ≡ put_client p (with_queued (client_at p there) msg) there)
  send_msg_to_user-arrives uid msg u p n d h =
      let there = peer.node_at n.ext in
      let (runs, answers) = send_msg_to_user-IsRemote peer uid msg n (routed uid u n d) in
      let s = sent_there uid msg p there h in
      (answers ∙ ap (λ y. carried peer.wire y.0) s, runs ∙ ap (λ y. y.1) s)
