-- ===== src/Ws/Cluster/Remote.antt =====
-- service/ws/redis_proxy.go with service/api: a message to a user of another node.
use gim.Base.{ℕ, ◌≡◌, refl, ap, ◌∙◌, String, false, Option, none, some, arith}
use gim.ImErr.{Err, Result, ok, err}
use gim.Types.Message.{Bytes}
use gim.Types.Server.{Server, server_string}
use gim.Api.Client as Rpc
use gim.Api.Server as Server
use gim.Ws.External.{External}
use gim.Ws.Node.{Node, RpcClient}
use gim.Ws.Cache.{get_user_online_key, get_user_online_info, get_user_rpc_server}
use gim.Ws.ClientManager.{has_user}
use gim.Ws.LocalProxy as Local
use gim.Ws.RedisProxy as Redis
use gim.Ws.Proxy.{redis_proxy}

-- What the caller gets for the answer of a handler: an error is carried as another one.
abbrev pub answer_of : (Err → Err) → ℕ × Option Err → Result ℕ
answer_of wire (code, none) = ok code
answer_of wire (code, some e) = err (wire e)

abbrev pub carried : (Err → Err) → Option Err → Option Err
carried wire none = none
carried wire (some e) = some (wire e)

-- The kitex client `cli` of a node calls the handlers of another node, which is reached by nothing
-- else: the call runs the handler there and brings its answer.
pub record IsPeer (E F : External) (cli : ℕ) : Type 0 where
  pub node_at : E.State → Node F
  pub wire : Err → Err
  pub redis_get_apart : (k : String) (s : E.State) → node_at (E.redis_get k s).1 ≡ node_at s
  pub send_runs :
      (uid : String) (msg : Bytes) (s : E.State)
      → node_at (E.rpc_send_msg_to_user cli uid msg s).1
        ≡ (Server.send_msg_to_user (redis_proxy F) uid msg (node_at s)).1
  pub send_answers :
      (uid : String) (msg : Bytes) (s : E.State)
      → (E.rpc_send_msg_to_user cli uid msg s).0
        ≡ answer_of wire (Server.send_msg_to_user (redis_proxy F) uid msg (node_at s)).0
  pub send_by_tgid_runs :
      (uid tgid : String) (msg : Bytes) (s : E.State)
      → node_at (E.rpc_send_msg_to_user_by_tgid cli uid tgid msg s).1
        ≡ (Server.send_msg_to_user_by_tgid (redis_proxy F) uid tgid msg (node_at s)).1
  pub send_by_tgid_answers :
      (uid tgid : String) (msg : Bytes) (s : E.State)
      → (E.rpc_send_msg_to_user_by_tgid cli uid tgid msg s).0
        ≡ answer_of wire
            (Server.send_msg_to_user_by_tgid (redis_proxy F) uid tgid msg (node_at s)).0

module _ {E F : External} {cli : ℕ} (peer : IsPeer E F cli) where
  -- The user has no client here; its record names a server whose rpc client is `cli`.
  pub record IsRouted (uid : String) (n : Node E) : Type 0 where
    pub server : Server
    pub client : RpcClient
    pub away : has_user uid n ≡ false
    pub found : (get_user_rpc_server uid n).0 ≡ ok server
    pub known : Rpc.get_client_by_addr (server_string (some server)) n ≡ ok client
    pub same : client.cli ≡ cli

  -- The node after the record of the user was read.
  abbrev pub looked_up : String → Node E → Node E
  looked_up uid n = (get_user_rpc_server uid n).1

  pub looked_up-node_at :
      (uid : String) (n : Node E) → peer.node_at (looked_up uid n).ext ≡ peer.node_at n.ext
  unfolding get_user_rpc_server get_user_online_info
  looked_up-node_at uid n = peer.redis_get_apart (get_user_online_key uid n) n.ext

  pub looked_up-known :
      (addr uid : String) (n : Node E)
      → Rpc.get_client_by_addr addr (looked_up uid n) ≡ Rpc.get_client_by_addr addr n
  unfolding get_user_rpc_server get_user_online_info Rpc.get_client_by_addr
  looked_up-known addr uid n = refl

  -- What a call of the peer does, whichever of the two sends it is.
  send_msg_to_user-called :
      (uid : String) (msg : Bytes) (n : Node E)
      → (d : IsRouted uid n)
      → (Redis.send_msg_to_user uid msg n) ≡ (
        (Rpc.send_msg_to_user d.server uid msg (looked_up uid n)).0.1,
        (Rpc.send_msg_to_user d.server uid msg (looked_up uid n)).1,
      )
  unfolding Redis.send_msg_to_user
  send_msg_to_user-called uid msg n d = ground (arith, d.away, d.found)

  rpc-runs :
      (uid : String) (msg : Bytes) (n : Node E) (d : IsRouted uid n)
      → Rpc.send_msg_to_user d.server uid msg (looked_up uid n)
        ≡ Rpc.code_answer
            (E.rpc_send_msg_to_user cli uid msg (looked_up uid n).ext)
            (looked_up uid n)
  unfolding Rpc.send_msg_to_user Rpc.with_client
  rpc-runs uid msg n d =
      rw (looked_up-known (server_string (some d.server)) uid n, d.known, d.same, Rpc.with_client)

  by_tgid-called :
      (uid tgid : String) (msg : Bytes) (n : Node E) (d : IsRouted uid n)
      → Redis.send_msg_to_user_by_tgid uid tgid msg n ≡ (
        (Rpc.send_msg_to_user_by_tgid d.server uid tgid msg (looked_up uid n)).0.1,
        (Rpc.send_msg_to_user_by_tgid d.server uid tgid msg (looked_up uid n)).1,
      )
  unfolding Redis.send_msg_to_user_by_tgid
  by_tgid-called uid tgid msg n d = ground (arith, d.away, d.found)

  by_tgid-runs :
      (uid tgid : String) (msg : Bytes) (n : Node E) (d : IsRouted uid n)
      → Rpc.send_msg_to_user_by_tgid d.server uid tgid msg (looked_up uid n)
        ≡ Rpc.code_answer
            (E.rpc_send_msg_to_user_by_tgid cli uid tgid msg (looked_up uid n).ext)
            (looked_up uid n)
  unfolding Rpc.send_msg_to_user_by_tgid Rpc.with_client
  by_tgid-runs uid tgid msg n d =
      rw (looked_up-known (server_string (some d.server)) uid n, d.known, d.same, Rpc.with_client)

  code_answer-ext : (x : Result ℕ × E.State) (n : Node E) → (Rpc.code_answer x n).1.ext ≡ x.1
  unfolding Rpc.code_answer
  code_answer-ext (err e, s) n = refl
  code_answer-ext (ok c, s) n = refl

  code_answer-carried :
      (wire : Err → Err) (a : ℕ × Option Err) (s : E.State) (n : Node E)
      → (Rpc.code_answer (answer_of wire a, s) n).0.1 ≡ carried wire a.1
  unfolding Rpc.code_answer
  code_answer-carried wire (code, none) s n = refl
  code_answer-carried wire (code, some e) s n = refl

  -- A result and the node that it leaves are those of `there`, seen from this node.
  abbrev pub IsRemote : Option Err × Node E → Option Err × Node F → Type 0
  IsRemote here there = (peer.node_at here.1.ext ≡ there.1) × (here.0 ≡ carried peer.wire there.0)

  -- What a call of the peer answers, and the peer that it leaves, are brought through.
  called-IsRemote :
      (sent : Option Err × Node E) (there : Option Err × Node F) (x : Result ℕ × E.State)
      (a : ℕ × Option Err) (m : Node E)
      → sent ≡ ((Rpc.code_answer x m).0.1, (Rpc.code_answer x m).1)
      → peer.node_at x.1 ≡ there.1
      → x.0 ≡ answer_of peer.wire a
      → a.1 ≡ there.0
      → IsRemote sent there
  called-IsRemote sent there x a m called runs answers same = (
    ap (λ y. peer.node_at y.1.ext) called ∙ (ap peer.node_at (code_answer-ext x m) ∙ runs),
    ap (λ y. y.0) called
        ∙ (ap (λ y. (Rpc.code_answer (y, x.1) m).0.1) answers
            ∙ (code_answer-carried peer.wire a x.1 m ∙ ap (carried peer.wire) same)),
  )

  -- With an rpc client that runs the handlers of the peer, as IsPeer says, a message to a user
  -- of the peer, who has no client here and whose record in redis names a server of a known rpc
  -- client, does on the peer what a local send there does, and its error is the error there as
  -- the call brings it.
  pub send_msg_to_user-IsRemote :
      (uid : String) (msg : Bytes) (n : Node E)
      → IsRouted uid n
      → IsRemote
          (Redis.send_msg_to_user uid msg n)
          (Local.send_msg_to_local_user uid msg (peer.node_at n.ext))
  unfolding Server.send_msg_to_user
  send_msg_to_user-IsRemote uid msg n d =
      let m : Node E = looked_up uid n in
      let there = looked_up-node_at uid n in
      called-IsRemote _ _ (E.rpc_send_msg_to_user cli uid msg m.ext)
        (Server.send_msg_to_user (redis_proxy F) uid msg (peer.node_at m.ext)).0 m
        (send_msg_to_user-called uid msg n d ∙ ap (λ y. (y.0.1, y.1)) (rpc-runs uid msg n d))
        (peer.send_runs uid msg m.ext ∙ ap (λ k. (Local.send_msg_to_local_user uid msg k).1) there)
        (peer.send_answers uid msg m.ext)
        (ap (λ k. (Local.send_msg_to_local_user uid msg k).0) there)

  -- With an rpc client that runs the handlers of the peer, as IsPeer says, a message to a
  -- member of a group, who has no client here and whose record in redis names a server of a
  -- known rpc client, does on the peer what a local send to a member there does, and its error
  -- is the error there as the call brings it.
  pub send_msg_to_user_by_tgid-IsRemote :
      (uid tgid : String) (msg : Bytes) (n : Node E)
      → IsRouted uid n
      → IsRemote
          (Redis.send_msg_to_user_by_tgid uid tgid msg n)
          (Local.send_msg_to_local_user_by_tgid uid tgid msg (peer.node_at n.ext))
  unfolding Server.send_msg_to_user_by_tgid
  send_msg_to_user_by_tgid-IsRemote uid tgid msg n d =
      let m : Node E = looked_up uid n in
      let there = looked_up-node_at uid n in
      called-IsRemote _ _ (E.rpc_send_msg_to_user_by_tgid cli uid tgid msg m.ext)
        (Server.send_msg_to_user_by_tgid (redis_proxy F) uid tgid msg (peer.node_at m.ext)).0 m
        (by_tgid-called uid tgid msg n d ∙ ap (λ y. (y.0.1, y.1)) (by_tgid-runs uid tgid msg n d))
        (peer.send_by_tgid_runs uid tgid msg m.ext
          ∙ ap (λ k. (Local.send_msg_to_local_user_by_tgid uid tgid msg k).1) there)
        (peer.send_by_tgid_answers uid tgid msg m.ext)
        (ap (λ k. (Local.send_msg_to_local_user_by_tgid uid tgid msg k).0) there)
