-- ===== src/Ws/Cluster/Groups.antt =====
-- service/ws/redis_proxy.go with service/api: a join and a leave of a user of another node.
use gim.Base.{
  ℕ, ◌≡◌, refl, sym, subst, ap, ◌∙◌, String, Bool, true, not, ◌&&◌, ◌||◌, some, arith, ◌==◌,
  string_eq,
}
use gim.Base.Dict.{lookup}
use gim.ImErr.{ok}
use gim.Types.Server.{server_string}
use gim.Api.Client as Rpc
use gim.Api.Server as Server
use gim.Ws.External.{External}
use gim.Ws.Node.{Node, client_at}
use gim.Ws.Cache.{get_user_rpc_server, get_user_online_info}
use gim.Ws.Client.{out_t_group}
use gim.Ws.ClientManager.{get_client}
use gim.Ws.LocalProxy as Local
use gim.Ws.RedisProxy as Redis
use gim.Ws.Proxy.{redis_proxy}
use gim.Ws.Proxy.Agreement.{SameHere}
use gim.Ws.TGroup.Members.{is_member, user_out_t_group-is_member}
use gim.Ws.Safety.Invariant.{NodeInv}
use gim.Ws.Safety.Groups.{in_t_group-NodeInv, out_lock_group-NodeInv}
use gim.Ws.Cluster.Remote.{IsPeer, IsRouted, looked_up, looked_up-node_at, looked_up-known}

-- The client calls the group handlers of the other node too. A handler that does not come to an end
-- answers nothing, so that nothing is said of a call of it.
pub record IsGroupPeer {E F : External} {cli : ℕ} (peer : IsPeer E F cli) : Type 0 where
  pub join_runs :
      (uid tgid : String) (s : E.State) (b : Bool) (there : Node F)
      → Server.join_group (redis_proxy F) uid tgid (peer.node_at s) ≡ some (b, there)
      → (peer.node_at (E.rpc_join_group cli uid tgid s).1 ≡ there)
        × ((E.rpc_join_group cli uid tgid s).0 ≡ ok b)
  pub out_runs :
      (uid tgid : String) (s : E.State)
      → (peer.node_at (E.rpc_out_group cli uid tgid s).1
          ≡ (Server.out_group (redis_proxy F) uid tgid (peer.node_at s)).1)
        × ((E.rpc_out_group cli uid tgid s).0
            ≡ ok (Server.out_group (redis_proxy F) uid tgid (peer.node_at s)).0)

module _ {F : External} where
  -- A join of a user that has a client on the node.
  joined_there :
      (uid tgid : String) (p : ℕ) (n : Node F)
      → NodeInv n
      → lookup uid n.client_m.clients ≡ some p
      → (n' : Node F) × (Server.join_group (redis_proxy F) uid tgid n ≡ some (true, n'))
        × NodeInv n'
        × ((j u : String)
            → is_member j u n'.t_group_m ≡ (tgid == j && uid == u) || is_member j u n.t_group_m)
  unfolding Server.join_group Local.join_lock_group Local.join_found get_client
  joined_there uid tgid p n v e =
      let (n', done, w, same, members) = in_t_group-NodeInv p tgid uid n v e in
      (n', rw (e, Local.join_found) (rw done refl), w, members)

  -- A leave of a user that has a client on the node.
  left_there :
      (uid tgid : String) (p : ℕ) (n : Node F)
      → NodeInv n
      → lookup uid n.client_m.clients ≡ some p
      → ((Local.out_lock_group uid tgid n).0 ≡ true)
        × ((j u : String)
            → is_member j u (Local.out_lock_group uid tgid n).1.t_group_m
              ≡ is_member j u n.t_group_m && not (tgid == j && uid == u))
  unfolding Local.out_lock_group Local.out_found get_client out_t_group
  left_there uid tgid p n v e = (
    rw (e, Local.out_found) refl,
    λ j u.
        rw (e, Local.out_found)
          (user_out_t_group-is_member tgid (client_at p n).user_id n.t_group_m j u v.groups
            ∙ ap (λ name. is_member j u n.t_group_m && not (tgid == j && name == u))
                (v.entries uid p e).1),
  )

module _ {E F : External} {cli : ℕ} {peer : IsPeer E F cli} (groups : IsGroupPeer peer) where
  -- What the answer of the peer makes of this node.
  abbrev answered : Bool → E.State → Node E → Bool × Node E
  answered b s n = (b, record n { ext = s })

  join_group-called :
      (uid tgid : String) (n : Node E) (b : Bool)
      → (d : IsRouted peer uid n)
      → (E.rpc_join_group cli uid tgid (looked_up peer uid n).ext).0 ≡ ok b
      → Redis.join_group uid tgid n
        ≡ some (
            answered b
              (E.rpc_join_group cli uid tgid (looked_up peer uid n).ext).1
              (looked_up peer uid n))
  unfolding Redis.join_group Rpc.join_group Rpc.with_client
  join_group-called uid tgid n b d answer = ground (
    arith,
    d.away,
    d.found,
    looked_up-known peer (server_string (some d.server)) uid n,
    d.known,
    d.same,
    answer,
  )

  out_group-called :
      (uid tgid : String) (n : Node E) (b : Bool)
      → (d : IsRouted peer uid n)
      → (E.rpc_out_group cli uid tgid (looked_up peer uid n).ext).0 ≡ ok b
      → Redis.out_group uid tgid n
        ≡ answered b
            (E.rpc_out_group cli uid tgid (looked_up peer uid n).ext).1
            (looked_up peer uid n)
  unfolding Redis.out_group Rpc.out_group Rpc.with_client
  out_group-called uid tgid n b d answer = ground (
    arith,
    d.away,
    d.found,
    looked_up-known peer (server_string (some d.server)) uid n,
    d.known,
    d.same,
    answer,
  )

  looked_up-SameHere :
      (uid : String) (n : Node E) (s : E.State)
      → SameHere n (record (looked_up peer uid n) { ext = s })
  unfolding get_user_rpc_server get_user_online_info
  looked_up-SameHere uid n s = (refl, refl, refl)

  -- With an rpc client that runs the handlers of the peer, as IsPeer and IsGroupPeer say: a join of a
  -- user of the peer, who has no client here and whose record in redis names a server of a known
  -- rpc client, where the peer holds the invariant, comes to an end and answers true. The peer
  -- holds the invariant again and its groups have gained this one membership; here no client, no
  -- group and no rpc client changes.
  pub join_group-joined_there :
      (uid tgid : String) (p : ℕ) (n : Node E)
      → IsRouted peer uid n
      → NodeInv (peer.node_at n.ext)
      → lookup uid (peer.node_at n.ext).client_m.clients ≡ some p
      → (n' : Node E) × (Redis.join_group uid tgid n ≡ some (true, n'))
        × SameHere n n'
        × NodeInv (peer.node_at n'.ext)
        × ((j u : String)
            → is_member j u (peer.node_at n'.ext).t_group_m
              ≡ (tgid == j && uid == u) || is_member j u (peer.node_at n.ext).t_group_m)
  join_group-joined_there uid tgid p n d v e =
      let s = (looked_up peer uid n).ext in
      let s' = (E.rpc_join_group cli uid tgid s).1 in
      let (there, done, w, members) = joined_there uid tgid p (peer.node_at n.ext) v e in
      let (runs, answer) =
        groups.join_runs uid tgid s true there
          (ap (Server.join_group (redis_proxy F) uid tgid) (looked_up-node_at peer uid n) ∙ done) in
      (
        record (looked_up peer uid n) { ext = s' },
        join_group-called uid tgid n true d answer,
        looked_up-SameHere uid n s',
        subst NodeInv (sym runs) w,
        λ j u. ap (λ k. is_member j u k.t_group_m) runs ∙ members j u,
      )

  -- With an rpc client that runs the handlers of the peer, as IsPeer and IsGroupPeer say: a leave
  -- of a user of the peer, who has no client here and whose record in redis names a server of a
  -- known rpc client, where the peer holds the invariant, answers true. The peer holds the
  -- invariant again and its groups have lost this one membership, if they had it; here no client,
  -- no group and no rpc client changes.
  pub out_group-left_there :
      (uid tgid : String) (p : ℕ) (n : Node E)
      → IsRouted peer uid n
      → NodeInv (peer.node_at n.ext)
      → lookup uid (peer.node_at n.ext).client_m.clients ≡ some p
      → let n' = (Redis.out_group uid tgid n).1 in
        ((Redis.out_group uid tgid n).0 ≡ true)
        × SameHere n n'
        × NodeInv (peer.node_at n'.ext)
        × ((j u : String)
            → is_member j u (peer.node_at n'.ext).t_group_m
              ≡ is_member j u (peer.node_at n.ext).t_group_m && not (tgid == j && uid == u))
  unfolding Server.out_group
  out_group-left_there uid tgid p n d v e =
      let s = (looked_up peer uid n).ext in
      let s' = (E.rpc_out_group cli uid tgid s).1 in
      let there = looked_up-node_at peer uid n in
      let (granted, members) = left_there uid tgid p (peer.node_at n.ext) v e in
      let (runs, answers) = groups.out_runs uid tgid s in
      let done = out_group-called uid tgid n true d (
        answers
        ∙ ap (λ k. ok (Server.out_group (redis_proxy F) uid tgid k).0) there
        ∙ ap ok granted) in
      let seen =
        ap (λ y. peer.node_at y.1.ext) done
        ∙ runs
        ∙ ap (λ k. (Server.out_group (redis_proxy F) uid tgid k).1) there in
      (
        ap (λ y. y.0) done,
        subst (λ y. SameHere n y.1) (sym done) (looked_up-SameHere uid n s'),
        subst NodeInv (sym seen) (out_lock_group-NodeInv uid tgid (peer.node_at n.ext) v),
        λ j u. ap (λ k. is_member j u k.t_group_m) seen ∙ members j u,
      )
