-- ===== src/Tests/Guests.antt =====
-- A join and a leave of `ann` by a node that she is not on.
use gim.Base.{
  ◌≡◌, refl, String, true, false, not, ◌&&◌, ◌||◌, some, arith, ◌==◌, string_eq, ◌∙◌, nat_eq,
}
use text.Mathlib.TextEquality.{eq_iff}
use gim.Base.Dict.{lookup, insert}
use gim.Ws.RedisProxy as Redis
use gim.Ws.Node.{Node}
use gim.Ws.Proxy.Agreement.{SameHere}
use gim.Ws.TGroup.{new_t_group_manager, get_or_create_t_group}
use gim.Ws.TGroup.Invariant.{new_t_group_manager-Inv}
use gim.Ws.TGroup.Members.{is_member, is_member-new, get_or_create-is_member, user_join-is_member}
use gim.Ws.Safety.Invariant.{NodeInv}
use gim.Ws.Cluster.Groups.{IsGroupPeer, join_group-joined_there, out_group-left_there}
use gim.Tests.Fixtures.{node}
use gim.Tests.Groups.{team, made, made-Inv, team-Inv, team-HasUsers}
use gim.Tests.Peers.{shared_world, shared_world-IsPeer, sender, ann-IsRouted}

shared_world-IsGroupPeer : IsGroupPeer shared_world-IsPeer
unfolding shared_world-IsPeer
shared_world-IsGroupPeer = record {
  join_runs = λ uid tgid s b there e. (ground (arith, e), ground (arith, e));
  out_runs = λ uid tgid s. (refl, refl);
}

in_team :
    (gid uid : String)
    → is_member gid uid team
      ≡ (◌==◌ {A = String} "team" gid && ◌==◌ {A = String} "ann" uid || false)
unfolding lookup insert get_or_create_t_group new_t_group_manager
in_team gid uid =
    user_join-is_member 0 "team" "ann" made gid uid made-Inv refl
    ∙ ground (
      arith,
      get_or_create-is_member 4 "team" new_t_group_manager gid uid new_t_group_manager-Inv,
      is_member-new gid uid,
    )

node-NodeInv : NodeInv node
unfolding lookup
node-NodeInv = record {
  groups = team-Inv;
  used = team-HasUsers;
  entries = λ uid p h. ground (arith, eq_iff "ann" uid);
  noted = λ gid uid h. (
    0,
    ground (arith, h, in_team gid uid, eq_iff "ann" uid),
    ground (arith, h, in_team gid uid, eq_iff "team" gid),
  );
}

ann_there : lookup "ann" node.client_m.clients ≡ some 0
unfolding lookup
ann_there = refl

join_group-joined_there_example :
    (n' : Node shared_world) × (Redis.join_group "ann" "chess" sender ≡ some (true, n'))
    × SameHere sender n'
    × NodeInv n'.ext.1
    × ((j u : String)
        → is_member j u n'.ext.1.t_group_m
          ≡ ("chess" == j && "ann" == u) || is_member j u node.t_group_m)
unfolding shared_world-IsPeer
join_group-joined_there_example =
    join_group-joined_there shared_world-IsGroupPeer "ann" "chess" 0 sender ann-IsRouted
      node-NodeInv ann_there

out_group-left_there_example :
    let n' = (Redis.out_group "ann" "team" sender).1 in
    ((Redis.out_group "ann" "team" sender).0 ≡ true)
    × SameHere sender n'
    × NodeInv n'.ext.1
    × ((j u : String)
        → is_member j u n'.ext.1.t_group_m
          ≡ is_member j u node.t_group_m && not ("team" == j && "ann" == u))
unfolding shared_world-IsPeer
out_group-left_there_example =
    out_group-left_there shared_world-IsGroupPeer "ann" "team" 0 sender ann-IsRouted node-NodeInv
      ann_there
