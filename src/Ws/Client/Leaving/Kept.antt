-- ===== src/Ws/Client/Leaving/Kept.antt =====
-- service/ws/client.go: what of a client, and of the groups that it does not note, is as before when
-- the client leaves the node.
use gim.Base.{ℕ, ◌≡◌, String, false, none, arith, nat_eq, string_eq}
use gim.Base.Dict.{lookup, has, keys, contains-keys, lookup-erase_self}
use gim.Ws.External.{External}
use gim.Ws.Node.{Node, offline, client_at, put_client}
use gim.Ws.TGroup.Invariant.{Inv}
use gim.Ws.TGroup.Members.{is_member}
use gim.Ws.Client.{out_all_t_group, leave_node}
use gim.Ws.Client.Leaving.{out_all-Same, out_groups-is_member}

module _ {E : External} where
  pub leave_node-keeps :
      (p : ℕ) (n : Node E)
      → ((client_at p (leave_node p n)).send_chan ≡ (client_at p n).send_chan)
        × ((client_at p (leave_node p n)).close_once ≡ (client_at p n).close_once)
  unfolding leave_node
  leave_node-keeps p n =
      let same = out_all-Same p (put_client p (record (client_at p n) { state = offline }) n) in
      ground (arith, same.5, same.6)

  pub leave_node-user :
      (p : ℕ) (n : Node E) → (client_at p (leave_node p n)).user_id ≡ (client_at p n).user_id
  unfolding leave_node
  leave_node-user p n =
      let same = out_all-Same p (put_client p (record (client_at p n) { state = offline }) n) in
      ground (arith, same.2)

  -- A group that the client does not note keeps its members when the client leaves.
  pub leave_node-unnoted :
      (p : ℕ) (n : Node E) (j u : String)
      → Inv n.t_group_m
      → has j (client_at p n).t_group ≡ false
      → is_member j u (leave_node p n).t_group_m ≡ is_member j u n.t_group_m
  unfolding leave_node out_all_t_group
  leave_node-unnoted p n j u v unnoted =
      let off : Node E = put_client p (record (client_at p n) { state = offline }) n in
      ground (
        arith,
        out_groups-is_member (keys (client_at p off).t_group) p off j u v,
        contains-keys j (client_at p off).t_group,
        unnoted,
      )

  pub leave_node-no_entry :
      (p : ℕ) (n : Node E) → lookup (client_at p n).user_id (leave_node p n).client_m.clients ≡ none
  unfolding leave_node
  leave_node-no_entry p n =
      let off : Node E = put_client p (record (client_at p n) { state = offline }) n in
      let left : Node E = out_all_t_group p off in
      ground (
        arith,
        (out_all-Same p off).0,
        (out_all-Same p off).2,
        lookup-erase_self (client_at p left).user_id left.client_m.clients,
      )
