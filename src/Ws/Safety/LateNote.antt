-- ===== src/Ws/Safety/LateNote.antt =====
-- service/ws/client.go: `OutTGroup` leaves the group, and then deletes the client's note of it. Here
-- an `InTGroup` of another goroutine comes in between.
use gim.Base.{ℕ, ◌≡◌, refl, ap, ◌∙◌, String, true, false, none, some, arith, nat_eq, string_eq}
use text.Mathlib.TextEquality.{eq_iff}
use gim.Base.Dict.{lookup, lookup-erase_self, has, insert}
use gim.Ws.Config.{capacity}
use gim.Ws.External.{External}
use gim.Ws.Node.{Node, client_at}
use gim.Ws.TGroup.{user_out_t_group}
use gim.Ws.TGroup.Invariant.{Inv}
use gim.Ws.TGroup.Members.{is_member, user_out_t_group-Inv, user_out_t_group-HasUsers}
use gim.Ws.TGroup.Joins.{user_join_t_group-alone}
use gim.Ws.Client.{
  in_t_group, joined_group, note_group, forget_group, out_t_group, on_close, leave_node,
}
use gim.Ws.Client.Leaving.Kept.{leave_node-unnoted, leave_node-no_entry}
use gim.Ws.Client.Lifecycle.{on_close_lem, entered}
use gim.Ws.Safety.Invariant.{NodeInv}

module _ {E : External} where
  -- The two steps of `OutTGroup`.
  abbrev pub group_left : ℕ → String → Node E → Node E
  group_left p gid n = record n {
    t_group_m = (user_out_t_group gid (client_at p n).user_id n.t_group_m).1;
  }

  two_steps :
      (p : ℕ) (gid : String) (n : Node E)
      → out_t_group p gid n ≡ forget_group p gid (group_left p gid n)
  unfolding out_t_group
  two_steps p gid n = refl

  -- The user is in the group, without an entry on the node.
  abbrev pub IsLeft : String → String → Node E → Type 0
  IsLeft uid gid n = (is_member gid uid n.t_group_m ≡ true) × (lookup uid n.client_m.clients ≡ none)

  unnoted-IsLeft :
      (uid gid : String) (p : ℕ) (n : Node E)
      → Inv n.t_group_m
      → (client_at p n).user_id ≡ uid
      → (client_at p n).close_once ≡ false
      → (client_at p n).send_chan.closed ≡ false
      → is_member gid uid n.t_group_m ≡ true
      → has gid (client_at p n).t_group ≡ false
      → IsLeft uid gid (on_close none p n).1
  unnoted-IsLeft uid gid p n v name once opened member unnoted = rw (on_close_lem p n once opened) (
    leave_node-unnoted p (entered p n) gid uid v (ground (arith, unnoted)) ∙ member,
    ap (λ u. lookup u (leave_node p (entered p n)).client_m.clients) (ground (arith, name))
        ∙ leave_node-no_entry p (entered p n),
  )

  -- From a node that holds the invariant, for a registered client: if its InTGroup of the same group
  -- runs between the two steps of its OutTGroup, then it returns, and the user is in the group
  -- although the client does not note it; so the OnClose of the client, without a hook, leaves the
  -- user in the group, without an entry on the node.
  pub forget_group-IsLeft :
      (uid gid : String) (p : ℕ) (n : Node E)
      → NodeInv n
      → lookup uid n.client_m.clients ≡ some p
      → (out_t_group p gid n ≡ forget_group p gid (group_left p gid n))
        × ((n' : Node E) × (in_t_group p gid (group_left p gid n) ≡ some n')
            × IsLeft uid gid (on_close none p (forget_group p gid n')).1)
  unfolding in_t_group joined_group note_group forget_group
  forget_group-IsLeft uid gid p n v e =
      let (made, name, once, opened) = v.entries uid p e in
      let user = (client_at p n).user_id in
      let out = (user_out_t_group gid user n.t_group_m).1 in
      let cap = capacity n.config.group_msg_chan_max in
      let (g, done, sound, used, members) =
        user_join_t_group-alone 0 cap gid user out
          (user_out_t_group-Inv gid user n.t_group_m v.groups)
          (user_out_t_group-HasUsers gid user n.t_group_m v.groups v.used) in
      let n' : Node E = note_group p gid (record (group_left p gid n) { t_group_m = g }) in
      (
        two_steps p gid n,
        (
          n',
          ap (λ o. joined_group p gid o (group_left p gid n)) done,
          unnoted-IsLeft uid gid p (forget_group p gid n') sound (ground (arith, name))
              (ground (arith, once)) (ground (arith, opened))
              (ground (arith, members gid uid, name, eq_iff gid gid, eq_iff user uid))
              (ground (arith, lookup-erase_self gid (insert gid true (client_at p n).t_group))),
        ),
      )
