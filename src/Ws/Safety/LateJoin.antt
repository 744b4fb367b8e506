-- ===== src/Ws/Safety/LateJoin.antt =====
-- service/ws/client.go and local_proxy.go: `JoinLockGroup` finds the client, and then calls its
-- `InTGroup`. Here `OnClose` comes in between.
use gim.Base.{ℕ, ◌≡◌, refl, ap, sym, ◌∙◌, String, true, false, none, some, arith, nat_eq, string_eq}
use text.Mathlib.TextEquality.{eq_iff}
use gim.Base.Dict.{lookup}
use gim.Ws.Config.{capacity}
use gim.Ws.External.{External}
use gim.Ws.Node.{Node, client_at, offline}
use gim.Ws.TGroup.{user_join_t_group}
use gim.Ws.TGroup.Members.{is_member}
use gim.Ws.TGroup.Joins.{alone, user_join_t_group-alone}
use gim.Ws.Client.{in_t_group, joined_group, note_group, on_close, CloseHook}
use gim.Ws.Client.Leaving.Kept.{leave_node-user}
use gim.Ws.Client.Lifecycle.{on_close_lem, on_close_again, entered}
use gim.Ws.ClientManager.{get_client}
use gim.Ws.LocalProxy.{out_lock_group, out_found}
use gim.Ws.Safety.Invariant.{NodeInv}
use gim.Ws.Safety.Leaving.{on_close-NodeInv}

module _ {E : External} where
  -- The user is in the group without a client, and neither the client's close nor a leave of the
  -- group by the user's name changes the node.
  pub record IsStuck (p : ℕ) (uid gid : String) (n : Node E) : Type 0 where
    pub member : is_member gid uid n.t_group_m ≡ true
    pub no_entry : lookup uid n.client_m.clients ≡ none
    pub is_offline : (client_at p n).state ≡ offline
    pub closed_once : (hook : CloseHook E) → on_close hook p n ≡ (false, n)
    pub no_leave : out_lock_group uid gid n ≡ (false, n)

  closed_user :
      (uid : String) (p : ℕ) (n : Node E)
      → NodeInv n
      → lookup uid n.client_m.clients ≡ some p
      → (client_at p (on_close none p n).1).user_id ≡ uid
  closed_user uid p n v e =
      let old = v.entries uid p e in
      rw (on_close_lem p n old.2 old.3) (ground (arith, leave_node-user p (entered p n), old.1))

  no_leave_without :
      (uid gid : String) (n : Node E)
      → lookup uid n.client_m.clients ≡ none
      → out_lock_group uid gid n ≡ (false, n)
  unfolding out_lock_group out_found get_client
  no_leave_without uid gid n e = rw (e, out_found) refl

  -- From a node that holds the invariant, for a registered client: if its OnClose, without a hook,
  -- comes between the look-up of the client in JoinLockGroup and the client's InTGroup, then
  -- InTGroup returns and the user stands in the group without an entry and with the client
  -- offline; a second OnClose and a leave by the name of the user change nothing.
  pub in_t_group-IsStuck :
      (uid gid : String) (p : ℕ) (n : Node E)
      → NodeInv n
      → lookup uid n.client_m.clients ≡ some p
      → (n' : Node E) × (in_t_group p gid (on_close none p n).1 ≡ some n') × IsStuck p uid gid n'
  unfolding in_t_group joined_group note_group
  in_t_group-IsStuck uid gid p n v e =
      let gone : Node E = (on_close none p n).1 in
      let (left, w) = on_close-NodeInv uid p n v e in
      let cap = capacity gone.config.group_msg_chan_max in
      let (g, done, sound, used, members) =
        user_join_t_group-alone 0 cap gid uid gone.t_group_m w.groups w.used in
      let n' : Node E = note_group p gid (record gone { t_group_m = g }) in
      let absent : lookup uid gone.client_m.clients ≡ none =
        ap (λ u. lookup u gone.client_m.clients) (sym (v.entries uid p e).1) ∙ left.0.no_entry in
      (
        n',
        ap (λ u. joined_group p gid (user_join_t_group alone 1 cap gid u gone.t_group_m) gone)
              (closed_user uid p n v e)
            ∙ ap (λ o. joined_group p gid o gone) done,
        record {
          member = ground (arith, members gid uid, eq_iff gid gid, eq_iff uid uid);
          no_entry = absent;
          is_offline = ground (arith, left.0.is_offline);
          closed_once = λ hook. on_close_again hook p n' (ground (arith, left.3));
          no_leave = no_leave_without uid gid n' absent;
        },
      )
