-- ===== src/Ws/Safety/Leaving.antt =====
-- service/ws/client.go: `OnClose`, and the invariant of the node.
use gim.Base.{
  ℕ, ◌≡◌, ◌≢◌, inl, inr, refl, ap, sym, ◌∙◌, String, none, some, List, [], ◌∷◌, arith, nat_eq,
  string_eq, Eq-cases,
}
use gim.Base.Dict.{lookup, has, keys}
use gim.Ws.External.{External}
use gim.Ws.Node.{Node, offline, client_at, put_client}
use gim.Ws.TGroup.Invariant.{Inv}
use gim.Ws.TGroup.Members.{HasUsers, user_out_t_group-HasUsers, user_out_t_group-Inv}
use gim.Ws.Client.{out_t_group, out_groups, out_all_t_group, leave_node, on_close}
use gim.Ws.Client.Leaving.{NotesGroups}
use gim.Ws.Client.Lifecycle.{IsGone, on_close-IsGone, on_close_lem, entered}
use gim.Ws.Safety.Invariant.{NodeInv}

module _ {E : External} where
  out_groups-fine :
      (gs : List String) (p : ℕ) (n : Node E)
      → Inv n.t_group_m
      → HasUsers n.t_group_m
      → Inv (out_groups gs p n).t_group_m
        × HasUsers (out_groups gs p n).t_group_m
        × ((out_groups gs p n).client_m.next ≡ n.client_m.next)
  unfolding out_groups out_t_group
  out_groups-fine [] p n v h = (v, h, refl)
  out_groups-fine (g ∷ gs) p n v h =
      out_groups-fine gs p (out_t_group p g n)
        (user_out_t_group-Inv g (client_at p n).user_id n.t_group_m v)
        (user_out_t_group-HasUsers g (client_at p n).user_id n.t_group_m v h)

  leave_node-fine :
      (p : ℕ) (n : Node E)
      → Inv n.t_group_m
      → HasUsers n.t_group_m
      → Inv (leave_node p n).t_group_m
        × HasUsers (leave_node p n).t_group_m
        × ((leave_node p n).client_m.next ≡ n.client_m.next)
  unfolding leave_node out_all_t_group
  leave_node-fine p n v h =
      let off : Node E = put_client p (record (client_at p n) { state = offline }) n in
      out_groups-fine (keys (client_at p off).t_group) p off v h

  -- A registered client notes the groups of its user.
  registered-NotesGroups :
      (uid : String) (p : ℕ) (n : Node E)
      → NodeInv n
      → lookup uid n.client_m.clients ≡ some p
      → NotesGroups p n
  registered-NotesGroups uid p n v e gid h =
      let name = (v.entries uid p e).1 in
      let (q, l, m) = v.noted gid (client_at p n).user_id h in ground (arith, e, name, l, m)

  gone-NodeInv :
      (uid : String) (p : ℕ) (n n' : Node E)
      → NodeInv n
      → lookup uid n.client_m.clients ≡ some p
      → IsGone p n n'
      → Inv n'.t_group_m
      → HasUsers n'.t_group_m
      → n'.client_m.next ≡ n.client_m.next
      → NodeInv n'
  gone-NodeInv uid p n n' v e gone sound used same =
      let name = (v.entries uid p e).1 in
      let left = gone.0 in
      let others = gone.1 in
      record {
        groups = sound;
        used = used;
        entries = λ u q h. elim (Eq-cases u uid) [
          | inl (_, mine) ↦ ground (arith, left.no_entry, name, mine, h)
          | inr (_, differs) ↦
              let away : u ≢ (client_at p n).user_id = λ x. differs (x ∙ name) in
              let old = v.entries u q (sym (others.entries u away) ∙ h) in
              let kept =
                others.objects q (λ x. away (sym old.1 ∙ ap (λ k. (client_at k n).user_id) x)) in
              (
                ground (arith, old, same),
                ap (λ c. c.user_id) kept ∙ old.1,
                ap (λ c. c.close_once) kept ∙ old.2,
                ap (λ c. c.send_chan.closed) kept ∙ old.3,
              )
        ];
        noted = λ gid u h. elim (Eq-cases u uid) [
          | inl (_, mine) ↦ ground (arith, left.no_group gid, name, mine, h)
          | inr (_, differs) ↦
              let away : u ≢ (client_at p n).user_id = λ x. differs (x ∙ name) in
              let (q, l, m) = v.noted gid u (sym (others.members gid u away) ∙ h) in
              let old = v.entries u q l in
              let kept =
                others.objects q (λ x. away (sym old.1 ∙ ap (λ k. (client_at k n).user_id) x)) in
              (q, others.entries u away ∙ l, ap (λ c. has gid c.t_group) kept ∙ m)
        ];
      }

  -- The close of a registered client takes it off the node, touches no other, and keeps the
  -- invariant of the node, from which all that it needs follows.
  pub on_close-NodeInv :
      (uid : String) (p : ℕ) (n : Node E)
      → NodeInv n
      → lookup uid n.client_m.clients ≡ some p
      → IsGone p n (on_close none p n).1 × NodeInv (on_close none p n).1
  on_close-NodeInv uid p n v e =
      let old = v.entries uid p e in
      let gone = on_close-IsGone p n v.groups (registered-NotesGroups uid p n v e) old.2 old.3 in
      let fine = leave_node-fine p (entered p n) v.groups v.used in
      let after = on_close_lem p n old.2 old.3 in
      (gone, gone-NodeInv uid p n _ v e gone (rw after fine.0) (rw after fine.1) (rw after fine.2))
