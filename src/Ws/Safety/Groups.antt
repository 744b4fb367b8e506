-- ===== src/Ws/Safety/Groups.antt =====
-- service/ws/local_proxy.go: joins and leaves of a group, and the invariant of the node.
use gim.Base.{
  ℕ, ◌≡◌, inl, inr, refl, ap, ◌∙◌, String, Bool, true, false, ◌&&◌, ◌||◌, some, arith, ◌==◌, nat_eq,
  string_eq, Bool-cases, Option-cases,
}
use text.Mathlib.TextEquality.{eq_iff}
use gim.Base.Dict.{lookup, lookup-insert, lookup-erase}
use gim.Ws.External.{External}
use gim.Ws.Config.{capacity}
use gim.Ws.Node.{Node, client_at}
use gim.Ws.TGroup.{TGroupManager, user_join_t_group}
use gim.Ws.TGroup.Invariant.{Inv}
use gim.Ws.TGroup.Members.{
  is_member, HasUsers, user_out_t_group-is_member, user_out_t_group-HasUsers, user_out_t_group-Inv,
}
use gim.Ws.TGroup.Joins.{alone, user_join_t_group-alone}
use gim.Ws.Client.{in_t_group, joined_group, note_group, out_t_group, forget_group}
use gim.Ws.ClientManager.{get_client}
use gim.Ws.LocalProxy.{join_lock_group, join_found, out_lock_group, out_found}
use gim.Ws.Safety.Invariant.{NodeInv}

module _ {E : External} where
  -- The groups `g` are those of `n` and, for the client `p` of `uid`, the group `gid`.
  noted-NodeInv :
      (p : ℕ) (gid uid : String) (n : Node E) (g : TGroupManager)
      → NodeInv n
      → lookup uid n.client_m.clients ≡ some p
      → Inv g
      → HasUsers g
      → ((j u : String) → is_member j u g ≡ (gid == j && uid == u) || is_member j u n.t_group_m)
      → NodeInv (note_group p gid (record n { t_group_m = g }))
  unfolding note_group
  noted-NodeInv p gid uid n g v e sound used members = record {
    groups = sound;
    used = used;
    entries = λ u q h. ground (arith, v.entries u q h);
    noted = λ j u h.
        let c = client_at p n in
        elim (Bool-cases (gid == j && uid == u)) [
          | inl t ↦ (
            p,
            ground (arith, e, t, eq_iff uid u),
            ground (arith, t, eq_iff gid j, lookup-insert gid j true c.t_group),
          )
          | inr f ↦
              let (q, l, m) = v.noted j u (ground (arith, members j u, f, h)) in
              (q, l, ground (arith, m, lookup-insert gid j true c.t_group))
        ];
  }

  -- `InTGroup` of a registered client returns, keeps the invariant and the register of users, and
  -- adds this one membership.
  pub in_t_group-NodeInv :
      (p : ℕ) (gid uid : String) (n : Node E)
      → NodeInv n
      → lookup uid n.client_m.clients ≡ some p
      → (n' : Node E) × (in_t_group p gid n ≡ some n')
        × NodeInv n'
        × (n'.client_m.clients ≡ n.client_m.clients)
        × ((j u : String)
            → is_member j u n'.t_group_m ≡ (gid == j && uid == u) || is_member j u n.t_group_m)
  unfolding in_t_group joined_group note_group
  in_t_group-NodeInv p gid uid n v e =
      let (g, done, sound, used, members) =
        user_join_t_group-alone 0 (capacity n.config.group_msg_chan_max) gid uid n.t_group_m
          v.groups v.used in
      (
        note_group p gid (record n { t_group_m = g }),
        ap (λ o. joined_group p gid o n)
            (ap
                (λ u.
                  user_join_t_group alone 1 (capacity n.config.group_msg_chan_max) gid u
                    n.t_group_m)
                (v.entries uid p e).1
              ∙ done),
        noted-NodeInv p gid uid n g v e sound used members,
        refl,
        members,
      )

  -- From a node that holds the invariant, a join on the node ends, and the invariant holds again.
  pub join_lock_group-NodeInv :
      (uid gid : String) (n : Node E)
      → NodeInv n
      → (b : Bool) × (n' : Node E) × (join_lock_group uid gid n ≡ some (b, n')) × NodeInv n'
  unfolding join_lock_group join_found get_client
  join_lock_group-NodeInv uid gid n v = elim (Option-cases (lookup uid n.client_m.clients)) [
    | inl e ↦ (false, n, rw (e, join_found) refl, v)
    | inr (p, e) ↦
        let (n', done, w, same, members) = in_t_group-NodeInv p gid uid n v e in
        (true, n', rw (e, join_found) (rw done refl), w)
  ]

  left-NodeInv :
      (p : ℕ) (gid uid : String) (n : Node E)
      → NodeInv n
      → lookup uid n.client_m.clients ≡ some p
      → NodeInv (out_t_group p gid n)
  unfolding out_t_group forget_group
  left-NodeInv p gid uid n v e =
      let name = (v.entries uid p e).1 in
      record {
        groups = user_out_t_group-Inv gid _ n.t_group_m v.groups;
        used = user_out_t_group-HasUsers gid _ n.t_group_m v.groups v.used;
        entries = λ u q h. ground (arith, v.entries u q h);
        noted = λ j u h.
            let all =
              user_out_t_group-is_member gid (client_at p n).user_id n.t_group_m j u v.groups in
            let (q, l, m) = v.noted j u (ground (arith, all, h)) in
            (
              q,
              l,
              ground (
                arith,
                h,
                all,
                m,
                name,
                v.entries u q l,
                eq_iff gid j,
                eq_iff (client_at p n).user_id u,
                lookup-erase gid j (client_at p n).t_group,
              ),
            );
      }

  -- A leave on the node keeps the invariant.
  pub out_lock_group-NodeInv :
      (uid gid : String) (n : Node E) → NodeInv n → NodeInv (out_lock_group uid gid n).1
  unfolding out_lock_group out_found get_client
  out_lock_group-NodeInv uid gid n v = elim (Option-cases (lookup uid n.client_m.clients)) [
    | inl e ↦ rw (e, out_found) v
    | inr (p, e) ↦ rw (e, out_found) (left-NodeInv p gid uid n v e)
  ]
