-- ===== src/Ws/Client/Leaving.antt =====
-- service/ws/client.go: what a client that leaves its groups and its node takes away, and what stays.
pub mod Kept
use gim.Base.{
  ℕ, ◌≡◌, ◌≢◌, refl, ◌∙◌, String, true, false, not, ◌&&◌, none, List, [], ◌∷◌, arith, ◌==◌, nat_eq,
  string_eq,
}
use gim.Base.Dict.{lookup, has, keys, contains, contains-keys, lookup-erase, lookup-erase_self}
use text.Mathlib.TextEquality.{eq_iff}
use gim.Ws.External.{External}
use gim.Ws.Node.{Node, offline, client_at, put_client}
use gim.Ws.TGroup.Invariant.{Inv}
use gim.Ws.TGroup.Members.{is_member, user_out_t_group-is_member, user_out_t_group-Inv}
use gim.Ws.Client.{out_t_group, out_groups, out_all_t_group, leave_node}

module _ {E : External} where
  -- Leaving a list of groups takes the user out of these, and nobody else out of any.
  out_groups-Inv :
      (gs : List String) (p : ℕ) (n : Node E) → Inv n.t_group_m → Inv (out_groups gs p n).t_group_m
  unfolding out_groups out_t_group
  out_groups-Inv [] p n v = v
  out_groups-Inv (g ∷ gs) p n v =
      out_groups-Inv gs p _ (user_out_t_group-Inv g (client_at p n).user_id n.t_group_m v)

  -- What leaving groups does not touch.
  abbrev SameButGroups : ℕ → Node E → Node E → Type 0
  SameButGroups p n n' =
      (n'.client_m.clients ≡ n.client_m.clients)
      × (n'.client_m.conn_client_idx ≡ n.client_m.conn_client_idx)
      × ((client_at p n').user_id ≡ (client_at p n).user_id)
      × ((client_at p n').socket ≡ (client_at p n).socket)
      × ((client_at p n').state ≡ (client_at p n).state)
      × ((client_at p n').close_once ≡ (client_at p n).close_once)
      × ((client_at p n').send_chan ≡ (client_at p n).send_chan)
      × ((q : ℕ) → q ≢ p → client_at q n' ≡ client_at q n)

  out_t_group-Same : (g : String) (p : ℕ) (n : Node E) → SameButGroups p n (out_t_group p g n)
  unfolding out_t_group
  out_t_group-Same g p n = (
    refl,
    refl,
    ground arith,
    ground arith,
    ground arith,
    ground arith,
    ground arith,
    λ q h. ground arith,
  )

  out_groups-Same : (gs : List String) (p : ℕ) (n : Node E) → SameButGroups p n (out_groups gs p n)
  unfolding out_groups
  out_groups-Same [] p n = (refl, refl, refl, refl, refl, refl, refl, λ q h. refl)
  out_groups-Same (g ∷ gs) p n =
      let a = out_t_group-Same g p n in
      let b = out_groups-Same gs p (out_t_group p g n) in
      (
        b.0 ∙ a.0,
        b.1 ∙ a.1,
        b.2 ∙ a.2,
        b.3 ∙ a.3,
        b.4 ∙ a.4,
        b.5 ∙ a.5,
        b.6 ∙ a.6,
        λ q h. b.7 q h ∙ a.7 q h,
      )

  out_groups-is_member :
      (gs : List String) (p : ℕ) (n : Node E) (j u : String)
      → Inv n.t_group_m
      → is_member j u (out_groups gs p n).t_group_m
        ≡ is_member j u n.t_group_m && not (contains j gs && (client_at p n).user_id == u)
  unfolding out_groups out_t_group contains
  out_groups-is_member [] p n j u v = ground arith
  out_groups-is_member (g ∷ gs) p n j u v = ground (
    arith,
    out_groups-is_member gs p (out_t_group p g n) j u
        (user_out_t_group-Inv g (client_at p n).user_id n.t_group_m v),
    user_out_t_group-is_member g (client_at p n).user_id n.t_group_m j u v,
  )

  -- Every group that has the user is in the client's own list of groups.
  abbrev pub NotesGroups : ℕ → Node E → Type 0
  NotesGroups p n =
      (gid : String)
      → is_member gid (client_at p n).user_id n.t_group_m ≡ true
      → has gid (client_at p n).t_group ≡ true

  out_all_t_group-is_member :
      (p : ℕ) (n : Node E) (j u : String)
      → Inv n.t_group_m
      → NotesGroups p n
      → is_member j u (out_all_t_group p n).t_group_m
        ≡ is_member j u n.t_group_m && not ((client_at p n).user_id == u)
  unfolding out_all_t_group
  out_all_t_group-is_member p n j u v noted = ground (
    arith,
    out_groups-is_member (keys (client_at p n).t_group) p n j u v,
    contains-keys j (client_at p n).t_group,
    noted j,
    eq_iff (client_at p n).user_id u,
  )

  leave_node-is_member :
      (p : ℕ) (n : Node E) (j u : String)
      → Inv n.t_group_m
      → NotesGroups p n
      → is_member j u (leave_node p n).t_group_m
        ≡ is_member j u n.t_group_m && not ((client_at p n).user_id == u)
  unfolding leave_node
  leave_node-is_member p n j u v noted = ground (
    arith,
    out_all_t_group-is_member p (put_client p (record (client_at p n) { state = offline }) n) j u v,
  )

  out_all-Same : (p : ℕ) (n : Node E) → SameButGroups p n (out_all_t_group p n)
  unfolding out_all_t_group
  out_all-Same p n = out_groups-Same (keys (client_at p n).t_group) p n

  -- The state of a client that has left the node.
  pub record HasLeft (p : ℕ) (uid : String) (socket : ℕ) (n : Node E) : Type 0 where
    pub no_entry : lookup uid n.client_m.clients ≡ none
    pub no_conn : lookup socket n.client_m.conn_client_idx ≡ none
    pub no_group : (gid : String) → is_member gid uid n.t_group_m ≡ false
    pub is_offline : (client_at p n).state ≡ offline

  pub leave_node-HasLeft :
      (p : ℕ) (n : Node E)
      → Inv n.t_group_m
      → NotesGroups p n
      → HasLeft p (client_at p n).user_id (client_at p n).socket (leave_node p n)
  unfolding leave_node
  leave_node-HasLeft p n v noted =
      let off : Node E = put_client p (record (client_at p n) { state = offline }) n in
      let left : Node E = out_all_t_group p off in
      let same = out_all-Same p off in
      record {
        no_entry =
            ground
              (arith, same.2, lookup-erase_self (client_at p left).user_id left.client_m.clients);
        no_conn = ground (
          arith,
          same.3,
          lookup-erase_self (client_at p left).socket left.client_m.conn_client_idx,
        );
        no_group = λ gid. ground (
          arith,
          out_all_t_group-is_member p off gid (client_at p n).user_id v,
          noted,
          eq_iff (client_at p n).user_id (client_at p n).user_id,
        );
        is_offline = ground (arith, same.4);
      }

  -- The other clients keep their entries, their objects and their groups.
  pub record OthersStay (p : ℕ) (uid : String) (socket : ℕ) (n n' : Node E) : Type 0 where
    pub entries :
        (u : String) → u ≢ uid → lookup u n'.client_m.clients ≡ lookup u n.client_m.clients
    pub conns :
        (s : ℕ)
        → s ≢ socket
        → lookup s n'.client_m.conn_client_idx ≡ lookup s n.client_m.conn_client_idx
    pub members :
        (gid u : String) → u ≢ uid → is_member gid u n'.t_group_m ≡ is_member gid u n.t_group_m
    pub objects : (q : ℕ) → q ≢ p → client_at q n' ≡ client_at q n

  pub leave_node-OthersStay :
      (p : ℕ) (n : Node E)
      → Inv n.t_group_m
      → NotesGroups p n
      → OthersStay p (client_at p n).user_id (client_at p n).socket n (leave_node p n)
  unfolding leave_node
  leave_node-OthersStay p n v noted =
      let off : Node E = put_client p (record (client_at p n) { state = offline }) n in
      let left : Node E = out_all_t_group p off in
      let same = out_all-Same p off in
      record {
        entries = λ u h. ground (
          arith,
          same.0,
          same.2,
          lookup-erase (client_at p left).user_id u left.client_m.clients,
          eq_iff (client_at p left).user_id u,
        );
        conns = λ s h. ground (
          arith,
          same.1,
          same.3,
          lookup-erase (client_at p left).socket s left.client_m.conn_client_idx,
        );
        members = λ gid u h. ground (
          arith,
          out_all_t_group-is_member p off gid u v,
          noted,
          eq_iff (client_at p n).user_id u,
        );
        objects = λ q h. ground (arith, same.7 q h);
      }
