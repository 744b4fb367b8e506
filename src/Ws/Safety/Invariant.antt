-- ===== src/Ws/Safety/Invariant.antt =====
-- The invariant of a node: registers, clients and groups agree with each other.
use gim.Base.{
  ℕ, ◌<◌, ◌≡◌, inl, inr, ap, sym, subst, ◌∙◌, String, true, false, some, arith, nat_eq, string_eq,
  Eq-cases,
}
use gim.Base.Dict.{lookup, has, lookup-nil}
use gim.Ws.External.{External, Opcode}
use gim.Ws.Config.{WsConfig}
use gim.Ws.Node.{Node, RpcClients, client_at, new_client_manager}
use gim.Ws.TGroup.{new_t_group_manager}
use gim.Ws.TGroup.Invariant.{Inv, new_t_group_manager-Inv}
use gim.Ws.TGroup.Members.{is_member, HasUsers, is_member-new}
use gim.Ws.Handler.{get_uid, handler_up, msg_code_of}
use gim.Ws.Handler.Login.{
  SameRegisters, notes, LoginDone, refused, admitted, IsAdmitted, StopKeeps, handler_up-LoginDone,
}
use gim.Ws.Proxy.{RunProxy}

module _ {E : External} where
  -- The groups are sound and have users; an entry leads to a client that was made for the user;
  -- whoever is in a group has an entry, and the client notes the group.
  pub record NodeInv (n : Node E) : Type 0 where
    pub groups : Inv n.t_group_m
    pub used : HasUsers n.t_group_m
    pub entries :
        (uid : String) (p : ℕ)
        → lookup uid n.client_m.clients ≡ some p
        → (p < n.client_m.next)
          × ((client_at p n).user_id ≡ uid)
          × ((client_at p n).close_once ≡ false)
          × ((client_at p n).send_chan.closed ≡ false)
    pub noted :
        (gid uid : String)
        → is_member gid uid n.t_group_m ≡ true
        → (p : ℕ) × (lookup uid n.client_m.clients ≡ some p)
          × (has gid (client_at p n).t_group ≡ true)

  -- The node as it starts.
  abbrev pub new_node : WsConfig → String → RpcClients → E.State → Node E
  new_node config server_ip rpc_clients ext = record {
    config = config;
    server_ip = server_ip;
    client_m = new_client_manager;
    t_group_m = new_t_group_manager;
    rpc_clients = rpc_clients;
    ext = ext;
  }

  pub new_node-NodeInv :
      (config : WsConfig) (server_ip : String) (rpc_clients : RpcClients) (ext : E.State)
      → NodeInv (new_node config server_ip rpc_clients ext)
  unfolding new_client_manager new_t_group_manager
  new_node-NodeInv config server_ip rpc_clients ext = record {
    groups = new_t_group_manager-Inv;
    used = λ gid q e empty. ground (arith, lookup-nil {V = ℕ} gid);
    entries = λ uid p h. ground (arith, lookup-nil {V = ℕ} uid);
    noted = λ gid uid h. ground (arith, is_member-new gid uid);
  }

  -- What changes no register, no group and no note keeps the invariant.
  pub SameRegisters-NodeInv : (n n' : Node E) → SameRegisters n n' → NodeInv n → NodeInv n'
  unfolding notes
  SameRegisters-NodeInv n n' same v = record {
    groups = subst Inv (sym same.3) v.groups;
    used = subst HasUsers (sym same.3) v.used;
    entries = λ uid p h. ground (
      arith,
      v.entries uid p,
      same.0,
      same.2,
      ap (λ f. (f p).0) same.4,
      ap (λ f. (f p).2) same.4,
      ap (λ f. (f p).3) same.4,
    );
    noted = λ gid uid h.
        let (p, e, m) = v.noted gid uid (ap (is_member gid uid) (sym same.3) ∙ h) in
        (p, ap (lookup uid) same.0 ∙ e, ap (λ f. has gid (f p).1) same.4 ∙ m);
  }

  -- The invariant is one of the clients and the groups.
  pub same-NodeInv :
      (n n' : Node E)
      → n'.client_m ≡ n.client_m
      → n'.t_group_m ≡ n.t_group_m
      → NodeInv n
      → NodeInv n'
  unfolding notes
  same-NodeInv n n' c g = SameRegisters-NodeInv n n' (
    ap (λ m. m.clients) c,
    ap (λ m. m.conn_client_idx) c,
    ap (λ m. m.next) c,
    g,
    ap
        (λ m p. (
          (m.heap p).user_id,
          (m.heap p).t_group,
          (m.heap p).close_once,
          (m.heap p).send_chan.closed,
        ))
        c,
  )

  admitted-NodeInv :
      (socket : ℕ) (uid : String) (opcode : Opcode) (n n' : Node E)
      → IsAdmitted socket uid opcode n n'
      → NodeInv n
      → NodeInv n'
  unfolding notes
  admitted-NodeInv socket uid opcode n n' a v = record {
    groups = subst Inv (sym a.groups) v.groups;
    used = subst HasUsers (sym a.groups) v.used;
    entries = λ u p h. elim (Eq-cases u uid) [
      | inl (_, same) ↦ ground (arith, a.entry, a.user, a.grown, a.once, a.opened, same)
      | inr (_, differs) ↦
          let old = v.entries u p (sym (a.register u differs) ∙ h) in
          let kept = a.others p (λ same. omega arith) in
          ground (arith, old, a.grown, ap (λ x. x.0) kept, ap (λ x. x.2) kept, ap (λ x. x.3) kept)
    ];
    noted = λ gid u h.
        let (p, e, m) = v.noted gid u (ap (is_member gid u) (sym a.groups) ∙ h) in
        let old = v.entries u p e in
        (
          p,
          a.register u (λ same. ground (arith, a.free, e, same)) ∙ e,
          ap (λ x. has gid x.1) (a.others p (λ same. omega arith)) ∙ m,
        );
  }

module _ {E : External} (proxy : RunProxy E) (keeps : StopKeeps proxy) where
  done-NodeInv :
      (socket : ℕ) (uid : String) (opcode : Opcode) (n n' : Node E)
      → LoginDone socket uid opcode n n'
      → NodeInv n
      → NodeInv n'
  done-NodeInv socket uid opcode n n' (refused same) v = SameRegisters-NodeInv n n' same v
  done-NodeInv socket uid opcode n n' (admitted named a) v =
      admitted-NodeInv socket uid opcode n n' a v

  -- A login keeps the invariant, with a proxy whose stop leaves the registers alone.
  pub handler_up-NodeInv :
      (socket : ℕ) (get_msg_code : String) (n : Node E)
      → NodeInv n
      → NodeInv (handler_up proxy socket get_msg_code n)
  handler_up-NodeInv socket get_msg_code n v =
      done-NodeInv socket (get_uid socket n) (msg_code_of get_msg_code) n _
        (handler_up-LoginDone proxy keeps socket get_msg_code n) v
