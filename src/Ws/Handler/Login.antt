-- ===== src/Ws/Handler/Login.antt =====
-- service/ws/handler_ws.go: what a login comes to.
use gim.Base.{
  Bool, suc, ap, ℕ, ◌≡◌, ◌≢◌, inl, inr, refl, String, false, Option, none, some, arith, ◌==◌,
  nat_eq, string_eq, Bool-cases,
}
use text.Mathlib.TextEquality.{eq_iff}
use gim.Base.Dict.{Dict, lookup, lookup-insert, lookup-insert_self}
use gim.ImErr.{Err, Result, ok, err}
use gim.Ws.External.{External, Opcode, UserOnline}
use gim.Ws.Node.{Node, ClientState, online, offline, client_at, put_client, with_ext}
use gim.Ws.Cache.{get_set_user_online_info, after_get_set, del_user_online_info}
use gim.Ws.Client.{
  close, close_in, new_client, init_start, on_connect, add_client, add_client_conn,
  set_conn_dead_line,
}
use gim.Ws.ClientManager.{get_client}
use gim.Ws.Handler.{
  handler_up, start_client, unique_login, login, decide, get_uid, new_user_online, close_conn,
  msg_code_of,
}
use gim.Ws.Proxy.{RunProxy}

module _ {E : External} where
  -- Of a client: its user, the groups that it notes, and whether `OnClose` ran and its channel is
  -- closed.
  unfoldable pub notes : Node E → ℕ → String × Dict String Bool × Bool × Bool
  notes n q = (
    (client_at q n).user_id,
    (client_at q n).t_group,
    (client_at q n).close_once,
    (client_at q n).send_chan.closed,
  )

  -- Nobody is entered in the registers, or removed from them, and no group and no note of a client
  -- changes.
  abbrev pub SameRegisters : Node E → Node E → Type 0
  SameRegisters n n' =
      (n'.client_m.clients ≡ n.client_m.clients)
      × (n'.client_m.conn_client_idx ≡ n.client_m.conn_client_idx)
      × (n'.client_m.next ≡ n.client_m.next)
      × (n'.t_group_m ≡ n.t_group_m)
      × (notes n' ≡ notes n)

  closed_notes :
      (p : ℕ) (n : Node E)
      → notes (put_client p (record (client_at p n) { state = offline }) n) ≡ notes n
  unfolding notes
  closed_notes p n = λ i q. at_each q i
    where
      at_each :
          (q : ℕ)
          → notes (put_client p (record (client_at p n) { state = offline }) n) q ≡ notes n q
      at_each q = ground arith

  close_in-SameRegisters : (s : ClientState) (p : ℕ) (n : Node E) → SameRegisters n (close_in s p n)
  unfolding close_in notes
  close_in-SameRegisters online p n = (refl, refl, refl, refl, closed_notes p n)
  close_in-SameRegisters offline p n = (refl, refl, refl, refl, refl)

  pub close-SameRegisters : (p : ℕ) (n : Node E) → SameRegisters n (close p n)
  unfolding close
  close-SameRegisters p n = close_in-SameRegisters (client_at p n).state p n

  -- The call that stops a user elsewhere leaves registers, groups and notes of this node alone.
  abbrev pub StopKeeps : RunProxy E → Type 0
  StopKeeps proxy = (u : UserOnline) (n : Node E) → SameRegisters n (proxy.stop_user_client u n)

  -- A new client stands in both registers, online, with the connection that asked; the entries of
  -- other users, the other clients and the groups are as before.
  pub record IsAdmitted (socket : ℕ) (uid : String) (opcode : Opcode) (n n' : Node E) : Type 0 where
    pub free : lookup uid n.client_m.clients ≡ none
    pub entry : lookup uid n'.client_m.clients ≡ some n.client_m.next
    pub conn : lookup socket n'.client_m.conn_client_idx ≡ some n.client_m.next
    pub is_online : (client_at n.client_m.next n').state ≡ online
    pub user : (client_at n.client_m.next n').user_id ≡ uid
    pub same_socket : (client_at n.client_m.next n').socket ≡ socket
    pub code : (client_at n.client_m.next n').msg_code ≡ opcode
    pub groups : n'.t_group_m ≡ n.t_group_m
    pub others : (q : ℕ) → q ≢ n.client_m.next → notes n' q ≡ notes n q
    pub register :
        (u : String) → u ≢ uid → lookup u n'.client_m.clients ≡ lookup u n.client_m.clients
    pub grown : n'.client_m.next ≡ suc n.client_m.next
    pub once : (client_at n.client_m.next n').close_once ≡ false
    pub opened : (client_at n.client_m.next n').send_chan.closed ≡ false

  pub data LoginDone (socket : ℕ) (uid : String) (opcode : Opcode) (n n' : Node E) : Type 0 where
    refused : SameRegisters n n' → LoginDone socket uid opcode n n'
    admitted : uid ≢ "" → IsAdmitted socket uid opcode n n' → LoginDone socket uid opcode n n'

  get_set-SameRegisters :
      (uid : String) (u : UserOnline) (n : Node E)
      → SameRegisters n (get_set_user_online_info uid u n).1
  unfolding get_set_user_online_info after_get_set notes
  get_set-SameRegisters uid u n = ground arith

  del-SameRegisters : (uid : String) (n : Node E) → SameRegisters n (del_user_online_info uid n).1
  unfolding del_user_online_info notes
  del-SameRegisters uid n = (refl, refl, refl, refl, refl)

  pub started-IsAdmitted :
      (socket : ℕ) (uid rand_uuid : String) (code : Opcode) (n m : Node E)
      → SameRegisters n m
      → lookup uid n.client_m.clients ≡ none
      → IsAdmitted socket uid code n (
          init_start
            (new_client socket uid rand_uuid code m).0
            (new_client socket uid rand_uuid code m).1)
  unfolding init_start new_client on_connect add_client add_client_conn set_conn_dead_line notes
  started-IsAdmitted socket uid rand_uuid code n m same h = record {
    free = h;
    entry = ground (arith, same.2, lookup-insert_self uid m.client_m.next m.client_m.clients);
    conn =
        ground
          (arith, same.2, lookup-insert_self socket m.client_m.next m.client_m.conn_client_idx);
    is_online = ground (arith, same.2);
    user = ground (arith, same.2);
    same_socket = ground (arith, same.2);
    code = ground (arith, same.2);
    groups = ground (arith, same.3);
    others = λ q h. ground (arith, same.2, ap (λ f. f q) same.4);
    register = λ u h.
        ground
          (arith, same.0, lookup-insert uid u m.client_m.next m.client_m.clients, eq_iff uid u);
    grown = ground (arith, same.2);
    once = ground (arith, same.2);
    opened = ground (arith, same.2);
  }

module _ {E : External} (proxy : RunProxy E) where
  abbrev start : String → ℕ → Opcode → Node E → Node E
  start uid socket opcode n = start_client proxy socket uid opcode (unique_login proxy uid socket n)

  start-taken :
      (uid : String) (socket : ℕ) (opcode : Opcode) (n : Node E) (p : ℕ)
      → lookup uid n.client_m.clients ≡ some p
      → start uid socket opcode n ≡ close_conn socket (close p n)
  unfolding start_client unique_login get_client
  start-taken uid socket opcode n p h = ground (arith, h)

  -- A login as a user with a client on this node closes both connections, and that is all.
  pub handler_up-closes :
      (socket : ℕ) (get_msg_code : String) (n : Node E) (p : ℕ)
      → get_uid socket n ≢ ""
      → lookup (get_uid socket n) n.client_m.clients ≡ some p
      → handler_up proxy socket get_msg_code n
        ≡ with_ext (E.close_conn socket (close p n).ext) (close p n)
  unfolding handler_up close_conn
  handler_up-closes socket get_msg_code n p named h = ground (
    arith,
    start-taken (get_uid socket n) socket (msg_code_of get_msg_code) n p h,
    eq_iff (get_uid socket n) "",
  )

module _ {E : External} (proxy : RunProxy E) (keeps : StopKeeps proxy) where
  decide-SameRegisters :
      (uid : String) (u : UserOnline) (r : (Option UserOnline × Option Err) × Node E) (n : Node E)
      → SameRegisters n r.1
      → SameRegisters n (decide proxy uid u r).1
  unfolding decide
  decide-SameRegisters uid u ((old, some e), m) n same = ground (arith, del-SameRegisters uid m)
  decide-SameRegisters uid u ((none, none), m) n same = same
  decide-SameRegisters uid u ((some old, none), m) n same =
      ground (arith, del-SameRegisters uid m, keeps old (del_user_online_info uid m).1)

  pub login-SameRegisters :
      (uid : String) (socket : ℕ) (n : Node E) → SameRegisters n (login proxy uid socket n).1
  unfolding login notes
  login-SameRegisters uid socket n =
      let (rand_uuid, s) = E.unique_id n.ext in
      let u = new_user_online uid rand_uuid (E.remote_addr socket s) n in
      let m : Node E = with_ext s n in
      decide-SameRegisters uid u (get_set_user_online_info uid u m) n
        (get_set-SameRegisters uid u m)

  start_client-LoginDone :
      (socket : ℕ) (uid : String) (opcode : Opcode) (r : Result UserOnline × Node E) (n : Node E)
      → uid ≢ ""
      → lookup uid n.client_m.clients ≡ none
      → SameRegisters n r.1
      → LoginDone socket uid opcode n (start_client proxy socket uid opcode r)
  unfolding start_client close_conn notes
  start_client-LoginDone socket uid opcode (err e, m) n named h same = refused same
  start_client-LoginDone socket uid opcode (ok u, m) n named h same =
      admitted named (started-IsAdmitted socket uid u.rand_uuid opcode n m same h)

  pub unique_login-free :
      (uid : String) (socket : ℕ) (n : Node E)
      → lookup uid n.client_m.clients ≡ none
      → unique_login proxy uid socket n ≡ login proxy uid socket n
  unfolding unique_login get_client
  unique_login-free uid socket n h = ground (arith, h)

  start-LoginDone :
      (uid : String) (socket : ℕ) (opcode : Opcode) (n : Node E) (found : Option ℕ)
      → lookup uid n.client_m.clients ≡ found
      → uid ≢ ""
      → LoginDone socket uid opcode n (start proxy uid socket opcode n)
  unfolding start_client unique_login get_client close_conn notes
  start-LoginDone uid socket opcode n (some p) h named =
      rw (start-taken proxy uid socket opcode n p h) (refused (close-SameRegisters p n))
  start-LoginDone uid socket opcode n none h named = rw (unique_login-free uid socket n h) (
      start_client-LoginDone socket uid opcode (login proxy uid socket n) n named h
        (login-SameRegisters uid socket n))

  -- With a proxy whose stop leaves the registers alone, a login changes no register, group or note,
  -- or it enters a new client under an id that is not empty and had no entry: see `IsAdmitted`.
  pub handler_up-LoginDone :
      (socket : ℕ) (get_msg_code : String) (n : Node E)
      → LoginDone socket
          (get_uid socket n)
          (msg_code_of get_msg_code)
          n
          (handler_up proxy socket get_msg_code n)
  unfolding handler_up close_conn notes
  handler_up-LoginDone socket get_msg_code n = elim (Bool-cases (get_uid socket n == "")) [
    | inl e ↦ rw e (refused (refl, refl, refl, refl, refl))
    | inr e ↦ rw e (
        start-LoginDone (get_uid socket n) socket (msg_code_of get_msg_code) n
          (lookup (get_uid socket n) n.client_m.clients) refl
          (ground (arith, e, eq_iff (get_uid socket n) "")))
  ]
