-- ===== src/Ws/Cluster/Publish.antt =====
-- service/ws/redis_proxy.go, proxy_msg_queue.go and tgroup.go: a group message, from the node that
-- publishes it to the clients of each node.
use gim.Base.{
  ℕ, suc, pos, ◌<◌, ◌≡◌, ◌≢◌, sym, ap, subst, ◌∙◌, String, Bool, false, none, some, [], ◌∷◌, ◌++◌,
  arith, nat_eq, string_eq, length, length-append,
}
use gim.Base.Dict.{lookup, NodupKeys}
use gim.Base.Chan.{send}
use gim.ImErr.{ok}
use gim.Types.Response.{ResponseData, new_response, msg_type_group}
use gim.Types.Message.{Bytes, GroupMsg, new_group_msg, get_res_data_group_msg}
use gim.Ws.External.{External}
use gim.Ws.Node.{Node, client_at}
use gim.Ws.TGroup.{normal, put, sending, send_chan, send_message_to_t_group, get_t_group}
use gim.Ws.LocalProxy.{send_msg_to_local_group, send_res_data_to_local_group, group_sent}
use gim.Ws.RedisProxy.{group_sub_msg}
use gim.Ws.Proxy.{redis_proxy}
use gim.Ws.Proxy.Agreement.{handle_sub_msg-published}
use gim.Ws.SubMsgs.{handle_sub_msg, node_of}
use gim.Ws.Client.Loop.{waits}
use gim.Ws.Broadcast.{listen_loop}
use gim.Ws.Broadcast.Listening.{wanted, with_all, IsListening, listen_loop-IsServed}

module _ {E : External} where
  -- The node with one message more in the channel of the group `p`.
  abbrev pub with_group_msg : ℕ → GroupMsg → Node E → Node E
  with_group_msg p m n =
      let t = n.t_group_m.heap p in
      record n {
        t_group_m =
            put p (record t { send = record (t.send) { buffer = t.send.buffer ++ m ∷ [] } })
              n.t_group_m;
      }

  -- A group of the node that takes one more message.
  pub record Takes (gid : String) (p : ℕ) (n : Node E) : Type 0 where
    pub entry : lookup gid n.t_group_m.t_groups ≡ some p
    pub alive : (n.t_group_m.heap p).state ≡ normal
    pub opened : (n.t_group_m.heap p).send.closed ≡ false
    pub room : length (n.t_group_m.heap p).send.buffer < (n.t_group_m.heap p).send.cap

  queued_locally :
      (gid : String) (p : ℕ) (m : GroupMsg) (n : Node E)
      → Takes gid p n
      → send_msg_to_local_group gid m n ≡ some (none, with_group_msg p m n)
  unfolding send_msg_to_local_group send_message_to_t_group send_chan group_sent get_t_group send
      sending
  queued_locally gid p m n t = ground (arith, t.entry, t.alive, t.opened, t.room)

  -- Response data for a group of the node is queued as one message, with status and all.
  pub send_res_data_to_local_group-queued :
      (gid : String) (p : ℕ) (r : ResponseData) (except_uid : String) (out : Bytes) (n : Node E)
      → Takes gid p n
      → E.marshal_response (new_response "" "" msg_type_group (some r)) ≡ ok out
      → send_res_data_to_local_group gid r except_uid n
        ≡ some (none, with_group_msg p (new_group_msg out except_uid) n)
  unfolding send_res_data_to_local_group get_res_data_group_msg
  send_res_data_to_local_group-queued gid p r except_uid out n t e =
      rw (e, send_res_data_to_local_group) (queued_locally gid p (new_group_msg out except_uid) n t)

  with_group_msg-group :
      (p : ℕ) (m : GroupMsg) (n : Node E)
      → (with_group_msg p m n).t_group_m.heap p ≡ record (n.t_group_m.heap p) {
        send = record ((n.t_group_m.heap p).send) {
          buffer = (n.t_group_m.heap p).send.buffer ++ m ∷ [];
        };
      }
  with_group_msg-group p m n = ground arith

  with_group_msg-IsListening :
      (p : ℕ) (u : String) (q : ℕ) (m : GroupMsg) (n : Node E)
      → IsListening p u q (suc (length (n.t_group_m.heap p).send.buffer)) n
      → IsListening p u q
          (length ((with_group_msg p m n).t_group_m.heap p).send.buffer)
          (with_group_msg p m n)
  with_group_msg-IsListening p u q m n l =
      let g = with_group_msg-group p m n in
      record {
        alive = ap (λ t. t.state) g ∙ l.alive;
        opened = ap (λ t. t.send.closed) g ∙ l.opened;
        nodup = subst (NodupKeys {V = Bool}) (sym (ap (λ t. t.users) g)) l.nodup;
        registered = l.registered;
        entry = l.entry;
        is_online = l.is_online;
        open_chan = l.open_chan;
        room = omega (
          arith,
          l.room,
          ap (λ t. length t.send.buffer) g,
          length-append (n.t_group_m.heap p).send.buffer (m ∷ []),
        );
      }

  -- The listener, once the message is queued.
  served_after :
      (p : ℕ) (u : String) (q : ℕ) (m : GroupMsg) (n : Node E)
      → IsListening p u q (suc (length (n.t_group_m.heap p).send.buffer)) n
      → (n2 : Node E) × (listen_loop
            (suc (suc (length (n.t_group_m.heap p).send.buffer)))
            p
            (with_group_msg p m n)
          ≡ some (waits, n2))
        × (client_at q n2
            ≡ with_all
                (client_at q n)
                (wanted u (n.t_group_m.heap p).users ((n.t_group_m.heap p).send.buffer ++ m ∷ [])))
  served_after p u q m n l =
      let g = with_group_msg-group p m n in
      let (n2, done, empty, c) =
        listen_loop-IsServed p u q (with_group_msg p m n)
          (with_group_msg-IsListening p u q m n l) in
      (
        n2,
        ap (λ k. listen_loop (suc k) p (with_group_msg p m n))
              (omega (
                arith,
                ap (λ t. length t.send.buffer) g,
                length-append (n.t_group_m.heap p).send.buffer (m ∷ []),
              ))
            ∙ done,
        c ∙ ap (λ t. with_all (client_at q n) (wanted u t.users t.send.buffer)) g,
      )

  -- A group message that one node publishes for a group with an id that is not empty, on a node
  -- that decodes it to what was published, whose response data it can encode, and whose group
  -- is not deleted and has room: it is queued for the group, and when the listener of the group
  -- comes to wait, the client of a registered user there, online and with room for all that the
  -- group has queued, has got what was queued for the user in order, this message last unless
  -- the user is excepted or not in the group.
  pub group_message-reaches :
      (gid : String) (r : ResponseData) (except_uid : String) (n n' : Node E) (bytes out : Bytes)
      (p : ℕ) (u : String) (q : ℕ)
      → gid ≢ ""
      → E.unmarshal_sub_msg bytes ≡ (group_sub_msg gid r except_uid n, none)
      → E.marshal_response (new_response "" "" msg_type_group (some (record r { s = pos 1 })))
        ≡ ok out
      → Takes gid p n'
      → IsListening p u q (suc (length (n'.t_group_m.heap p).send.buffer)) n'
      → let m = new_group_msg out except_uid in
        (n1 : Node E) × (n2 : Node E) × (handle_sub_msg (redis_proxy E) bytes n' ≡ some n1)
        × (listen_loop (suc (suc (length (n'.t_group_m.heap p).send.buffer))) p n1
            ≡ some (waits, n2))
        × (client_at q n2
            ≡ with_all (client_at q n') (
                wanted u (n'.t_group_m.heap p).users ((n'.t_group_m.heap p).send.buffer ++ m ∷ [])))
  group_message-reaches gid r except_uid n n' bytes out p u q named back written takes l =
      let m = new_group_msg out except_uid in
      let (n2, done, c) = served_after p u q m n' l in
      (
        with_group_msg p m n',
        n2,
        handle_sub_msg-published (redis_proxy E) gid r except_uid n n' bytes named back
            ∙ ap node_of (
                send_res_data_to_local_group-queued gid p (record r { s = pos 1 }) except_uid out n'
                  takes written),
        done,
        c,
      )
