-- ===== src/Ws/Safety/Sends.antt =====
-- service/ws/local_proxy.go and redis_proxy.go: no send to a user touches the registers, the groups
-- or the notes of the clients, whichever proxy sends.
use gim.Base.{
  arith, ℕ, ◌≡◌, refl, subst, sym, ap, inl, inr, String, Bool, true, false, Option, string_eq,
  nat_eq, Bool-cases, Option-cases, if◌then◌else◌,
}
use gim.Base.Dict.{lookup}
use gim.ImErr.{Err, Result, ok, err}
use gim.Types.Message.{Bytes}
use gim.Types.Response.{Response, ResponseData}
use gim.Ws.External.{External}
use gim.Ws.Node.{Node}
use gim.Ws.Client.{send_response_msg, send_marshalled, is_in_t_group}
use gim.Ws.ClientManager.{
  get_client, has_user, send_response_to_user, send_response_to_user_by_tgid, send_msg_to_user,
  send_msg_to_user_by_tgid,
}
use gim.Ws.LocalProxy as Local
use gim.Ws.RedisProxy as Redis
use gim.Ws.Proxy.{RunProxy, local_proxy, redis_proxy}
use gim.Ws.Proxy.Agreement.{SameHere, redis-local-AgreeOn, redis-SameHere}
use gim.Ws.Handler.Login.{SameRegisters, notes}
use gim.Ws.Safety.Queueing.{any_send-SameRegisters}

module _ {E : External} where
  same-SameRegisters : (n : Node E) → SameRegisters n n
  same-SameRegisters n = (refl, refl, refl, refl, refl)

  here-SameRegisters : (n n' : Node E) → SameHere n n' → SameRegisters n n'
  unfolding notes
  here-SameRegisters n n' same = (
    ap (λ m. m.clients) same.0,
    ap (λ m. m.conn_client_idx) same.0,
    ap (λ m. m.next) same.0,
    same.1,
    ap
        (λ m p. (
          (m.heap p).user_id,
          (m.heap p).t_group,
          (m.heap p).close_once,
          (m.heap p).send_chan.closed,
        ))
        same.0,
  )

  marshalled-SameRegisters :
      (r : Result Bytes) (k p : ℕ) (n : Node E) → SameRegisters n (send_marshalled r k p n).1
  unfolding send_marshalled
  marshalled-SameRegisters (err e) k p n = same-SameRegisters n
  marshalled-SameRegisters (ok bytes) k p n = any_send-SameRegisters bytes k p n

  response-SameRegisters :
      (uid : String) (response : Response) (n : Node E)
      → SameRegisters n (send_response_to_user uid response n).1
  unfolding send_response_to_user get_client send_response_msg
  response-SameRegisters uid response n = elim (Option-cases (lookup uid n.client_m.clients)) [
    | inl e ↦ rw (e, send_response_to_user) (same-SameRegisters n)
    | inr (p, e) ↦ rw (e, send_response_to_user) (marshalled-SameRegisters _ 2 p n)
  ]

  if-SameRegisters :
      (b : Bool) (x y : Option Err × Node E) (n : Node E)
      → SameRegisters n x.1
      → SameRegisters n y.1
      → SameRegisters n (if b then x else y).1
  if-SameRegisters true x y n h k = h
  if-SameRegisters false x y n h k = k

  response_by_tgid-SameRegisters :
      (uid tgid : String) (response : Response) (n : Node E)
      → SameRegisters n (send_response_to_user_by_tgid uid tgid response n).1
  unfolding send_response_to_user_by_tgid get_client send_response_msg
  response_by_tgid-SameRegisters uid tgid response n =
      elim (Option-cases (lookup uid n.client_m.clients)) [
        | inl e ↦ rw (e, send_response_to_user_by_tgid) (same-SameRegisters n)
        | inr (p, e) ↦
            rw (e, send_response_to_user_by_tgid)
              (if-SameRegisters (is_in_t_group p tgid n) _ _ n (marshalled-SameRegisters _ 2 p n)
                (same-SameRegisters n))
      ]

  msg-SameRegisters :
      (uid : String) (msg : Bytes) (n : Node E) → SameRegisters n (send_msg_to_user uid msg n).1
  unfolding send_msg_to_user get_client
  msg-SameRegisters uid msg n = elim (Option-cases (lookup uid n.client_m.clients)) [
    | inl e ↦ rw (e, send_msg_to_user) (same-SameRegisters n)
    | inr (p, e) ↦ rw (e, send_msg_to_user) (any_send-SameRegisters msg 2 p n)
  ]

  msg_by_tgid-SameRegisters :
      (uid tgid : String) (msg : Bytes) (n : Node E)
      → SameRegisters n (send_msg_to_user_by_tgid uid tgid msg n).1
  unfolding send_msg_to_user_by_tgid get_client
  msg_by_tgid-SameRegisters uid tgid msg n = elim (Option-cases (lookup uid n.client_m.clients)) [
    | inl e ↦ rw (e, send_msg_to_user_by_tgid) (same-SameRegisters n)
    | inr (p, e) ↦
        rw (e, send_msg_to_user_by_tgid)
          (if-SameRegisters (is_in_t_group p tgid n) _ _ n (any_send-SameRegisters msg 2 p n)
            (same-SameRegisters n))
  ]

  -- Each of the sends to a user.
  pub record SendsSpare (proxy : RunProxy E) (uid tgid : String) (msg : Bytes) (r : ResponseData)
      (n : Node E) : Type 0 where
    pub to_user : SameRegisters n (proxy.send_msg_to_user uid msg n).1
    pub by_tgid : SameRegisters n (proxy.send_msg_to_user_by_tgid uid tgid msg n).1
    pub data_to_user : SameRegisters n (proxy.send_res_data_to_user uid r n).1
    pub data_by_tgid : SameRegisters n (proxy.send_res_data_to_user_by_tgid uid tgid r n).1

  pub local_proxy-SendsSpare :
      (uid tgid : String) (msg : Bytes) (r : ResponseData) (n : Node E)
      → SendsSpare (local_proxy E) uid tgid msg r n
  unfolding Local.send_msg_to_local_user Local.send_msg_to_local_user_by_tgid
      Local.send_res_data_to_local_user Local.send_res_data_to_local_user_by_tgid
  local_proxy-SendsSpare uid tgid msg r n = record {
    to_user = msg-SameRegisters uid msg n;
    by_tgid = msg_by_tgid-SameRegisters uid tgid msg n;
    data_to_user = response-SameRegisters uid _ n;
    data_by_tgid = response_by_tgid-SameRegisters uid tgid _ n;
  }

  spared :
      (n : Node E) {a b : Option Err × Node E} → a ≡ b → SameRegisters n b.1 → SameRegisters n a.1
  spared n same h = subst (λ r. SameRegisters n r.1) (sym same) h

  pub redis_proxy-SendsSpare :
      (uid tgid : String) (msg : Bytes) (r : ResponseData) (n : Node E)
      → SendsSpare (redis_proxy E) uid tgid msg r n
  redis_proxy-SendsSpare uid tgid msg r n = elim (Bool-cases (has_user uid n)) [
    | inl e ↦
        let same = redis-local-AgreeOn uid n e in
        let done = local_proxy-SendsSpare uid tgid msg r n in
        record {
          to_user = spared n (same.msg_to_user msg) done.to_user;
          by_tgid = spared n (same.msg_by_tgid tgid msg) done.by_tgid;
          data_to_user = spared n (same.data_to_user r) done.data_to_user;
          data_by_tgid = spared n (same.data_by_tgid tgid r) done.data_by_tgid;
        }
    | inr e ↦
        let away = redis-SameHere uid tgid msg r n e in
        record {
          to_user = here-SameRegisters n _ away.0;
          by_tgid = here-SameRegisters n _ away.1;
          data_to_user = here-SameRegisters n _ away.2;
          data_by_tgid = here-SameRegisters n _ away.3;
        }
  ]

  -- A group message is only published.
  pub published-SameRegisters :
      (gid : String) (r : ResponseData) (except_uid : String) (n : Node E)
      → SameRegisters n (Redis.send_res_data_to_group gid r except_uid n).1
  unfolding Redis.send_res_data_to_group Redis.publish_global_msg notes
  published-SameRegisters gid r except_uid n = ground arith
