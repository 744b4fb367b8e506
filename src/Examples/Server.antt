-- ===== src/Examples/Server.antt =====
-- examples/local/server/main.go: the application of the example, on a node of a cluster.
use gim.Base.{
  ℕ, ◌≡◌, ◌∙◌, ap, String, ◌&&◌, ◌||◌, Option, none, some, [], ◌==◌, arith, nat_eq, string_eq,
}
use text.Mathlib.TextEquality.{eq_iff}
use gim.Base.Dict.{lookup}
use gim.Types.Response.{
  text as said, AData, ResponseData, Request, new_response_data, handle_a_data,
}
use gim.Ws.External.{External}
use gim.Ws.Node.{Node}
use gim.Ws.TGroup.Members.{is_member}
use gim.Ws.Client.{in_t_group}
use gim.Ws.ClientManager.{get_client_by_conn}
use gim.Ws.Proxy.{RunProxy}
use gim.Ws.RedisProxy as Redis
use gim.Ws.Handler.{Handled, answer}
use gim.Ws.Safety.Groups.{in_t_group-NodeInv}
use gim.Ws.Safety.Invariant.{NodeInv}
use gim.Ws.Safety.Requests.{KeepsTo}
use gim.Ws.Safety.Sends.{redis_proxy-SendsSpare, published-SameRegisters}
use gim.Ws.Safety.Steps.{here, then_one, spares}

-- What the application answers to every request.
unfoldable pub greeting : AData
unfolding handle_a_data
greeting = handle_a_data (said "tttt") "mol" "ctrl"

abbrev greeting_data : ResponseData
greeting_data = new_response_data (some greeting) []

module _ {E : External} where
  enter : ℕ → String → Option (Node E) → Option (Node E)
  enter p gid none = none
  enter p gid (some n) = in_t_group p gid n

  -- `Handler.OnOpen`; `none` would be a join that never ends.
  unfoldable pub on_open : ℕ → Node E → Option (Node E)
  unfolding enter get_client_by_conn
  on_open socket n = elim (get_client_by_conn socket n) [
    | none ↦ some n
    | some p ↦ enter p "ccc1" (in_t_group p "ccc" n)
  ]

  -- The configuration of the example chooses the proxy of a cluster.
  unfoldable pub handle_request_msg : ℕ → Request → Node E → Handled E
  handle_request_msg client request n =
      let a = Redis.send_res_data_to_user_by_tgid "123" "ccc" greeting_data n in
      let b = Redis.send_res_data_to_user "123" greeting_data a.1 in
      let c = Redis.send_res_data_to_group "ccc" greeting_data "" b.1 in answer (some greeting) c.1

  -- The application's sends are events of the node.
  pub handle_request_msg-KeepsTo : (proxy : RunProxy E) → KeepsTo proxy (some handle_request_msg)
  unfolding handle_request_msg
  handle_request_msg-KeepsTo proxy p request n =
      let a = Redis.send_res_data_to_user_by_tgid "123" "ccc" greeting_data n in
      let b = Redis.send_res_data_to_user "123" greeting_data a.1 in
      then_one
        (then_one
          (then_one here
            (spares _ (redis_proxy-SendsSpare "123" "ccc" [] greeting_data n).data_by_tgid))
          (spares _ (redis_proxy-SendsSpare "123" "ccc" [] greeting_data a.1).data_to_user))
        (spares _ (published-SameRegisters "ccc" greeting_data "" b.1))

  -- From a node that holds the invariant, OnOpen of a connection whose client is the registered
  -- one of its user returns, the user is then in both groups and in no other that it was not in
  -- before, nobody else's groups change, and the invariant holds.
  pub on_open-NodeInv :
      (uid : String) (socket p : ℕ) (n : Node E)
      → NodeInv n
      → lookup socket n.client_m.conn_client_idx ≡ some p
      → lookup uid n.client_m.clients ≡ some p
      → (n' : Node E) × (on_open socket n ≡ some n')
        × NodeInv n'
        × ((j u : String)
            → is_member j u n'.t_group_m
              ≡ ((j == "ccc" || j == "ccc1") && u == uid) || is_member j u n.t_group_m)
  unfolding on_open enter get_client_by_conn
  on_open-NodeInv uid socket p n v conn e =
      let (m, first, w, kept, members) = in_t_group-NodeInv p "ccc" uid n v e in
      let (n', second, x, _, all) =
        in_t_group-NodeInv p "ccc1" uid m w (ap (lookup uid) kept ∙ e) in
      (
        n',
        rw (conn, on_open) (ap (enter p "ccc1") first ∙ second),
        x,
        λ j u. ground (
          arith,
          members j u,
          all j u,
          eq_iff "ccc" j,
          eq_iff j "ccc",
          eq_iff "ccc1" j,
          eq_iff j "ccc1",
          eq_iff u uid,
          eq_iff uid u,
        ),
      )
