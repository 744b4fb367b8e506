-- ===== src/Ws/Client/Record.antt =====
-- service/ws/client.go: `OnClose` and the online record of its user.
use gim.Base.{
  ℕ, ◌≡◌, refl, ap, subst, ◌∙◌, String, false, none, List, [], ◌∷◌, arith, nat_eq, string_eq,
}
use gim.Base.Dict.{keys}
use gim.Ws.External.{External}
use gim.Ws.External.Laws.{IsRedis}
use gim.Ws.Node.{Node, offline, client_at, put_client}
use gim.Ws.Cache.{get_user_online_key}
use gim.Ws.Cache.Records.{record_of-del}
use gim.Ws.Client.{
  out_t_group, out_groups, out_all_t_group, leave_node, on_close, del_client, del_client_conn,
}
use gim.Ws.Client.Lifecycle.{on_close_lem, entered}

module _ {E : External} (r : IsRedis E) where
  -- The user of a client and the configuration, which leaving groups does not touch.
  out_groups-user :
      (gs : List String) (p : ℕ) (n : Node E)
      → ((client_at p (out_groups gs p n)).user_id ≡ (client_at p n).user_id)
        × ((out_groups gs p n).config ≡ n.config)
  unfolding out_groups out_t_group
  out_groups-user [] p n = (refl, refl)
  out_groups-user (g ∷ gs) p n = ground (arith, out_groups-user gs p (out_t_group p g n))

  leave_node-record :
      (p : ℕ) (n : Node E)
      → r.holds (leave_node p n).ext (get_user_online_key (client_at p n).user_id n) ≡ none
  unfolding leave_node out_all_t_group get_user_online_key
  leave_node-record p n =
      let off : Node E = put_client p (record (client_at p n) { state = offline }) n in
      let left : Node E = out_all_t_group p off in
      let same = out_groups-user (keys (client_at p off).t_group) p off in
      let uid = (client_at p left).user_id in
      let gone : Node E = record left {
        client_m = del_client_conn p (del_client uid left.client_m);
      } in
      subst (λ key. r.holds (leave_node p n).ext key ≡ none) (ground (arith, same.0, same.1))
        (record_of-del r uid gone)

  same_user : (p : ℕ) (n : Node E) → (client_at p n).user_id ≡ (client_at p (entered p n)).user_id
  same_user p n = ground arith

  -- While redis answers as IsRedis says, OnClose without a hook, for a client that is not
  -- closed yet and whose channel is open, leaves no record of its user in redis, whichever
  -- login wrote the record.
  pub on_close-record :
      (p : ℕ) (n : Node E)
      → (client_at p n).close_once ≡ false
      → (client_at p n).send_chan.closed ≡ false
      → r.holds (on_close none p n).1.ext (get_user_online_key (client_at p n).user_id n) ≡ none
  unfolding get_user_online_key
  on_close-record p n once open' = rw (on_close_lem p n once open') (
      ap (λ u. r.holds (leave_node p (entered p n)).ext (get_user_online_key u n)) (same_user p n)
      ∙ leave_node-record p (entered p n))
