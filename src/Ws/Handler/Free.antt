-- ===== src/Ws/Handler/Free.antt =====
-- service/ws/handler_ws.go: a login that nothing refuses.
use gim.Base.{ℕ, ◌≡◌, ap, ◌∙◌, String, none, string_eq}
use gim.Base.Dict.{lookup}
use gim.ImErr.{ok}
use gim.Ws.Cache.{get_user_online_key}
use gim.Ws.Cache.Records.{record_of, old_of, exchanged, get_set_lem}
use gim.Ws.External.{External, UserOnline}
use gim.Ws.External.Laws.{IsRedis, IsJson}
use gim.Ws.Handler.{unique_login, login, decide, new_user_online}
use gim.Ws.Handler.Login.{StopKeeps, unique_login-free}
use gim.Ws.Node.{Node, with_ext}
use gim.Ws.Proxy.{RunProxy}

module _ {E : External} (r : IsRedis E) (json : IsJson E) (proxy : RunProxy E)
    (keeps : StopKeeps proxy) where
  -- A user with neither a client on the node nor a record in redis is admitted.
  pub unique_login-unrecorded :
      (uid : String) (socket : ℕ) (n : Node E)
      → lookup uid n.client_m.clients ≡ none
      → record_of r uid n ≡ none
      → (u : UserOnline) × ((unique_login proxy uid socket n).0 ≡ ok u)
  unfolding login new_user_online get_user_online_key decide
  unique_login-unrecorded uid socket n free gone =
      let (rand_uuid, s) = E.unique_id n.ext in
      let u = new_user_online uid rand_uuid (E.remote_addr socket s) n in
      let m : Node E = with_ext s n in
      (
        u,
        ap (λ x. x.0) (unique_login-free proxy keeps uid socket n free)
            ∙ rw (get_set_lem r json uid u m) (
                ap (λ o. (decide proxy uid u (old_of r o, with_ext (exchanged r json uid u m) m)).0)
                  (r.unique_id_holds n.ext (get_user_online_key uid n) ∙ gone)),
      )
