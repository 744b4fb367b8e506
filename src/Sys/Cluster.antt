-- ===== src/Sys/Cluster.antt =====
-- service/sys/sys.go with both ends of `GetSysInfo`: the sum over the nodes of a cluster.
use gim.Base.{ℕ, ◌≡◌, ◌≢◌, refl, ap, ◌∙◌, String, none, some, List, [], ◌∷◌, arith}
use gim.Base.Dict.{Dict}
use gim.ImErr.{ok}
use gim.Types.Message.{Bytes}
use gim.Types.Server.{SysInfo, SycCollectInfo, new_sys_info, new_syc_collect_info}
use gim.Ws.Config.{redis}
use gim.Ws.External.{External}
use gim.Ws.Node.{Node, RpcClient}
use gim.Sys.{
  Machine, rpc_sys_info, collect_sys_infos, get_all_sys_info, some_infos, get_all_node_sys_info,
  all_of_mode, get_sys_collect_info,
}
use gim.Sys.Totals.{Totals, AllManaged, add_nodes-Totals}

-- Each rpc client answers with the JSON text of a report, which is read back as it was.
pub record IsAnswering (M : Machine) : Type 0 where
  pub report : ℕ → SysInfo M.Percent
  pub text_of : ℕ → Bytes
  pub marshals : (cli : ℕ) → M.marshal_sys_info (report cli) ≡ ok (text_of cli)
  pub unmarshals : (cli : ℕ) → M.unmarshal_sys_info (text_of cli) ≡ (report cli, none)
  pub answers : (cli : ℕ) → M.rpc_get_sys_info cli ≡ M.marshal_sys_info (report cli)
  pub managed : (cli : ℕ) → (report cli).manager_info ≢ none

module _ {M : Machine} (a : IsAnswering M) where
  -- The reports of the registered clients.
  abbrev pub reports : Dict String RpcClient → List (SysInfo M.Percent)
  reports [] = []
  reports ((key, c) ∷ rest) = a.report c.cli ∷ reports rest

  report_read : (cli : ℕ) → rpc_sys_info M cli ≡ ok (a.report cli)
  unfolding rpc_sys_info
  report_read cli = ground (arith, a.answers cli, a.marshals cli, a.unmarshals cli)

  collected : (clients : Dict String RpcClient) → collect_sys_infos M clients ≡ reports clients
  unfolding collect_sys_infos
  collected [] = refl
  collected ((key, c) ∷ rest) = ground (arith, report_read c.cli, collected rest)

  reports-AllManaged : (clients : Dict String RpcClient) → AllManaged (reports clients)
  reports-AllManaged [] = tt
  reports-AllManaged ((key, c) ∷ rest) = (a.managed c.cli, reports-AllManaged rest)

  all_read :
      (clients : Dict String RpcClient)
      → clients ≢ []
      → get_all_sys_info M clients ≡ ok (reports clients)
  unfolding get_all_sys_info some_infos
  all_read [] h = absurd (h refl)
  all_read (c ∷ rest) h = ap (some_infos M) (collected (c ∷ rest))

  -- The sum before the first report.
  abbrev pub start_of : List (SysInfo M.Percent) → SycCollectInfo M.Percent
  start_of infos = record (new_syc_collect_info M.Percent M.zero_percent) { node_list = infos }

  module _ {E : External} where
    read_by :
        (n : Node E)
        → n.config.run_mode ≡ redis
        → n.rpc_clients.clients ≢ []
        → get_all_node_sys_info M n ≡ ok (reports n.rpc_clients.clients)
    unfolding get_all_node_sys_info all_of_mode
    read_by n mode some_of =
        ap (λ m. all_of_mode M m n) mode ∙ all_read n.rpc_clients.clients some_of

    -- In a cluster with an rpc client at least, where every client answers with a report that has
    -- manager information and is read back as it was written, the collection succeeds, and adds up
    -- nodes, processors, goroutines, clients and groups of exactly those reports.
    pub get_sys_collect_info-Totals :
        (n : Node E)
        → n.config.run_mode ≡ redis
        → n.rpc_clients.clients ≢ []
        → (c' : SycCollectInfo M.Percent) × (get_sys_collect_info M n ≡ some c')
          × Totals (start_of (reports n.rpc_clients.clients)) c' (reports n.rpc_clients.clients)
    unfolding get_sys_collect_info new_syc_collect_info new_sys_info
    get_sys_collect_info-Totals n mode some_of =
        let infos = reports n.rpc_clients.clients in
        let (c', done, totals) =
          add_nodes-Totals infos (start_of infos) (reports-AllManaged n.rpc_clients.clients)
            (λ e. cc) in
        (c', rw (read_by n mode some_of, get_sys_collect_info) done, totals)
