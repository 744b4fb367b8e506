-- ===== src/Examples/Settings.antt =====
-- examples/local/server/main.go: what the example server is started with.
use gim.Base.{String, pos, true, false, Option, none, some, ◌==◌, string_eq, if◌then◌else◌}
use gim.Logs.{LogConfig}
use gim.Start.{StartConfig}
use gim.Ws.Config.{redis}

abbrev pub log_config : LogConfig
log_config = record {
  level = "debug";
  file_name = "gim.log";
  file_path = "./examples/local/server/logs/";
  max_size = 100;
  max_age = 10;
  max_backups = 10;
  compress = false;
}

-- `Authorize` of the upgrade: the user id of the query, which the session then holds; none refuses.
unfoldable pub authorize : String → Option String
authorize uid_str = if uid_str == "" then none else some uid_str

-- What is not set is empty or zero.
abbrev pub ws_conf : StartConfig
ws_conf = record {
  ws = record {
    run_mode = redis;
    redis_prefix = "test";
    rpc_port = "8091";
    ws_port = "8080";
    keep_time = pos 3000;
    client_msg_chan_max = pos 1000;
    group_msg_chan_max = pos 0;
    version = "";
  };
  has_option = true;
  has_redis_client = true;
  has_etcd_client = true;
}
