-- ===== src/Ws/Config.antt =====
-- service/ws/init_ws.go: the configuration of a node. The library objects that it holds (handler,
-- option, redis and etcd clients) are parameters elsewhere.
pub mod Capacity
pub mod ExpTime
use gim.Base.{ℕ, zero, suc, ◌+◌, ℤ, pos, negsuc, String, Option, none, some}

-- `RunMode`: 0 is `local`, 1 is `redis`, and `other_mode` is a value above, which has no name.
pub data RunMode : Type 0 where
  local redis : RunMode
  other_mode : ℕ → RunMode

pub record WsConfig : Type 0 where
  pub run_mode : RunMode
  pub redis_prefix : String
  pub rpc_port : String
  pub ws_port : String
  pub keep_time : ℤ
  pub client_msg_chan_max : ℤ
  pub group_msg_chan_max : ℤ
  pub version : String

abbrev pub default_msg_chan_max : ℕ
default_msg_chan_max = 500

-- `n` where `i > 0`.
abbrev pub positive : ℤ → Option ℕ
positive (pos zero) = none
positive (pos (suc n)) = some (suc n)
positive (negsuc n) = none

abbrev with_default : ℤ → Option ℕ → ℤ
with_default i none = pos default_msg_chan_max
with_default i (some _) = i

-- The part of `InitWs` that completes the configuration.
unfoldable pub init_config : WsConfig → WsConfig
init_config c = record c {
  client_msg_chan_max = with_default c.client_msg_chan_max (positive c.client_msg_chan_max);
  group_msg_chan_max = with_default c.group_msg_chan_max (positive c.group_msg_chan_max);
}

abbrev or_zero : Option ℕ → ℕ
or_zero none = 0
or_zero (some n) = n

-- The capacity that `make` is given; `InitWs` has made it positive.
abbrev pub capacity : ℤ → ℕ
capacity i = or_zero (positive i)

-- `connKeepTime` in seconds; 0 is no deadline.
abbrev pub conn_keep_time : WsConfig → ℕ
conn_keep_time c = or_zero (positive c.keep_time)

abbrev pub user_online_cache_time : ℕ
user_online_cache_time = 10

unfoldable exp_time_of : Option ℕ → ℕ
exp_time_of none = 3600
exp_time_of (some n) = n + user_online_cache_time

unfoldable pub get_user_online_exp_time : WsConfig → ℕ
unfolding exp_time_of
get_user_online_exp_time c = exp_time_of (positive c.keep_time)
