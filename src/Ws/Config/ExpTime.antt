-- ===== src/Ws/Config/ExpTime.antt =====
-- service/ws/cache.go: the time to live of an online record.
use gim.Base.{ℕ, ◌<◌, Option, none, some, arith}
use gim.Ws.Config.{WsConfig, positive, exp_time_of, get_user_online_exp_time}

exp_time_of_positive : (o : Option ℕ) → 0 < exp_time_of o
unfolding exp_time_of
exp_time_of_positive none = omega arith
exp_time_of_positive (some n) = omega arith

-- A record is never given the time 0, with which redis would remove it.
pub exp_time_positive : (c : WsConfig) → 0 < get_user_online_exp_time c
unfolding get_user_online_exp_time
exp_time_positive c = exp_time_of_positive (positive c.keep_time)
