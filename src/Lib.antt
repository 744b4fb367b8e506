-- ===== src/Lib.antt =====
-- gim: a library for websocket services, on one node or on a cluster of nodes.
--
-- The program and the files. Users connect to a node by websocket. A node keeps its clients, that
-- is connections, by user id and by connection, and temporary groups of users, each with a channel
-- of messages. Applications send to a user or to a group through a proxy, of which there are two:
-- the local one only knows its node, and that of a cluster finds another node's users by their
-- online records in redis, calls the other nodes by rpc, and publishes group messages on a redis
-- channel. Nodes find each other through etcd.
--
--   Base       Names shared by all files: Boolean tests, equality, maps as association lists
--              (Base/Dict), Go channels as a buffer with a capacity (Base/Chan), integers, lists.
--   ImErr      pkg/im_err/im_error.go: codes, `new_im_error`, and results with an error.
--   Types      pkg/types: responses (Types/Response), messages (Types/Message), what a node
--              reports (Types/Server).
--   Ws         service/ws. A node is the record `Node` (Ws/Node): configuration, ClientM, TGroupM,
--              the rpc clients, and the state of everything outside.
--     TGroup        tgroup.go and tgroup_manager.go. The invariant is in TGroup/Invariant, who is
--                   in which group in TGroup/Members, the join loop in TGroup/Joins, and the groups
--                   as a quotient, of which only the memberships are left, in TGroup/View.
--     Config        init_ws.go, the configuration, and the times that cache.go computes of it.
--     External      the websocket, redis, rpc, clock and json calls: parameters. What redis and
--                   json do is in External/Laws, as hypotheses.
--     Cache         cache.go: the online record of a user; what redis then holds is in
--                   Cache/Records, Handler/Online and Client/Record.
--     Client        client.go, and the registers of client_manager.go that a client enters and
--                   leaves. Its end is in Client/Leaving and Client/Lifecycle, its sends in
--                   Client/Sending, its answers in Client/Replying, the loop that writes in
--                   Client/Loop and Client/Writing, and how long a heartbeat lasts in Client/Lifetime.
--     ClientManager client_manager.go: finding, stopping, sending.
--     Broadcast     tgroup.go: SendToUsers and ListenSendChan, and its loop in Broadcast/Listening.
--     LocalProxy, RedisProxy, Proxy    local_proxy.go, redis_proxy.go, proxy.go. What both proxies
--                   have in common is in Proxy/Agreement.
--     SubMsgs       proxy_msg_queue.go: handleSubMsg.
--     SubQueue      proxy_msg_queue.go: the queue between redis and the workers, as a sequence of
--                   events; what is in it is in SubQueue/Contents, what each event does in
--                   SubQueue/OpenSteps and SubQueue/ShutSteps, and what a sequence does in
--                   SubQueue/Keeping.
--     Handler       handler_ws.go: OnPing, OnMessage, OnClose, HandlerUp, uniqueLogin. Logins are
--                   in Handler/Login, Handler/Stops and Handler/Free, two logins at once in
--                   Handler/Race, what redis then holds in Handler/Online and Handler/Forgets, and
--                   what OnMessage answers in Handler/Answers.
--     Cluster       What goes from one node to another: sends by rpc (Cluster/Remote), up to
--                   the queue of the client (Cluster/Arrival), joins and leaves by rpc
--                   (Cluster/Groups), and published group messages (Cluster/Publish).
--     Safety        The invariant of a node (Safety/Invariant), the lemma of each event, the
--                   sequences of events (Safety/Steps), OnMessage among them (Safety/Requests), and
--                   a node with an application (Safety/Hooks). In these sequences a login, a
--                   join, a leave and a close are one event each; a login in the middle of another
--                   is in Handler/Race, a close in the middle of a join in Safety/LateJoin, and a
--                   join in the middle of a leave in Safety/LateNote.
--   Api        service/api: the rpc clients and their calls (Api/Client), the handlers of the rpc
--              server (Api/Server).
--   Start      server.go with the start and the stop of each package: what a start leaves is in
--              Start/Stages, what a stop leaves in Start/Stopping. Start/Connections has the clients
--              of pkg/redis_client and pkg/etcd_client.
--   Etcd       pkg/etcd_registry: registration (Etcd/Register), discovery (Etcd/Discovery).
--   Sys        service/sys/sys.go: the system information of the nodes, with both ends of its rpc;
--              its sum is in Sys/Totals and Sys/Cluster. Sys/Page is service/http/home.go.
--   Helper     pkg/helper/server_helper.go: the address of the machine, and MapToStruct
--              (Helper/Fields).
--   Logs       pkg/logger/logger.go, pkg/im_err/err_log.go, and the start and the end of the logs in
--              server.go.
--   Examples   examples/local/server/main.go: the application of the example server, and the settings
--              that it starts with.
--   Tests      concrete inputs of the theorems.
--
-- How code and definitions correspond. A function keeps its name in snake case. A pointer to a
-- client or to a group is a number, and the manager holds the objects in `heap`, so that an
-- object that left its map is still there for whoever has the pointer. A method is a function
-- from the state to the state, with its result; what runs under one lock is one step. Where
-- another goroutine may come between two steps, its effect is an argument (`others` of
-- `user_join_t_group`, `working` and `asleep` of `retry`). A loop that a goroutine runs is given
-- by its round (`send_msg_round`, `listen_send_chan`), and `send_msg_loop` and `listen_loop`
-- repeat it. A panic is a value: of a send on a closed channel, of a second close, of a hook.
--
-- Fuel. `user_join_t_group` has one unit for each try; one is enough for a caller that nobody
-- disturbs, and otherwise one that covers a round in which nobody interferes. `send_msg_loop`
-- and `listen_loop` have one unit for each round, and need one more than there are queued
-- messages. `retry` has one unit for each try. The reader of the subscription is given by its
-- rounds (`read_sub_msg`), and `run` takes a list of events. Every other loop is recursion on a
-- list.
--
-- Bounds. Lengths, times and counters are natural numbers that do not wrap: no arithmetic of the
-- code comes near the width of its integers. The capacity of a channel is the configured one.
--
-- Not modelled: the generated rpc code, the libraries (gws, redis, etcd, kitex, the worker pool, zap,
-- reflect), the format of a log entry, the goroutine of the rpc server, the close of the etcd client
-- and the pause at the end of CloseServer, the main functions of the examples, and the JSON texts.
-- What redis, the JSON text of a record, the clocks of redis and of a connection, an rpc client, the
-- worker pool and the reports of other nodes do is stated by the records IsRedis, IsJson, IsTimed,
-- IsPeer, IsGroupPeer, IsPool and IsAnswering. Go's order over a map is not fixed; the model goes through the
-- entries in the order of the list.

pub mod Base
pub mod ImErr
pub mod Types
pub mod Ws
pub mod Api
pub mod Sys
pub mod Etcd
pub mod Helper
pub mod Start
pub mod Logs
pub mod Examples
pub mod Tests
