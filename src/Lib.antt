-- ===== src/Lib.antt =====
-- tulpje, a Discord bot: its components as definitions, and the theorems about them.
--
-- The program. The gateway process holds the shards of the bot. Each shard has a manager, which
-- reads Discord's messages, hands the events that the reporter wants to the reporter and
-- forwards dispatched events to a message queue, and a reporter, which counts guilds and writes
-- the shard's state to redis. The queue is reached by a connection that reconnects on its own.
-- The handler process reads the queue, keeps a cache of Discord's objects in redis and runs the
-- modules' commands, of which the PluralKit module keeps a role for each member of a system.
--
-- Amqp (crates/reconnecting-amqp/src). Amqp/Types has CloseReason, Event, the states of
-- connection.rs and AmqpSharedData as Shared, with a log of what the connection did, the oldest
-- last. Amqp/Connection has one function per State::run (run_disconnected to
-- run_closed_connection), each on the answers that the broker gives in that turn (Replies); the
-- select of Connected::run is a list of picks. Amqp/Machine is State::run and
-- AmqpConnection::run as run_turns, which takes one turn per Replies: what is proved of every
-- list of turns holds at each point of an endless run, and no fuel runs out. A message whose
-- publish fails is out of the queue and logged as lost; the text of a reason that panics is
-- none. Amqp/Handle is AmqpHandle of lib.rs, with the oneshot channel of the start. The other
-- files prove: Safety and Loop the states that can be reached, Delivery the send queue,
-- Resources the open channels and connections, Start and WaitStart the report of the start,
-- Steady and Stopping what ends the machine.
--
-- Gateway (crates/tulpje-gateway/src). Gateway/Events and ParsedEvent are parsed_event.rs over
-- a Decoder, which stands for twilight and serde. Gateway/ShardState is shard_state.rs of
-- crates/tulpje-common, Reporter is shard_reporter.rs with its handlers and its loop, Manager
-- is shard_manager.rs. Guilds and Saves are about the reporter, Forwarding about the manager.
-- The answers of redis and of the queue come with each event.
--
-- Cache (crates/tulpje-cache/src). Cache/Redis has the commands of redis as a parameter and
-- what redis documents of them (Documented). Repository and SetRepository are repository.rs.
-- Reactions and Messages are the state changes of event/reaction.rs and event/message.rs, for
-- one message and for one channel; an event of messages carries its commands out one after the
-- other, on the answers of redis, and the first that fails ends it. Members is MemberRemove of
-- event/member.rs with the names of lib.rs. Lookup, MemberRemove, Counting, ReactionEvents and
-- MessageList prove their theorems. Hashes are a parameter: DefaultHasher is not spelled out.
--
-- Framework (crates/tulpje-framework/src). Framework/Color is color.rs, ColorText its printing
-- and parsing. Framework/Registry is module/registry.rs, Registered what is found in it.
-- Framework/Scheduler is scheduler.rs over async_cron_scheduler, Tasks what runs. The printing
-- has at most eight digits, which 32 bits need.
--
-- Pluralkit (crates/tulpje-mod-pluralkit/src). Pluralkit/Util is util.rs, ShortId its short
-- identifiers. Pluralkit/Roles is the folder roles: Stats is update_stats.rs and the message of
-- prompts.rs, Messages the limits and texts, Ops the maps and get_role_ops, Run the loops of
-- handle over the operations and the assignments, Handle the command from its first call to its
-- last. The sets of names are walked in an order that the hash map chooses, so the order is an
-- argument, of which Enumerates is asked. Discord is RoleApi, with the documented effects in
-- Discord. Step, Converge, RoleMaps, Update, Outcome, Ends and Command prove what the command
-- does, Settled what a second run finds, Totals and Assign what is counted, Assigned that each
-- missing role is given. Numbers are written with a fuel of twenty digits, which 64 bits need.
--
-- Pluralkit/Database holds the tables (Tables), code that asks the database and the world
-- outside (Action, with the rules of its proofs in Rules), and a definition per statement of
-- db.rs (Systems), fronters/db.rs (Fronters) and notify/db.rs (Notify); Sorted is about ORDER
-- BY and LIMIT, Upserts about ON CONFLICT. An error of an action takes nothing back, and
-- neither does a panic, which sets a mark that the loops over categories and systems look at:
-- they go on after an error and end with a panic, as the task does. What the conversion of
-- stored identifiers could panic at is left out. Pluralkit/Fronts: Remote is what answers
-- outside, Shared and Channels are fronters/shared.rs, Notices and Tasks are fronters/tasks.rs,
-- Services the tick of front_update_service.rs and of system_update_service.rs, Follow the
-- commands of notify/add.rs and remove.rs. Calls says that calls of Discord leave the tables
-- alone, Kept and Dropped what each part does to the follows, Limits and Bounded keep them
-- within the limit, Picks, First and Starved are about the systems that are polled, Recorded
-- and Polled about a poll, Notified, Told and Unfollowed about the notices, and Discord,
-- Effects, Loops, Moves, Names, Reconciled and Category about the channels of a category. Setup
-- is commands/setup.rs, fronters/setup.rs and fronters/update.rs, from the deferred response
-- on, with a Host for what the user and Discord answer meanwhile (dialogs, the check of
-- permissions); SetupRows, Configured and Confirmed are about the first, Recategorised about
-- the second. Commands and ticks run one at a time in the model; two that overlap in the
-- program can pass the limit of follows together. Discord is taken to keep the name, parent and
-- position that a new channel is asked for.
--
-- Machine integers keep their wrap-around where the code adds; the timestamps of a shard are
-- below 2 ^ 63 by hypothesis, and a subtraction that the code guards is the subtraction of
-- natural numbers. Texts are lists of code points. Where a definition returns an Option, none
-- is a panic or an error, as its comment says.
--
-- Not modelled: input and output, logging and metrics; start-up and configuration; the command
-- that sets the notification channel up and the commands of the other modules; dialogs and the
-- check of permissions; the framework's builders and dispatch; the models of the cache that
-- copy fields. twilight, amqprs, redis, serde and PluralKit's client are parameters.
pub mod Prelude
pub mod Amqp
pub mod Cache
pub mod Framework
pub mod Gateway
pub mod Pluralkit
pub mod Tests
