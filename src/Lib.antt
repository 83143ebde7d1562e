-- ===== src/Lib.antt =====
-- xiuxian: a world of cultivators whose authority is one service with a mutex. This library models
-- the authority and its rules, and proves what they promise.
--
-- The parts of the program and their files here:
--   internal/rules/rules.go     Rules/Units (quantities, Points, Units, IntegerGridRange, Distance),
--     Rules/Realms (the table, RealmFor), Rules/Life (DeriveLife, NextNaturalDeathAfter,
--     ValidateTransfer), Rules/Travel (PositionAfterDistance, TravelDistance), Rules/Reward
--     (ConvertedCultivation, InteractionEligibilityFor, CanSenseOpportunity). The proofs are in
--     Rules/Table, Death, Eligible, Convert, Grid and Journey.
--   internal/biz/core.go        World/Model (the data), World/Log (events, the authority's clock),
--     World/Place (random positions, bounds, placing of opportunities), World/Bond (binding and
--     settling an opportunity), World/Fate (death and reincarnation), World/Crossing (trajectories
--     that meet opportunities), World/Settle (stateLocked), World/Action (guards, idempotency and the
--     common end of the commands), World/Moves (Move, MoveDirection, Stop), World/Gifts (Transfer,
--     Seize), World/Scan, World/Talk (conversations), World/Accounts (registration, sessions, keys,
--     reads).
--   internal/biz/snapshot.go    World/Snapshot (persistLocked, restoreLocked, resetStateLocked).
--   internal/biz/world.go       World/Request (the calls of WorldAuthority as requests, and histories)
--     and Server/Usecase (the use cases, which end early for a cancelled context).
--   internal/data/ratelimit.go, internal/biz/ratelimit.go   Limit (the token buckets, the policies),
--     with proofs in Limit/Live, Sweep, Forever (the sweep never shows) and Burst.
--   internal/service            Server/Fault (the errors of errors.go), Server/Wire (the messages of
--     world.go), Server/Door (authentication, limits), Server/Handlers (the calls of WorldService and
--     AuthService), Server/Message (these calls as one type) and Server/Stream (http.go). The proofs
--     are in Server/Carried, Served and Requests (what a message may do to the world), Refused, Expired
--     and Closed (what one without credentials may do), Errors, Delivered, Traffic and Deadlines.
--   internal/conf/conf.go       Config, with Config/Layers.
--   internal/data/postgres.go   Store (the tables), Store/Mirror (mirrorNormalizedState), Store/Save
--     (Save, Load, changedRoleIDs), with proofs in Store/Keeps, Rows, Saved,
--     Succeeds and Changed.
--   cmd/mcp-gateway/main.go     Gateway (callToolRPC), Gateway/Front (ServeHTTP), Gateway/Tools (the list
--     of tools), with proofs in Gateway/Schemas, Agrees and Guards.
--   cmd/worker/main.go          Worker, with proofs in Worker/Outbox, Rounds, Runs and
--     Deadlines.
-- The proofs about the world are in World/Evolves (how it may change, operation by operation up to
-- histories), World/Replay and World/Repeat (idempotency) and World/Books (random positions,
-- crossing times, pages, sessions, snapshots, transfers). Base holds what all share: Boolean tests,
-- lists, integers, texts, maps, sorting and binary search. The modules named Tests run the definitions.
--
-- How they interact: the gateway turns JSON-RPC calls into calls of WorldService; the service checks the
-- credentials and the limits, and passes requests to the use cases and so to the authority. The authority
-- saves its snapshot through the store, whose outbox the worker publishes; the worker has the server
-- settle the deadlines that it finds in the rows of the store.
--
-- How the code is modelled:
--   * A command is an action: a world in, a result or an error and a world out. What was changed
--     before an error stays changed, as in the source, where only a failed save reloads the store.
--     The mutex makes the commands of all callers one sequence, which World/Request.serve runs.
--   * A map is an association list, and the order in which Go ranges over it is the order of the
--     list. A role, an opportunity or a conversation that the source holds by a pointer stands under
--     its key in the map that owns it, and is read anew after each change; a nil dereference is an
--     error of the model. The zero time, the empty id and the zero key hash are 0 and "".
--   * float64 is a parameter (Base/Float), as are sha256, base64, hex and bcrypt (World/Host): no
--     theorem assumes anything of them but the round trip of hex, that converting a float64 from 1 on
--     and below 2^63 to int64 is positive and, for the limiter, how counts of tokens add up, where
--     these are named. The tests use decimal fractions, whole
--     numbers or counts for float64. What crypto/rand delivers is a list in the world, numbers or
--     failures, of which rand.Int takes a remainder; tokens and salts are arguments of the calls.
--   * Times are nanoseconds since Go's zero time, durations nanoseconds, cultivation and coordinates
--     int64 counts of milliseconds and of thousandths. They are exact integers: a sum leaves int64
--     only after 292 years in one duration. The product in ConvertedCultivation, which does leave
--     int64 for high realms, wraps as the source's does. Times are thus not limited to the range of
--     time.Duration's saturation.
--   * A call meets a clock, the database's clock if the store has one, and an outcome of the save:
--     none, saved, or refused with what is then loaded. A payload stands for its JSON text; the data of
--     events come back as texts, float64 numbers, truth values and objects. A world that does not
--     encode acts as a refused save that cannot load the store again.
--   * Transfer takes the points of the minutes as a whole number, where the source goes through float64,
--     which is exact up to 2^53. A nil dereference, a panic in the source, is an error that mapError
--     answers with 500. One worker runs: that a row of the outbox is due, which the migration's default
--     always makes true, and SKIP LOCKED are left out, and so is an iteration of rows that ends early.
--   * A call of the service meets a time and an answer of Redis for its limiter. What runs inside Redis
--     is not under this repository's control; only the limiter in memory is followed further.
--   * A transaction of the store is a sequence of statements, with an argument that says how many of
--     them succeed; one that fails takes back the transaction. The worker's rounds have arguments that
--     say which of their steps succeed, and what the game server answers.
--   * The event stream, and the worker's loop, run over a list of rounds, one for each tick.
--   * sort.Slice is an insertion sort by the same comparison.
-- Loops and their fuel: next_death_loop has fuel for one round at each of the 32 realms, and is proved
-- to need no more. The loop of TravelDistance has the same fuel, and is proved to leave no time over.
-- The binary searches have the length of their interval, which is proved to be enough. The loop of
-- deaths in stateLocked has a round for each nanosecond between the first death and now.
--
-- Not modelled: the clocks themselves, the rule book that is shown to clients (internal/biz/
-- game_rules.go, GetGameRules), the servers' start (internal/server), programs and wiring
-- (cmd/game-server, cmd/migrate, and the start of the other two), which call libraries, connections
-- (internal/data/data.go but its health check), and the generated code (gen).
pub mod Base
pub mod Rules
pub mod World
pub mod Limit
pub mod Server
pub mod Gateway
pub mod Config
pub mod Store
pub mod Worker
