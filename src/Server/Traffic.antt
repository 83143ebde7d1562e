-- ===== src/Server/Traffic.antt =====
-- What any sequence of messages to internal/service does to the world.
use xiuxian.Base.{ℕ, Option, List, [], ◌∷◌, refl, sym, subst, arith}
use xiuxian.World.Host.{Host}
use xiuxian.World.Model.{World}
use xiuxian.World.Action.{Call}
use xiuxian.World.Request.{Request}
use xiuxian.World.Accounts.{new_service}
use xiuxian.World.Evolves.Basics.{Evolves, Evolves-refl, Evolves-trans, quiet-Evolves}
use xiuxian.World.Evolves.Actions.{StoreWorks}
use xiuxian.World.Evolves.Reads.{Fresh, new_service-Fresh, Evolves-Fresh}
use xiuxian.World.Evolves.Histories.{serve_one-Evolves}
use xiuxian.Limit.{Buckets}
use xiuxian.Server.Door.{Incoming, Visit, Server}
use xiuxian.Server.Message.{Message, receive}
use xiuxian.Server.Carried.{Done, nothing, carried}
use xiuxian.Server.Refused.{SameButSessions, Checked-SameButSessions}
use xiuxian.Server.Requests.{receive-Served}

module _ (host : Host) where
  -- A message, with what it brings along and what it meets.
  pub record Arrival : Type 0 where
    pub visit : Visit host.float.F
    pub incoming : Incoming
    pub message : Message

  -- The server after a sequence of messages, whatever it has answered to each.
  unfoldable pub traffic : List Arrival → Server host → Server host
  traffic [] s = s
  traffic (a ∷ as') s = traffic as' (receive host a.visit a.incoming a.message s)

  -- The store works for the command of every message.
  abbrev pub AllStored : List Arrival → Type 0
  AllStored [] = Unit {0}
  AllStored (a ∷ as') = StoreWorks a.visit.command_call.save × AllStored as'

  with_sessions-Evolves : (s t : World host) → SameButSessions host s t → Evolves host s t
  with_sessions-Evolves s t c = subst (Evolves host s) (sym c.same) (
      quiet-Evolves host s (record s { sessions = c.sessions }) refl refl refl (omega arith)
        (omega arith) (omega arith) (omega arith) (omega arith))

  Done-Evolves :
      {asked : Request → Type 0} (call : Call host.float.F) (s t : World host)
      → StoreWorks call.save
      → Fresh host s
      → Done host asked call s t
      → Evolves host s t
  Done-Evolves call s t works fresh (nothing e) =
      subst (Evolves host s) (sym e) (Evolves-refl host s)
  Done-Evolves call s t works fresh (carried r asked e) =
      subst (Evolves host s) (sym e) (serve_one-Evolves host call r s works fresh)

  receive-Evolves :
      (a : Arrival) (s : Server host)
      → StoreWorks a.visit.command_call.save
      → Fresh host s.world
      → Evolves host s.world (receive host a.visit a.incoming a.message s).world
  receive-Evolves a s works fresh =
      let served = receive-Served host a.visit a.incoming a.message s in
      let checked =
        with_sessions-Evolves s.world served.between
          (Checked-SameButSessions host served.checked) in
      Evolves-trans host checked (
        Done-Evolves a.visit.command_call served.between _ works
          (Evolves-Fresh host s.world served.between checked fresh) served.done)

  traffic-grows :
      (as' : List Arrival) (s : Server host)
      → AllStored as'
      → Fresh host s.world
      → Evolves host s.world (traffic as' s).world
  unfolding traffic
  traffic-grows [] s works fresh = Evolves-refl host s.world
  traffic-grows (a ∷ as') s works fresh =
      let first = receive-Evolves a s works.0 fresh in
      Evolves-trans host first (
        traffic-grows as' (receive host a.visit a.incoming a.message s) works.1
          (Evolves-Fresh host s.world _ first fresh))

  abbrev pub new_server : List (Option ℕ) → Buckets host.float → Server host
  new_server entropy buckets = record { world = new_service host entropy; buckets = buckets }

  -- From a new service on, as long as the store works, whatever messages have come to the server and
  -- whatever comes later, with whatever credentials and limits: the later messages only extend each
  -- event log by events with rising new numbers, they never shrink the world, and they lose, rename
  -- or set back no role.
  pub traffic-Evolves :
      (entropy : List (Option ℕ)) (buckets : Buckets host.float) (before after : List Arrival)
      → AllStored before
      → AllStored after
      → Evolves host
          (traffic before (new_server entropy buckets)).world
          (traffic after (traffic before (new_server entropy buckets))).world
  traffic-Evolves entropy buckets before after b a =
      let start = new_server entropy buckets in
      let earlier = traffic-grows before start b (new_service-Fresh host entropy) in
      traffic-grows after (traffic before start) a
        (Evolves-Fresh host start.world _ earlier (new_service-Fresh host entropy))
