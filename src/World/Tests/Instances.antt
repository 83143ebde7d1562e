-- ===== src/World/Tests/Instances.antt =====
-- Instances of what is proved of internal/biz/core.go and internal/biz/snapshot.go.
use xiuxian.Base.{◌≡◌, ◌⊎◌, refl, true, some, none, [], ◌∷◌, take, arith}
use xiuxian.Base.Int.{ℤ, pos, ◌+ℤ◌, ◌-ℤ◌, int_laws, quot, ltb_ℤ, ◌<ℤ◌, ◌≤ℤ◌}
use xiuxian.Base.Dict.{erase}
use xiuxian.Rules.Units.{Position, origin, Time, milliseconds}
use xiuxian.Rules.Travel.{Trajectory, right, left, direction}
use xiuxian.World.Model.{World, unauthenticated}
use xiuxian.World.Action.{ok, err}
use xiuxian.World.Accounts.{new_service, start_session, authenticate_session, page, page_limit}
use xiuxian.World.Place.{expand_bounds}
use xiuxian.World.Log.{log_of}
use xiuxian.World.Crossing.{covered, trajectory_time_at_distance}
use xiuxian.World.Snapshot.{take_snapshot, restore, reread_logs}
use xiuxian.World.Moves.{move, move_direction, stop}
use xiuxian.World.Gifts.{transfer, seize}
use xiuxian.World.Repeat.{
  move-repeated, move_direction-repeated, stop-repeated, transfer-repeated, seize-repeated,
}
use xiuxian.World.Request.{
  History, register_request, move_request, transfer_request, scan_request, serve,
}
use xiuxian.World.Evolves.Basics.{Evolves, Numbered}
use xiuxian.World.Evolves.Steps.{Contains}
use xiuxian.World.Evolves.Placed.{Placed, expand_bounds-Placed}
use xiuxian.World.Evolves.Histories.{world_after, serve-Evolves, serve-Numbered}
use xiuxian.World.Books.Chance.{IsFree, random_position-IsFree}
use xiuxian.World.Books.Moments.{IsCrossing, trajectory_time_at_distance-IsCrossing}
use xiuxian.World.Books.Pages.{later, page_lem}
use xiuxian.World.Books.Restore.{restore-take_snapshot}
use xiuxian.World.Books.Sessions.{after_checks, start_session-authenticate}
use xiuxian.World.Tests.{
  open_everything, fractions, test_host, day_one, call_at, two_roles, three_roles, fresh_role,
  now_is, paid, robbed, moved, headed, halted, paid_state, robbed_state, halted_state, moved_state,
  headed_state, later_call, stale, paid_runs, robbed_runs, moved_runs, headed_runs, halted_runs,
}

transfer-repeated_example :
    transfer test_host later_call "a" "c" "first" (pos 7) stale paid.1 ≡ (ok paid_state, paid.1)
transfer-repeated_example =
    transfer-repeated test_host "a" "first" now_is later_call tt "b" "c" (pos 5) (pos 7) fresh_role
      stale two_roles paid.1 paid_state refl paid_runs

seize-repeated_example :
    seize test_host later_call "c" "b" "rob" stale robbed.1 ≡ (ok robbed_state, robbed.1)
seize-repeated_example =
    seize-repeated test_host "c" "rob" now_is later_call tt "a" "b" fresh_role stale three_roles
      robbed.1 robbed_state robbed_runs

move-repeated_example :
    move test_host later_call "a" "go" origin stale moved.1 ≡ (ok moved_state, moved.1)
move-repeated_example =
    move-repeated test_host "a" "go" now_is later_call tt (record { x = pos 3000; y = pos 4000 })
      origin fresh_role stale two_roles moved.1 moved_state moved_runs

move_direction-repeated_example :
    move_direction test_host later_call "a" "east" left (pos 3) stale headed.1
    ≡ (ok headed_state, headed.1)
move_direction-repeated_example =
    move_direction-repeated test_host "a" "east" now_is later_call tt right left (pos 2) (pos 3)
      fresh_role stale two_roles headed.1 headed_state headed_runs

stop-repeated_example :
    stop test_host later_call "a" "halt" stale halted.1 ≡ (ok halted_state, halted.1)
stop-repeated_example =
    stop-repeated test_host "a" "halt" now_is later_call tt fresh_role stale two_roles halted.1
      halted_state halted_runs

-- A history: two registrations, a move, and then a transfer and a scan.
abbrev opening : History test_host
opening =
    (call_at day_one, register_request "salt" (some "t1") "ann" "longpassword" "Ann")
    ∷ (call_at day_one, register_request "salt" (some "t2") "bob" "longpassword" "Bob")
    ∷ (now_is, move_request "role_1" "go" (record { x = pos 3000; y = pos 4000 }) fresh_role)
    ∷ []

abbrev closing : History test_host
closing =
    (
      now_is,
      transfer_request "role_1" "role_2" "gift" (pos 1)
          (record fresh_role { state_version = pos 2 }),
    )
    ∷ (now_is, scan_request "role_2" fresh_role)
    ∷ []

serve-Evolves_example :
    Evolves test_host
      (world_after test_host (some 7 ∷ []) opening)
      (serve test_host closing (world_after test_host (some 7 ∷ []) opening))
serve-Evolves_example =
    serve-Evolves test_host (some 7 ∷ []) opening closing (tt, (tt, (tt, tt))) (tt, (tt, tt))

serve-Numbered_example :
    Numbered 0
      (world_after test_host [] opening).event_sequence
      (log_of test_host "role_1" (world_after test_host [] opening))
serve-Numbered_example = serve-Numbered test_host [] opening (tt, (tt, (tt, tt))) "role_1"

restore-take_snapshot_example :
    let service = new_service test_host [] in
    let r = (restore test_host (some (take_snapshot test_host paid.1)) service).1 in
    (restore test_host (some (take_snapshot test_host paid.1)) service ≡ (
      true,
      record paid.1 { events = reread_logs test_host paid.1.events; entropy = service.entropy },
    ))
    × (restore test_host (some (take_snapshot test_host r)) two_roles
        ≡ (true, record r { entropy = two_roles.entropy }))
unfolding open_everything
restore-take_snapshot_example =
    restore-take_snapshot test_host (λ h. refl) paid.1 (new_service test_host []) two_roles tt
      (refl, (refl, tt)) (omega arith)

start_session-authenticate_example :
    let t =
      after_checks test_host
        ((now_is, "token") ∷ (now_is, "other") ∷ [])
        (start_session test_host "token" "a" day_one two_roles) in
    ((now_is.reading.clock_now <ℤ day_one +ℤ pos 86_400_000_000_000)
      × (authenticate_session test_host now_is "token" t ≡ (ok "a", t)))
    ⊎ ((day_one +ℤ pos 86_400_000_000_000 ≤ℤ now_is.reading.clock_now)
        × (authenticate_session test_host now_is "token" t
            ≡ (err unauthenticated, record t { sessions = erase "token" t.sessions })))
start_session-authenticate_example =
    start_session-authenticate test_host now_is "token" "a" day_one two_roles
      ((now_is, "token") ∷ (now_is, "other") ∷ []) refl refl (omega int_laws, (omega int_laws, tt))

page_lem_example :
    let got =
      page test_host (page_limit test_host (pos 1)) (pos 0) [] (log_of test_host "b" paid.1) in
    (((pos 1 ≤ℤ pos 1) × (pos 1 ≤ℤ pos 100))
      × (got ≡ take 1 (later test_host (pos 0) (log_of test_host "b" paid.1))))
    ⊎ (((pos 1 <ℤ pos 1) ⊎ (pos 100 <ℤ pos 1))
        × (got ≡ take 50 (later test_host (pos 0) (log_of test_host "b" paid.1))))
page_lem_example = page_lem test_host (pos 1) (pos 0) (log_of test_host "b" paid.1)

expand_bounds-Placed_example :
    let p : Position = record { x = pos 5000; y = pos 7000 } in
    let t = expand_bounds test_host p two_roles in
    Contains test_host t p × Evolves test_host two_roles t × Placed test_host two_roles t
expand_bounds-Placed_example =
    expand_bounds-Placed test_host (record { x = pos 5000; y = pos 7000 }) two_roles

abbrev lucky_world : World test_host
lucky_world = record two_roles { entropy = some 7 ∷ [] }

random_position-IsFree_example :
    IsFree
      (pos 0)
      (pos 5000)
      (pos 0)
      (pos 3000)
      (record { x = pos 1000; y = pos 1000 })
      (record { x = pos 2000; y = pos 0 })
unfolding open_everything
random_position-IsFree_example =
    random_position-IsFree test_host (pos 0) (pos 5000) (pos 0) (pos 3000)
      (record { x = pos 1000; y = pos 1000 }) (record { x = pos 2000; y = pos 0 }) lucky_world refl

-- A walk to the right at the speed of a mortal, from the origin.
abbrev walk : Trajectory
walk = record {
  mode = direction;
  start = origin;
  goal = origin;
  heading = right;
  started_at = day_one;
  speed = pos 1;
  desired_speed = pos 0;
}

-- A thousandth of a unit.
abbrev near : ℤ
near = pos 60_000

trajectory_time_at_distance-IsCrossing_example :
    let found =
      trajectory_time_at_distance fractions walk (pos 0) near (day_one +ℤ pos 2_000_000) in
    ((found ≡ none)
      × ((milliseconds ((day_one +ℤ pos 2_000_000) -ℤ day_one) <ℤ pos 0)
          ⊎ (ltb_ℤ (covered fractions walk (pos 0) 2) near ≡ true)))
    ⊎ ((at : Time) × (found ≡ some at) × IsCrossing fractions walk (pos 0) near 2 at)
unfolding quot ◌-ℤ◌ ◌+ℤ◌
trajectory_time_at_distance-IsCrossing_example =
    trajectory_time_at_distance-IsCrossing fractions walk (pos 0) near (day_one +ℤ pos 2_000_000)
