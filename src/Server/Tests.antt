-- ===== src/Server/Tests.antt =====
-- Instances of what is proved of internal/service.
use xiuxian.Base.{◌<◌, true, false, none, some, List, [], ◌∷◌, ◌≡◌, ◌⊎◌, replicate, refl, arith}
use xiuxian.Base.Int.{ℤ, pos}
use xiuxian.Base.Dict.{lookup}
use xiuxian.Base.Text.{after_prefix}
use xiuxian.World.Model.{World, Event, stale_command}
use xiuxian.World.Tests.{test_host, day_one, two_roles, rich, now_is}
use xiuxian.World.Books.Pages.{later}
use xiuxian.World.Log.{log_of}
use xiuxian.Limit.{no_redis}
use xiuxian.Server.Fault.{map_error, service_error, error_unauthorized}
use xiuxian.Server.Door.{
  Incoming, Visit, Server, authenticate, by_key, by_session, cookie_of, authorization_of,
  single_value,
}
use xiuxian.Server.Message.{stop_message, scan_message, register_message, receive}
use xiuxian.Server.Carried.{Done}
use xiuxian.Server.Deadlines.{Allowed, rejects, settle_deadline_http-Done}
use xiuxian.Server.Stream.{DeadlineInput, error_answer, settle_deadline_http}
use xiuxian.Server.Traffic.{Arrival, traffic, new_server, traffic-Evolves}
use xiuxian.World.Evolves.Basics.{Evolves}
use xiuxian.Server.Served.{Served}
use xiuxian.Server.Requests.{Permitted, receive-Served}
use xiuxian.Server.Errors.{service_error-map_error}
use xiuxian.World.Books.Sessions.{Expired}
use xiuxian.Server.Closed.{receive_refused}
use xiuxian.Server.Stream.{events_stream}
use xiuxian.Server.Delivered.{events_stream-delivers}

abbrev visit : Visit ℤ
visit = record {
  key_call = now_is;
  session_call = now_is;
  command_call = now_is;
  limit_time = day_one;
  limit_redis = no_redis;
}

-- A browser with the session of the role a, and a caller without credentials.
abbrev browser : Incoming
browser = record {
  transport_header = none;
  metadata_values = [];
  http = some (record {
    forwarded_for = "10.0.0.1, 10.0.0.2";
    remote_addr = "10.0.0.2:80";
    remote_host = some "10.0.0.2";
    session_cookie = some "token";
  });
}

abbrev stranger : Incoming
stranger = record { transport_header = none; metadata_values = []; http = none }

abbrev server : Server test_host
server = record {
  world = record two_roles {
    sessions =
        ("token", record { role_id = "a"; expires_at = pos 64_000_000_000_000_000_000 }) ∷ [];
  };
  buckets = [];
}

receive-Served_example :
    Served test_host
      (Permitted test_host visit browser (scan_message (pos 1) (pos 1)) server)
      visit.command_call
      server.world
      (receive test_host visit browser (scan_message (pos 1) (pos 1)) server).world
receive-Served_example =
    receive-Served test_host visit browser (scan_message (pos 1) (pos 1)) server

receive_refused_example :
    Expired test_host visit.session_call.reading.clock_now
      (cookie_of test_host stranger)
      server.world
      (receive test_host visit stranger (stop_message "key" (pos 1) (pos 1)) server).world
unfolding authenticate by_key by_session cookie_of authorization_of single_value after_prefix
receive_refused_example =
    receive_refused test_host visit stranger server (error_unauthorized "authentication required")
      refl (stop_message "key" (pos 1) (pos 1)) refl

service_error-map_error_example :
    ((service_error stale_command
        ≡ ((map_error stale_command).code, (map_error stale_command).message))
      × ((map_error stale_command).code < 500))
    ⊎ ((service_error stale_command ≡ (500, "internal error"))
        × (((map_error stale_command).code ≡ 500)
            × ((map_error stale_command).message ≡ "internal error")))
    ⊎ ((service_error stale_command ≡ (500, "internal error"))
        × (((map_error stale_command).code ≡ 403) ⊎ ((map_error stale_command).code ≡ 412)))
service_error-map_error_example = service_error-map_error stale_command

abbrev event : ℤ → Event ℤ
event at = record {
  id = 3;
  kind = "moved";
  message = "";
  created_at = at;
  life_number = pos 1;
  payload = [];
}

-- The role a has two events.
abbrev eventful : World test_host
eventful = record two_roles {
  events = ("a", event (pos 0) ∷ record (event (pos 1)) { id = 5 } ∷ []) ∷ [];
}

events_stream-delivers_example :
    events_stream test_host "a" (pos 3) (replicate 1 (now_is, eventful))
    ≡ later test_host (pos 3) (log_of test_host "a" eventful)
unfolding lookup
events_stream-delivers_example =
    events_stream-delivers test_host "a" now_is eventful (rich "a") (pos 0) (pos 3) 1 refl refl
      (omega arith, (omega arith, tt)) (omega arith)

-- Two registrations, and then a scan by the first role.
abbrev registrations : List (Arrival test_host)
registrations =
    record {
      visit = visit;
      incoming = stranger;
      message = register_message true "salt" (some "token") "ann" "longpassword" "Ann";
    }
    ∷ record {
      visit = visit;
      incoming = stranger;
      message = register_message true "salt" (some "other") "bob" "longpassword" "Bob";
    }
    ∷ []

abbrev scans : List (Arrival test_host)
scans = record { visit = visit; incoming = browser; message = scan_message (pos 1) (pos 1) } ∷ []

abbrev registered : Server test_host
registered = traffic test_host registrations (new_server test_host (some 7 ∷ []) [])

traffic-Evolves_example :
    Evolves test_host registered.world (traffic test_host scans registered).world
traffic-Evolves_example =
    traffic-Evolves test_host (some 7 ∷ []) [] registrations scans (tt, (tt, tt)) (tt, tt)

abbrev overdue : DeadlineInput
overdue = record { role_id = "a"; state_version = pos 1 }

settle_deadline_http-Done_example :
    let settled = settle_deadline_http test_host now_is "secret" "secret" (some overdue) server in
    Done test_host (Allowed "secret" "secret" (some overdue)) now_is server.world settled.1.world
    × (settled.1.buckets ≡ server.buckets)
    × ((rejects test_host "secret" "secret" ≡ false)
        ⊎ (settled ≡ (error_answer 401 "worker authentication required", server)))
settle_deadline_http-Done_example =
    settle_deadline_http-Done test_host now_is "secret" "secret" (some overdue) server
