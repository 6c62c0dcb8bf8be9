-- ===== src/Tests/Startup.antt =====
-- A server that starts and stops, and its command line.
use bhttp_1_http_in_binary.Base.{
  ℕ, ◌≡◌, ◌≤◌, ◌+◌, ◌↔◌, ◌⊎◌, refl, arith, inl, inr, true, false, Option, none, some, List, [], ◌∷◌,
  Bytes, codes, Result, success, failure,
}
use bhttp_1_http_in_binary.Base.Ints.{ℤ, pos, negsuc, is_positive}
use bhttp_1_http_in_binary.Server.Paths.{FilePath}
use bhttp_1_http_in_binary.Server.Resolver.{FileSystem}
use bhttp_1_http_in_binary.Server.Lifecycle.{
  Running, new_server, admit, delete_conn, end_loop, close_all, is_tracked, forget, Reaches, here,
  then_step, accepts, ends, deletes, closes,
}
use bhttp_1_http_in_binary.Server.Lifecycle.Draining.{
  steps_left, count_moves, HandlerMoves, close_ends,
}
use bhttp_1_http_in_binary.Server.Lifecycle.Dropped.{AllDropped}
use bhttp_1_http_in_binary.Server.Lifecycle.Serving.{
  Serving, new_serving, start, accept_fails, accept_conn, close_lock, close_listener, starts, fails,
  gets, locks, closes_listener, then_serve, then_other,
}
use bhttp_1_http_in_binary.Server.Lifecycle.Serving
use bhttp_1_http_in_binary.Server.Lifecycle.Serving.Ending.{Ends, serve-Ends}
use bhttp_1_http_in_binary.Server.Startup.{Config, Server, new, default_idle_timeout}
use bhttp_1_http_in_binary.Server.Startup.Configured.{IsRoot, new_lem}
use bhttp_1_http_in_binary.Cli.Bserve.{Texts, port_of, run}
use bhttp_1_http_in_binary.Cli.Bserve.Usage.{IsCommandLine, run_usage}
use bhttp_1_http_in_binary.Cli.Bchaos.{Numbers, default_settings, flag_kind, set_flag}
use bhttp_1_http_in_binary.Cli.Bchaos
use bhttp_1_http_in_binary.Tests.Server.{root, tree}

-- Two connections, one of which is on its way out when Close is called.
abbrev two_conns : Running
two_conns = close_all (delete_conn 4 (end_loop 4 (admit 5 (admit 4 new_server))))

Reaches-two_conns : Reaches new_server two_conns
unfolding admit is_tracked end_loop delete_conn close_all
Reaches-two_conns =
    then_step
      (then_step
        (then_step (then_step (then_step here (accepts 4 refl)) (accepts 5 refl)) (ends 4 refl))
        (deletes 4 refl refl))
      closes

one_more : Reaches two_conns (delete_conn 5 two_conns)
unfolding admit is_tracked forget end_loop delete_conn close_all
one_more = then_step here (deletes 5 refl refl)

close_ends_example :
    (count_moves one_more + steps_left (delete_conn 5 two_conns) ≤ steps_left two_conns)
    × (((delete_conn 5 two_conns).group ≡ 0) ⊎ HandlerMoves (delete_conn 5 two_conns))
    × AllDropped (delete_conn 5 two_conns)
unfolding close_all
close_ends_example = close_ends two_conns (delete_conn 5 two_conns) Reaches-two_conns refl one_more

-- Serve takes a connection, an Accept fails, and Close comes.
abbrev up : Serving
up = accept_fails false (accept_conn 7 (start new_serving))

abbrev going_down : Serving
going_down = close_listener (close_lock up)

Serves-going_down : Serving.Serves new_serving going_down
unfolding start is_tracked accept_conn close_lock accept_fails
Serves-going_down =
    then_other
      (then_other
        (then_serve (then_serve (then_serve Serving.here (starts refl)) (gets 7 refl refl))
          (fails refl))
        locks)
      (closes_listener (omega arith))

serve-Ends_example : Ends going_down (accept_conn 8 going_down)
unfolding close_listener close_lock accept_fails accept_conn start is_tracked
serve-Ends_example =
    serve-Ends going_down (accept_conn 8 going_down) Serves-going_down refl refl (gets 8 refl refl)

-- A name is taken for the root itself.
abbrev at_root : Bytes → Result FilePath
at_root name = success root

abbrev config : Config
config = record { root = codes "srv"; idle_timeout = negsuc 4; write_timeout = pos 5 }

abbrev started : Server
started = record {
  root = root;
  idle_timeout = default_idle_timeout;
  write_timeout = pos 5;
  running = new_server;
}

-- A file system whose files are all directories.
abbrev folders : FileSystem
folders = record tree { stat_is_dir = λ p. success true }

new-started : new folders at_root config ≡ success started
unfolding new is_positive
new-started = refl

new_lem_example :
    IsRoot folders at_root (codes "srv") root
    × (is_positive default_idle_timeout ≡ true)
    × (is_positive (pos 5) ≡ true)
    × (new_server ≡ new_server)
new_lem_example = new_lem folders at_root config started new-started

ports :
    (port_of (codes "8080") ≡ some 8080)
    × (port_of (codes "+007") ≡ some 7)
    × (port_of (codes "-0") ≡ some 0)
    × (port_of (codes "65536") ≡ none)
    × (port_of (codes "80a") ≡ none)
    × (port_of (codes "-1") ≡ none)
unfolding port_of bhttp_1_http_in_binary.Base.Ints.negate
ports = (refl, refl, refl, refl, refl, refl)

abbrev listens : Bytes → Result Bytes
listens addr = success (codes "[::]:80")

abbrev no_port : List Bytes
no_port = codes "srv" ∷ codes "http" ∷ []

abbrev told : Texts
told = record { error_text = λ e. codes "error"; quote = λ t. t }

run_usage_example :
    ((run told folders at_root listens no_port).status ≡ 2) ↔ (¬ IsCommandLine no_port)
run_usage_example = run_usage told folders at_root listens no_port

abbrev chaos_told : Bchaos.Texts
chaos_told = record {
  error_text = λ e. codes "error";
  address_text = λ t. t;
  duration_text = λ d. codes "0s";
  defaults_text = [];
}

abbrev no_numbers : Numbers
no_numbers = record { parse_int = λ t. none; parse_duration = λ t. none }

no_target :
    (Bchaos.run chaos_told no_numbers (λ addr. success ([], [])) (codes "-noise" ∷ [])).status
    ≡ some 2
unfolding Bchaos.run bhttp_1_http_in_binary.Cli.Flags.parse bhttp_1_http_in_binary.Base.bytes_eq
    bhttp_1_http_in_binary.Cli.Addresses.cut_first bhttp_1_http_in_binary.Cli.Flags.parse_bool
no_target = refl
