-- ===== src/Tests/Server.antt =====
-- The server's path rules, files and endings.
use bhttp_1_http_in_binary.Base.{
  arith, ◌≡◌, refl, true, false, [], ◌∷◌, ◌++◌, Bytes, codes, bytes_eq, success, failure, eof,
  timeout, not_found, bad_path, All, drop,
}
use bhttp_1_http_in_binary.Stream.{refuse}
use bhttp_1_http_in_binary.Protocol.Utf8.{valid_utf8}
use bhttp_1_http_in_binary.Conn.{Conn}
use bhttp_1_http_in_binary.Server.Paths.{
  FilePath, has_byte, starts_with_slash, ends_with_slash, has_double_slash, split, join_path,
  relative, leads_up,
}
use bhttp_1_http_in_binary.Server.Resolver.{
  FileInfo, File, FileSystem, check_path, open_path, trim_left, trim_right,
}
use bhttp_1_http_in_binary.Server.Resolver.Checked.{IsName, names, check_path-join_path}
use bhttp_1_http_in_binary.Server.Resolver.Contained.{IsUnder, IsResolved, open_path-IsUnder}
use bhttp_1_http_in_binary.Server.Mime.{content_type}
use bhttp_1_http_in_binary.Server.Lifecycle.{
  Running, new_server, admit, delete_conn, lower_current, finish_handler, close_all, is_tracked,
  forget, Reaches, here, then_step, accepts, deletes, lowers, finishes, closes,
}
use bhttp_1_http_in_binary.Server.Lifecycle.Waiting.{close_waits}
use bhttp_1_http_in_binary.Server.Loop.{handle}
use bhttp_1_http_in_binary.Server.Loop.Ending.{Closes, handle-Closes}

abbrev pub root : FilePath
root = codes "srv" ∷ []

abbrev pub hi_info : FileInfo
hi_info = record { name = codes "a.txt"; size = 2; is_regular = true }

abbrev pub hi_file : File
hi_file = record {
  stat = success hi_info;
  content = record { chunks = codes "hi" ∷ []; fault = eof };
}

-- A tree with the same file everywhere.
abbrev pub tree : FileSystem
tree = record {
  eval_symlinks = λ p. success p;
  stat_is_dir = λ p. success false;
  open_file = λ p. success hi_file;
}

-- One link that leads out of the root.
abbrev leaky : FileSystem
leaky = record tree { eval_symlinks = λ p. success (codes "etc" ∷ codes "passwd" ∷ []) }

abbrev pub path : Bytes
path = codes "/a.txt"

check_path_path : check_path path ≡ success tt
unfolding check_path starts_with_slash valid_utf8 has_double_slash has_byte split bytes_eq
check_path_path = refl

check_path_up : check_path (codes "/a/../b") ≡ failure bad_path
unfolding check_path starts_with_slash valid_utf8 has_double_slash has_byte split bytes_eq
check_path_up = refl

check_path_device : check_path (codes "/d/con.txt") ≡ failure bad_path
unfolding check_path starts_with_slash valid_utf8 has_double_slash has_byte split bytes_eq
check_path_device = refl

pub open_path_path : open_path tree root path ≡ success (hi_file, hi_info)
unfolding open_path starts_with_slash valid_utf8 has_double_slash has_byte split bytes_eq leads_up
    relative join_path trim_right trim_left ends_with_slash
open_path_path = refl

open_path_link : open_path leaky root path ≡ failure not_found
unfolding open_path starts_with_slash valid_utf8 has_double_slash has_byte split bytes_eq leads_up
    relative
open_path_link = refl

content_type_upper : content_type (codes "PAGE.HTML") ≡ codes "text/html"
unfolding content_type bytes_eq
content_type_upper = refl

check_path-join_path_example :
    (join_path root (trim_right (trim_left path)) ≡ root ++ names (split (drop 1 path)))
    × All IsName (names (split (drop 1 path)))
check_path-join_path_example = check_path-join_path root path check_path_path

open_path-IsUnder_example :
    (p : FilePath) × (tree.open_file p ≡ success hi_file)
    × IsUnder root p
    × IsResolved tree root p
    × (hi_file.stat ≡ success hi_info)
    × (hi_info.is_regular ≡ true)
open_path-IsUnder_example = open_path-IsUnder tree root path open_path_path

-- A connection that sends garbage, and whose writes fail.
abbrev garbage : Conn
garbage = record {
  source = record { chunks = (1 ∷ 2 ∷ []) ∷ (3 ∷ []) ∷ []; fault = timeout };
  sink = record { written = []; grants = refuse 0 timeout ∷ [] };
  half_closed = false;
  closed = false;
}

handle-Closes_example : Closes (handle tree root garbage)
handle-Closes_example = handle-Closes tree root garbage

-- One connection comes, Close is called, the connection's handler ends, and another one comes late.
abbrev served : Running
served = finish_handler (lower_current (delete_conn 5 (close_all (admit 5 new_server))))

Reaches-served : Reaches new_server served
unfolding admit is_tracked forget delete_conn lower_current finish_handler close_all
Reaches-served =
    then_step
      (then_step
        (then_step (then_step (then_step here (accepts 5 refl)) closes) (deletes 5 refl refl))
        (lowers (omega arith)))
      (finishes (omega arith))

late_comer : Reaches served (admit 6 served)
unfolding admit is_tracked forget delete_conn lower_current finish_handler close_all
late_comer = then_step here (accepts 6 refl)

closed_served : (served.closed ≡ true) × (served.group ≡ 0)
unfolding admit is_tracked forget delete_conn lower_current finish_handler close_all
closed_served = (refl, refl)

close_waits_example :
    ((admit 6 served).conns ≡ []) × ((admit 6 served).current ≡ 0) × ((admit 6 served).group ≡ 0)
close_waits_example =
    close_waits served (admit 6 served) Reaches-served closed_served.0 closed_served.1 late_comer
