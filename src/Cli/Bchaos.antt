-- ===== src/Cli/Bchaos.antt =====
-- cmd/bchaos/main.go, with what it prints itself; what the flag package prints in front of the usage
-- is left out. Integers and durations are read by the flag package with strconv and time, which are
-- parameters, and so are the texts of errors.
use bhttp_1_http_in_binary.Base.{
  ℕ, zero, Bool, false, ◌||◌, Option, none, some, List, [], ◌++◌, Error, Bytes, codes, bytes_eq,
  Result, fold_result, ◌==◌, if◌then◌else◌, length, ltb,
}
use bhttp_1_http_in_binary.Base.Ints.{ℤ, pos, negsuc, is_negative}
use bhttp_1_http_in_binary.Conn.{Conn}
use bhttp_1_http_in_binary.Chaos.{Options}
use bhttp_1_http_in_binary.Chaos.Relay.{Accepted, Served, still_accepting, returned, serve}
use bhttp_1_http_in_binary.Cli.Addresses.{split_host_port}
use bhttp_1_http_in_binary.Cli.Messages.{error_line, format_signed, format_bool}
use bhttp_1_http_in_binary.Cli.Flags.{Kind, switch, with_value, parse, parse_bool}

-- strconv.ParseInt(s, 0, 64) and time.ParseDuration
pub record Numbers : Type 0 where
  pub parse_int : Bytes → Option ℤ
  pub parse_duration : Bytes → Option ℤ

-- What the flags say.
pub record Settings : Type 0 where
  pub target : Bytes
  pub listen : Bytes
  pub chunk : ℤ
  pub delay : ℤ
  pub noise : Bool
  pub seed : ℤ

abbrev pub default_settings : Settings
default_settings = record {
  target = [];
  listen = codes "127.0.0.1:9100";
  chunk = pos 0;
  delay = pos 0;
  noise = false;
  seed = pos 1;
}

unfoldable pub flag_kind : Bytes → Option Kind
flag_kind name =
    if bytes_eq name (codes "noise")
    then some switch
    else if bytes_eq name (codes "target")
        || bytes_eq name (codes "listen")
        || bytes_eq name (codes "chunk")
        || bytes_eq name (codes "delay")
        || bytes_eq name (codes "seed")
    then some with_value
    else none

abbrev pub and_then {ℓ} : {A : Type ℓ} → Option A → (A → Settings) → Option Settings
and_then none f = none
and_then (some a) f = some (f a)

unfoldable pub set_flag : Numbers → Bytes → Bytes → Settings → Option Settings
set_flag numbers name value s =
    if bytes_eq name (codes "noise")
    then and_then (parse_bool value) (λ b. record s { noise = b })
    else if bytes_eq name (codes "target")
    then some (record s { target = value })
    else if bytes_eq name (codes "listen")
    then some (record s { listen = value })
    else if bytes_eq name (codes "chunk")
    then and_then (numbers.parse_int value) (λ n. record s { chunk = n })
    else if bytes_eq name (codes "delay")
    then and_then (numbers.parse_duration value) (λ n. record s { delay = n })
    else and_then (numbers.parse_int value) (λ n. record s { seed = n })

-- The checks on the settings.
unfoldable pub bad_usage : Settings → List Bytes → Bool
unfolding is_negative
bad_usage s args =
    ltb 0 (length args) || length s.target == 0 || is_negative s.chunk || is_negative s.delay

abbrev pub magnitude : ℤ → ℕ
magnitude (pos n) = n
magnitude (negsuc n) = zero

-- The options of the relay. The pauses and the seed are left to the relay's parameters.
abbrev pub relay_options : Settings → Options
relay_options s = record { chunk = magnitude s.chunk; noise = s.noise }

-- The exit status, if bchaos has one, what has been printed to standard error and to standard output,
-- and the connections that got a relay.
pub record Finished : Type 0 where
  pub status : Option ℕ
  pub message : Bytes
  pub announced : Bytes
  pub relays : List (ℕ × Conn)

abbrev exits : ℕ → Bytes → Finished
exits status message = record {
  status = some status;
  message = message;
  announced = [];
  relays = [];
}

abbrev pub command : Bytes
command = codes "bchaos"

abbrev pub usage_line : Bytes
usage_line =
    codes
      "usage: bchaos -target host:port [-listen addr] [-chunk n] [-delay d] [-noise] [-seed n]\n"

-- The texts of errors and of the error of net.SplitHostPort, %v of a duration, and PrintDefaults.
pub record Texts : Type 0 where
  pub error_text : Error → Bytes
  pub address_text : Bytes → Bytes
  pub duration_text : ℤ → Bytes
  pub defaults_text : Bytes

abbrev pub usage_text : Texts → Bytes
usage_text texts = usage_line ++ texts.defaults_text

unfoldable pub bad_target_line : Texts → Bytes → Bytes
bad_target_line texts target =
    error_line command (codes "-target must look like host:port: " ++ texts.address_text target)

unfoldable pub listening_line : Texts → Bytes → Settings → Bytes
listening_line texts addr s =
    codes "listening on "
    ++ (addr
        ++ (codes ", relaying to "
            ++ (s.target
                ++ (codes " (chunk="
                    ++ (format_signed s.chunk
                        ++ (codes " delay="
                            ++ (texts.duration_text s.delay
                                ++ (codes " noise="
                                    ++ (format_bool s.noise
                                        ++ (codes " seed="
                                            ++ (format_signed s.seed ++ codes ")\n")))))))))))

abbrev pub exit_code : Served → Option ℕ
exit_code still_accepting = none
exit_code (returned none) = some 0
exit_code (returned (some e)) = some 1

-- The line for the error of Serve.
unfoldable pub served_message : Texts → Served → Bytes
served_message texts still_accepting = []
served_message texts (returned none) = []
served_message texts (returned (some e)) = error_line command (texts.error_text e)

-- `listen` is net.Listen("tcp", ...): the text of the listener's address, and what Accept returns.
module _ (texts : Texts) (numbers : Numbers) (listen : Bytes → Result (Bytes × List Accepted)) where
  unfoldable pub listen_and_serve : Settings → Finished
  unfolding serve listening_line served_message
  listen_and_serve s =
      fold_result (listen s.listen)
        (λ l.
          let served = serve 0 l.1 in
          record {
            status = exit_code served.1;
            message = served_message texts served.1;
            announced = listening_line texts l.0 s;
            relays = served.0;
          })
        (λ e. exits 1 (error_line command (texts.error_text e)))

  unfoldable pub check_target : Settings → Option (Bytes × Bytes) → Finished
  unfolding listen_and_serve bad_target_line
  check_target s none = exits 2 (bad_target_line texts s.target)
  check_target s (some address) = listen_and_serve s

  unfoldable pub run_parsed : Option (Settings × List Bytes) → Finished
  unfolding check_target bad_usage
  run_parsed none = exits 2 (usage_text texts)
  run_parsed (some (s, args)) =
      if bad_usage s args
      then exits 2 (usage_text texts)
      else check_target s (split_host_port s.target)

  unfoldable pub run : List Bytes → Finished
  unfolding run_parsed flag_kind set_flag
  run args = run_parsed (parse flag_kind (set_flag numbers) args default_settings)
