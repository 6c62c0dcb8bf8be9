-- ===== src/Server/Requests/ReadSide.antt =====
-- Serving a request writes, and reads nothing from the connection.
use bhttp_1_http_in_binary.Base.{◌≡◌, refl, ◌∙◌, Outcome, ok, err, map_state}
use bhttp_1_http_in_binary.Stream.{Sink}
use bhttp_1_http_in_binary.Frame.{Frame}
use bhttp_1_http_in_binary.Frame.Writer.{write}
use bhttp_1_http_in_binary.Server.Requests.Writing.{Leaves, Change}
use bhttp_1_http_in_binary.Conn.{Conn, write_conn}

source-map_state :
    (c : Conn) (o : Outcome Sink (Unit {0}))
    → Leaves
        (λ c'. c'.source ≡ c.source)
        (λ e c'. c'.source ≡ c.source)
        (map_state (λ w. record c { sink = w }) o)
source-map_state c (ok a w) = refl
source-map_state c (err e w) = refl

pub source-write_conn :
    (f : Frame) (c : Conn)
    → Leaves (λ c'. c'.source ≡ c.source) (λ e c'. c'.source ≡ c.source) (write_conn f c)
unfolding write_conn
source-write_conn f c = source-map_state c (write f c.sink)

-- What is still to be read stays as it is.
abbrev pub keeps_source : Change
keeps_source = record {
  becomes = λ c c'. c'.source ≡ c.source;
  breaks = λ e c c'. c'.source ≡ c.source;
  same = λ c. refl;
  stops = λ e c. refl;
  then_also = λ a b c h h'. h' ∙ h;
  then_breaks = λ e a b c h h'. h' ∙ h;
  writes = λ f c is. source-write_conn f c;
}
