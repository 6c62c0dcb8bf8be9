-- ===== src/Chaos/Relay/Through.antt =====
-- What comes through a relay, in both directions.
use bhttp_1_http_in_binary.Base.{
  ℕ, ◌≡◌, refl, sym, ◌∙◌, true, some, List, [], ◌∷◌, ◌++◌, append-nil, append_assoc, Bytes, success,
  ok, join, All,
}
use bhttp_1_http_in_binary.Stream.{Source, Sink, write_once, write_grant}
use bhttp_1_http_in_binary.Conn.{Conn}
use bhttp_1_http_in_binary.Wire.Fronts.{IsWire}
use bhttp_1_http_in_binary.Chaos.{Random, Options}
use bhttp_1_http_in_binary.Chaos.Sending.{IsRandom}
use bhttp_1_http_in_binary.Chaos.Heard.{read_all}
use bhttp_1_http_in_binary.Chaos.Written.{run_transparent}
use bhttp_1_http_in_binary.Chaos.Relay.{
  copy_loop, half_close, pass_requests, pass_answers, new_pump, relay,
}

copy_loop-all :
    (cs : List Bytes) (w : Sink) → w.grants ≡ [] → (copy_loop cs w).written ≡ w.written ++ join cs
unfolding copy_loop write_once write_grant
copy_loop-all [] w h = sym (append-nil w.written)
copy_loop-all (c ∷ cs) w h =
    let next : Sink = record { written = w.written ++ c; grants = [] } in
    let one : write_once c w ≡ ok tt next = rw h refl in
    rw one (copy_loop-all cs next refl ∙ append_assoc w.written c (join cs))

module _ {R : Type 0} (rand : Random R) (o : Options) (is_random : IsRandom rand)
    (client server : Conn) (rng : R) where
  -- A relay of a client that takes everything and has been sent nothing, and a server that takes
  -- everything and sends whole frames, with any pieces and any noise: the server gets exactly the
  -- client's bytes, in their order, and a reader of what the client gets reads the frames that the
  -- server has sent, and ends with the same error. In the end both sides have been half-closed and
  -- closed. What math/rand promises is a hypothesis.
  pub relay_through :
      (bs : List Bytes) (m : ℕ) (hearer : Source)
      → All IsWire bs
      → join server.source.chunks ≡ join bs
      → client.sink.written ≡ []
      → client.sink.grants ≡ []
      → server.sink.grants ≡ []
      → let r = relay rand o (success server) rng client in
        join hearer.chunks ≡ r.client.sink.written
        → hearer.fault ≡ server.source.fault
        → (r.server
            ≡ some (record server {
              sink = copy_loop client.source.chunks server.sink;
              half_closed = true;
              closed = true;
            }))
          × ((copy_loop client.source.chunks server.sink).written
              ≡ server.sink.written ++ join client.source.chunks)
          × (read_all m hearer ≡ read_all m server.source)
          × (r.client.half_closed ≡ true)
          × (r.client.closed ≡ true)
  unfolding relay pass_requests pass_answers new_pump half_close
  relay_through bs m hearer all is fresh takes server_takes comes same = (
    refl,
    copy_loop-all client.source.chunks server.sink server_takes,
    run_transparent rand o is_random bs server.source (new_pump client rng) m hearer all is takes
        fresh comes same,
    refl,
    refl,
  )
