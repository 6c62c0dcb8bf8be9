-- ===== src/Chaos/Written.antt =====
-- What the relay writes to a client that takes everything.
use bhttp_1_http_in_binary.Base.{
  ℕ, zero, suc, ◌+◌, ◌-◌, ◌≤◌, ◌<◌, ◌≡◌, refl, sym, ap, ◌∙◌, arith, Bool, true, false, ◌&&◌, List,
  [], ◌∷◌, ◌++◌, append-nil, append_assoc, Bytes, put_u16, put_u32, be_u32, length, length-append,
  length-drop, length-take, take, drop, take-append-drop, join, All, get_or, ltb, replicate,
  length-replicate,
}
use bhttp_1_http_in_binary.Stream.{Source}
use bhttp_1_http_in_binary.Stream.Simulation.{read_full-front, read_full-end, read_full-short}
use bhttp_1_http_in_binary.Frame.{header_size, max_payload, is_known, flag_end_stream, has_flag}
use bhttp_1_http_in_binary.Chaos.{
  Random, Options, Pump, unknown_types, noise_frame, inject, inject_if, padded, relay_frame,
  run_loop, run,
}
use bhttp_1_http_in_binary.Chaos.Heard.{
  read_all, read_all-Woven, IsNoise, Woven, at_end, a_frame, some_noise,
}
use bhttp_1_http_in_binary.Wire.Fronts.{IsWire, be_u32-append}
use bhttp_1_http_in_binary.Chaos.Sending.{IsRandom, TakesAll, send-Sent}

unknown_types-unknown : (t : ℕ) → t < 7 → is_known (get_or unknown_types t 0) ≡ false
unfolding is_known
unknown_types-unknown zero h = refl
unknown_types-unknown (suc zero) h = refl
unknown_types-unknown (suc (suc zero)) h = refl
unknown_types-unknown (suc (suc (suc zero))) h = refl
unknown_types-unknown (suc (suc (suc (suc zero)))) h = refl
unknown_types-unknown (suc (suc (suc (suc (suc zero))))) h = refl
unknown_types-unknown (suc (suc (suc (suc (suc (suc zero)))))) h = refl
unknown_types-unknown (suc (suc (suc (suc (suc (suc (suc t))))))) h = absurd (omega arith)

module _ {R : Type 0} (rand : Random R) (o : Options) where
  -- What the relay has written for the frames, and that the client still takes everything.
  pub record Relays (bs : List Bytes) (p p' : Pump R) : Type 0 where
    pub wire : Bytes
    pub woven : Woven bs wire
    pub out : p'.out.written ≡ p.out.written ++ wire

  module _ (good : IsRandom rand) where
    noise_frame-IsNoise :
        (r : R) → IsNoise ((noise_frame rand o r).0.0 ++ (noise_frame rand o r).0.1)
    unfolding noise_frame put_u32 put_u16
    noise_frame-IsNoise r =
        let made = noise_frame rand o r in
        let n = rand.intn 65 r in
        let few : n.0 < 65 = good.below 65 r (omega arith) in
        let long : length made.0.1 ≡ n.0 = good.fills n.0 n.1 in
        let says : be_u32 made.0.0 ≡ length made.0.1 =
          (unfold be_u32 in omega (arith, long, few)) in
        record {
          hdr = made.0.0;
          payload = made.0.1;
          split = refl;
          size = omega arith;
          whole = sym says;
          fits = omega (arith, says, long, few);
          unknown = unknown_types-unknown _ (good.below 7 _ (omega arith));
        }

    inject_if-Relays :
        (wanted : Bool) (bs : List Bytes) (rest : Pump R → Pump R) (p : Pump R)
        → TakesAll p
        → ((q : Pump R) → TakesAll q → Relays bs q (rest q))
        → Relays bs p (inject_if rand o wanted rest p)
    unfolding inject_if inject
    inject_if-Relays false bs rest p h later = later p h
    inject_if-Relays true bs rest p h later =
        let made = noise_frame rand o p.rng in
        let b = made.0.0 ++ made.0.1 in
        let q : Pump R = record p { rng = made.1; injected = p.injected + 1 } in
        let sent = send-Sent rand o b q h in
        let next = later sent.pump sent.open_still in
        record {
          wire = b ++ next.wire;
          woven = some_noise b next.wire (noise_frame-IsNoise p.rng) next.woven refl;
          out = rw sent.result (
              next.out
              ∙ ap (λ (z : Bytes). z ++ next.wire) sent.written
              ∙ append_assoc p.out.written b next.wire);
        }

    relay_frame-Relays :
        (bs : List Bytes) (again : Pump R → Pump R) (hdr body : Bytes) (p : Pump R)
        → TakesAll p
        → ((q : Pump R) → TakesAll q → Relays bs q (again q))
        → Relays ((hdr ++ body) ∷ bs) p (relay_frame rand o again hdr body p)
    unfolding relay_frame
    relay_frame-Relays bs again hdr body p h later =
        inject_if-Relays o.noise ((hdr ++ body) ∷ bs) _ p h (λ q hq.
          let b = hdr ++ body in
          let sent = send-Sent rand o b (record q { frames = q.frames + 1 }) hq in
          let next =
            inject_if-Relays (o.noise && has_flag (get_or hdr 5 0) flag_end_stream) bs again
              sent.pump sent.open_still later in
          record {
            wire = b ++ next.wire;
            woven = a_frame b next.wire next.woven refl;
            out = rw sent.result (
                next.out
                ∙ ap (λ (z : Bytes). z ++ next.wire) sent.written
                ∙ append_assoc q.out.written b next.wire);
          })

    run_round :
        (bs : List Bytes) (fuel : ℕ) (hdr body : Bytes) (server : Source) (p : Pump R)
        → length hdr ≡ header_size
        → length body ≡ be_u32 hdr
        → be_u32 hdr ≤ max_payload
        → join server.chunks ≡ hdr ++ (body ++ join bs)
        → TakesAll p
        → ((t : Source) (q : Pump R)
            → join t.chunks ≡ join bs
            → TakesAll q
            → Relays bs q (run_loop rand o fuel t q))
        → Relays ((hdr ++ body) ∷ bs) p (run_loop rand o (suc fuel) server p)
    unfolding run_loop
    run_round bs fuel hdr body server p size whole fits is h later =
        let (s, r, left) = read_full-front header_size server hdr (body ++ join bs) is size in
        let (t, r', left') = read_full-front (be_u32 hdr) s body (join bs) left whole in
        let small : ltb max_payload (be_u32 hdr) ≡ false = ground arith in
        rw r (
          rw small (
            rw r' (
              relay_frame-Relays bs (run_loop rand o fuel t) hdr body p h
                (λ q hq. later t q left' hq))))

    run_loop-Relays :
        (bs : List Bytes) (fuel : ℕ) (server : Source) (p : Pump R)
        → All IsWire bs
        → join server.chunks ≡ join bs
        → length (join bs) < fuel
        → TakesAll p
        → Relays bs p (run_loop rand o fuel server p)
    run_loop-Relays bs zero server p all is enough h = absurd (omega arith)
    run_loop-Relays [] (suc fuel) server p all is enough h =
        let (e, u, r) = read_full-end header_size server is (omega arith) in
        record {
          wire = [];
          woven = at_end;
          out = unfold run_loop in rw r (sym (append-nil p.out.written));
        }
    run_loop-Relays (b ∷ bs) (suc fuel) server p (w, all) is enough h =
        let hdr = take header_size b in
        let body = drop header_size b in
        let split : hdr ++ body ≡ b = take-append-drop header_size b in
        let size : length hdr ≡ header_size = omega (arith, length-take header_size b, w.size) in
        let same : be_u32 b ≡ be_u32 hdr =
          ap be_u32 (sym split) ∙ be_u32-append hdr body (omega (arith, size)) in
        let bytes : join server.chunks ≡ hdr ++ (body ++ join bs) =
          is ∙ ap (λ (z : Bytes). z ++ join bs) (sym split) ∙ append_assoc hdr body (join bs) in
        rw split at (
          run_round bs fuel hdr body server p size
            (omega (arith, w.size, same, length-drop header_size b)) (omega (arith, same, w.fits))
            bytes h
            (λ t q left hq.
              run_loop-Relays bs fuel t q all left
                (omega (arith, w.size, length-append b (join bs))) hq))

    pub run-Relays :
        (bs : List Bytes) (server : Source) (p : Pump R)
        → All IsWire bs
        → join server.chunks ≡ join bs
        → TakesAll p
        → Relays bs p (run rand o server p)
    unfolding run
    run-Relays bs server p all is h =
        run_loop-Relays bs (suc (length (join server.chunks))) server p all is
          (omega (arith, ap length is)) h

    -- Whole frames of a server that go through the relay, with any pieces and any noise, to a
    -- client that takes everything: a reader of what the relay has written reads the same frames,
    -- and ends with the same error, as one that reads the server's bytes. What math/rand promises
    -- is a hypothesis.
    pub run_transparent :
        (bs : List Bytes) (server : Source) (p : Pump R) (m : ℕ) (client : Source)
        → All IsWire bs
        → join server.chunks ≡ join bs
        → TakesAll p
        → p.out.written ≡ []
        → join client.chunks ≡ (run rand o server p).out.written
        → client.fault ≡ server.fault
        → read_all m client ≡ read_all m server
    run_transparent bs server p m client all is h fresh comes same =
        let relays = run-Relays bs server p all is h in
        let wire : join client.chunks ≡ relays.wire =
          comes ∙ relays.out ∙ ap (λ (z : Bytes). z ++ relays.wire) fresh in
        sym (read_all-Woven m server client relays.woven all is wire (sym same))

  -- A server's stream that ends inside the payload of its first frame: the relay writes a whole
  -- frame, with zero bytes for those that never came, to a client that takes everything.
  pub run-cut :
      (hdr got : Bytes) (server : Source) (p : Pump R)
      → length hdr ≡ header_size
      → be_u32 hdr ≤ max_payload
      → length got < be_u32 hdr
      → join server.chunks ≡ hdr ++ got
      → TakesAll p
      → ((run rand o server p).out.written ≡ p.out.written ++ (hdr ++ padded (be_u32 hdr) got))
        × IsWire (hdr ++ padded (be_u32 hdr) got)
  unfolding run run_loop
  run-cut hdr got server p size fits short is h =
      let (s, r, left) = read_full-front header_size server hdr got is size in
      let (e, u, r') = read_full-short (be_u32 hdr) s got left short in
      let small : ltb max_payload (be_u32 hdr) ≡ false = ground arith in
      let sent = send-Sent rand o (hdr ++ padded (be_u32 hdr) got) p h in
      let whole : length (padded (be_u32 hdr) got) ≡ be_u32 hdr = omega (
        arith,
        length-append got (replicate (be_u32 hdr - length got) 0),
        length-replicate {A = ℕ} (be_u32 hdr - length got) 0,
      ) in
      let same = be_u32-append hdr (padded (be_u32 hdr) got) (omega (arith, size)) in
      (
        rw r (rw small (rw r' (rw left (rw sent.result sent.written)))),
        record {
          fits = omega (arith, same, fits);
          size = omega (arith, same, size, whole, length-append hdr (padded (be_u32 hdr) got));
        },
      )
