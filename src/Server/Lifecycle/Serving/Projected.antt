-- ===== src/Server/Lifecycle/Serving/Projected.antt =====
-- With Serve and its listener forgotten, the server moves as in Lifecycle, so that what holds of all
-- runs there holds here.
use bhttp_1_http_in_binary.Base.{
  ℕ, [], ◌≡◌, refl, sym, subst, Bool, true, false, Bool-cases, inl, inr, ◌||◌,
}
use bhttp_1_http_in_binary.Server.Lifecycle.{
  Running, new_server, Step, Reaches, here, then_step, admit,
}
use bhttp_1_http_in_binary.Server.Lifecycle
use bhttp_1_http_in_binary.Server.Lifecycle.Waiting.{close_waits}
use bhttp_1_http_in_binary.Server.Lifecycle.Serving.{
  Serving, new_serving, start, accept_fails, accept_conn, close_lock, close_listener, ServeStep,
  starts, fails, finds_closed, gets, OtherStep, ends_loop, deletes_conn, lowers_current,
  handler_done, locks, closes_listener, Serves, then_serve, then_other,
}

start-server : (s : Serving) → (start s).server ≡ s.server
unfolding start
start-server s = elim (Bool-cases s.server.closed) [ inl e ↦ rw e refl | inr e ↦ rw e refl ]

accept_fails-server : (b : Bool) (s : Serving) → (accept_fails b s).server ≡ s.server
unfolding accept_fails
accept_fails-server b s = elim (Bool-cases (s.server.closed || b)) [
  | inl e ↦ rw e refl
  | inr e ↦ rw e refl
]

accept_conn-server : (c : ℕ) (s : Serving) → (accept_conn c s).server ≡ admit c s.server
unfolding accept_conn admit
accept_conn-server c s = elim (Bool-cases s.server.closed) [ inl e ↦ rw e refl | inr e ↦ rw e refl ]

module _ {r : Running} where
  stays : {s t : Running} → t ≡ s → Reaches r s → Reaches r t
  stays e run = subst (Reaches r) (sym e) run

  ServeStep-Reaches : {s t : Serving} → ServeStep s t → Reaches r s.server → Reaches r t.server
  ServeStep-Reaches {s} (starts at) run = stays (start-server s) run
  ServeStep-Reaches {s} (fails at) run = stays (accept_fails-server false s) run
  ServeStep-Reaches {s} (finds_closed at gone) run = stays (accept_fails-server true s) run
  ServeStep-Reaches {s} (gets c at new) run =
      stays (accept_conn-server c s) (then_step run (Lifecycle.accepts c new))

  OtherStep-Reaches : {s t : Serving} → OtherStep s t → Reaches r s.server → Reaches r t.server
  unfolding close_lock close_listener
  OtherStep-Reaches (ends_loop c there) run = then_step run (Lifecycle.ends c there)
  OtherStep-Reaches (deletes_conn c there over) run = then_step run (Lifecycle.deletes c there over)
  OtherStep-Reaches (lowers_current some_left) run = then_step run (Lifecycle.lowers some_left)
  OtherStep-Reaches (handler_done some_left) run = then_step run (Lifecycle.finishes some_left)
  OtherStep-Reaches locks run = then_step run Lifecycle.closes
  OtherStep-Reaches (closes_listener some_left) run = run

  Serves-Reaches : {s t : Serving} → Serves s t → Reaches r s.server → Reaches r t.server
  Serves-Reaches Serves.here run = run
  Serves-Reaches (then_serve run e) start_run = ServeStep-Reaches e (Serves-Reaches run start_run)
  Serves-Reaches (then_other run e) start_run = OtherStep-Reaches e (Serves-Reaches run start_run)

-- With the loop of Serve and the listener in it, too: once the server is closed and the wait group
-- of Close is at 0, no connection is tracked and no handler counted, whatever comes after.
pub serving_close_waits :
    (s t : Serving)
    → Serves new_serving s
    → s.server.closed ≡ true
    → s.server.group ≡ 0
    → Serves s t
    → (t.server.conns ≡ []) × (t.server.current ≡ 0) × (t.server.group ≡ 0)
serving_close_waits s t reached shut done later =
    close_waits s.server t.server (Serves-Reaches reached Reaches.here) shut done
      (Serves-Reaches later Reaches.here)
