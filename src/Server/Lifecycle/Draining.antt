-- ===== src/Server/Lifecycle/Draining.antt =====
-- That the wait of Close comes to its end: the handlers have only so many steps left, and one of
-- them can move until all are done.
use bhttp_1_http_in_binary.Base.{
  ap, ℕ, ◌+◌, ◌*◌, ◌≡◌, ◌≤◌, ◌<◌, refl, arith, true, Bool-cases, inl, inr, ◌⊎◌, List, [], ◌∷◌, ◌==◌,
  length,
}
use bhttp_1_http_in_binary.Server.Lifecycle.{
  Running, new_server, is_tracked, admit, delete_conn, lower_current, finish_handler, end_loop,
  close_all, Step, accepts, ends, deletes, lowers, finishes, closes, Reaches, here, then_step,
}
use bhttp_1_http_in_binary.Server.Lifecycle.Waiting.{
  Counts, Reaches-Counts, length-forget, new_server-Counts,
}
use bhttp_1_http_in_binary.Server.Lifecycle.Dropped.{
  AllDropped, Reaches-both, new_server-AllDropped,
}

-- The steps that the handlers have left: three for a connection that is tracked, two behind its
-- deletion, one behind the counter.
abbrev pub steps_left : Running → ℕ
steps_left s = 3 * length s.conns + (2 * s.leaving + s.finishing)

-- The steps of the handlers in a run, without those that wait for something outside of the server.
abbrev handler_moves : {s t : Running} → Step s t → ℕ
handler_moves (accepts c new) = 0
handler_moves (ends c there) = 0
handler_moves (deletes c there over) = 1
handler_moves (lowers some_left) = 1
handler_moves (finishes some_left) = 1
handler_moves closes = 0

abbrev pub count_moves : {s t : Running} → Reaches s t → ℕ
count_moves here = 0
count_moves (then_step r e) = count_moves r + handler_moves e

Step-closed : {s t : Running} → Step s t → s.closed ≡ true → t.closed ≡ true
unfolding admit end_loop delete_conn lower_current finish_handler close_all
Step-closed (accepts c new) shut = rw shut refl
Step-closed (ends c there) shut = shut
Step-closed (deletes c there over) shut = shut
Step-closed (lowers some_left) shut = shut
Step-closed (finishes some_left) shut = shut
Step-closed closes shut = refl

Reaches-closed : {s t : Running} → Reaches s t → s.closed ≡ true → t.closed ≡ true
Reaches-closed here shut = shut
Reaches-closed (then_step r e) shut = Step-closed e (Reaches-closed r shut)

-- A step of a handler uses one up, and no other step adds one to a closed server.
Step-steps_left :
    {s t : Running} (e : Step s t)
    → Counts s
    → s.closed ≡ true
    → handler_moves e + steps_left t ≤ steps_left s
unfolding admit end_loop delete_conn lower_current finish_handler close_all
Step-steps_left (accepts c new) h shut = rw shut (omega arith)
Step-steps_left (ends c there) h shut = omega arith
Step-steps_left {s} (deletes c there over) h shut =
    omega (arith, length-forget c s.conns h.distinct there)
Step-steps_left (lowers some_left) h shut = omega arith
Step-steps_left (finishes some_left) h shut = omega arith
Step-steps_left closes h shut = omega arith

Reaches-steps_left :
    {s t : Running} (r : Reaches s t)
    → Counts s
    → s.closed ≡ true
    → count_moves r + steps_left t ≤ steps_left s
Reaches-steps_left here h shut = omega arith
Reaches-steps_left (then_step r e) h shut = omega (
  arith,
  Reaches-steps_left r h shut,
  Step-steps_left e (Reaches-Counts r h) (Reaches-closed r shut),
)

-- A step that a handler can make, whatever its peer does.
abbrev pub HandlerMoves : Running → Type 0
HandlerMoves s = (t : Running) × (e : Step s t) × (handler_moves e ≡ 1)

first_tracked : (c : ℕ) (cs : List ℕ) → is_tracked c (c ∷ cs) ≡ true
unfolding is_tracked
first_tracked c cs = ground arith

some_handler :
    (s : Running) (cs : List ℕ)
    → s.conns ≡ cs
    → Counts s
    → AllDropped s
    → 0 < s.group
    → HandlerMoves s
some_handler s (c ∷ cs) is h all waits =
    let there : is_tracked c s.conns ≡ true = rw is (first_tracked c cs) in
    let dropped : is_tracked c s.dropped ≡ true = (rw is at all).0 in
    (delete_conn c s, deletes c there (rw dropped refl), refl)
some_handler s [] is h all waits = elim (Bool-cases (s.leaving == 0)) [
  | inl none_leaving ↦ (finish_handler s, finishes (ground (arith, h.group_is, ap length is)), refl)
  | inr leaving ↦ (lower_current s, lowers (ground arith), refl)
]

-- However the goroutines of a server interleave, and however it goes on after Close has closed it:
-- the handlers make at most the steps that they had left at that time, three for each connection
-- that was tracked, two for one that was deleted, and one for one that was no longer counted. Each
-- connection that is still tracked has been closed by the server, and either the wait group is at
-- 0 or a handler can make one of these steps, without its peer ending the connection or a deadline
-- passing.
pub close_ends :
    (s t : Running)
    → Reaches new_server s
    → s.closed ≡ true
    → (r : Reaches s t)
    → (count_moves r + steps_left t ≤ steps_left s)
      × ((t.group ≡ 0) ⊎ HandlerMoves t)
      × AllDropped t
close_ends s t reached shut r =
    let h = Reaches-Counts reached new_server-Counts in
    let all = new_server-AllDropped t (Reaches-both reached r) (Reaches-closed r shut) in
    (
      Reaches-steps_left r h shut,
      elim (Bool-cases (t.group == 0)) [
        | inl done ↦ inl (ground arith)
        | inr waits ↦ inr (some_handler t t.conns refl (Reaches-Counts r h) all (ground arith))
      ],
      all,
    )
