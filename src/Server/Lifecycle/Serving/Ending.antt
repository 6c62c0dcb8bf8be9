-- ===== src/Server/Lifecycle/Serving/Ending.antt =====
-- How Serve comes to its end behind Close.
use bhttp_1_http_in_binary.Base.{
  ℕ, ◌+◌, ◌<◌, ◌≡◌, refl, arith, Bool, true, false, Bool-cases, inl, inr, ◌⊎◌, ◌||◌, if◌then◌else◌,
}
use bhttp_1_http_in_binary.Server.Lifecycle.{
  admit, end_loop, close_all, delete_conn, lower_current, finish_handler,
}
use bhttp_1_http_in_binary.Server.Lifecycle.Serving.{
  Loop, starting, accepting, returned, Serving, new_serving, start, accept_fails, accept_conn,
  close_lock, close_listener, ServeStep, starts, fails, finds_closed, gets, OtherStep, ends_loop,
  deletes_conn, lowers_current, handler_done, locks, closes_listener, Serves, here, then_serve,
  then_other,
}

abbrev is_starting : Loop → Bool
is_starting starting = true
is_starting accepting = false
is_starting returned = false

-- While the listener is still open behind Close, a call of Close is about to close it, or Serve has
-- not begun.
record IsSound (s : Serving) : Type 0 where
  known : (is_starting s.loop ≡ true) ⊎ (s.listening ≡ false) ⊎ (s.registered ≡ true)
  closes :
      (is_starting s.loop ≡ true)
      ⊎ (s.listening ≡ false)
      ⊎ (s.server.closed ≡ false)
      ⊎ (0 < s.closing)

start-IsSound : (s : Serving) → IsSound s → IsSound (start s)
unfolding start
start-IsSound s h = elim (Bool-cases s.server.closed) [
  | inl shut ↦ rw shut (record { known = inr (inl refl); closes = inr (inl refl) })
  | inr up ↦ rw up (record { known = inr (inr refl); closes = inr (inr (inl refl)) })
]

-- What a turn of the loop leaves as it was.
record SameListener (s t : Serving) : Type 0 where
  listening : t.listening ≡ s.listening
  registered : t.registered ≡ s.registered
  closing : t.closing ≡ s.closing
  closed : t.server.closed ≡ s.server.closed

SameListener-IsSound :
    (s t : Serving) → s.loop ≡ accepting → SameListener s t → IsSound s → IsSound t
SameListener-IsSound s t at same h = record {
  known = ground (arith, h.known, same.listening, same.registered);
  closes = ground (arith, h.closes, same.listening, same.closed, same.closing);
}

accept_fails-SameListener : (b : Bool) (s : Serving) → SameListener s (accept_fails b s)
unfolding accept_fails
accept_fails-SameListener b s = elim (Bool-cases (s.server.closed || b)) [
  | inl e ↦ rw e (record { listening = refl; registered = refl; closing = refl; closed = refl })
  | inr e ↦ rw e (record { listening = refl; registered = refl; closing = refl; closed = refl })
]

accept_conn-SameListener : (c : ℕ) (s : Serving) → SameListener s (accept_conn c s)
unfolding accept_conn admit
accept_conn-SameListener c s = record {
  listening = ground arith;
  registered = ground arith;
  closing = ground arith;
  closed = ground arith;
}

ServeStep-IsSound : {s t : Serving} → ServeStep s t → IsSound s → IsSound t
ServeStep-IsSound {s} (starts at) h = start-IsSound s h
ServeStep-IsSound {s} (fails at) h =
    SameListener-IsSound s _ at (accept_fails-SameListener false s) h
ServeStep-IsSound {s} (finds_closed at gone) h =
    SameListener-IsSound s _ at (accept_fails-SameListener true s) h
ServeStep-IsSound {s} (gets c at new) h =
    SameListener-IsSound s _ at (accept_conn-SameListener c s) h

lock_closes :
    (s : Serving)
    → IsSound s
    → (is_starting s.loop ≡ true)
      ⊎ (s.listening ≡ false)
      ⊎ (0 < (if s.registered then s.closing + 1 else s.closing))
lock_closes s h = ground (arith, h.known)

OtherStep-IsSound : {s t : Serving} → OtherStep s t → IsSound s → IsSound t
unfolding close_lock close_listener close_all end_loop delete_conn lower_current finish_handler
OtherStep-IsSound (ends_loop c there) h = record { known = h.known; closes = h.closes }
OtherStep-IsSound (deletes_conn c there over) h = record { known = h.known; closes = h.closes }
OtherStep-IsSound (lowers_current some_left) h = record { known = h.known; closes = h.closes }
OtherStep-IsSound (handler_done some_left) h = record { known = h.known; closes = h.closes }
OtherStep-IsSound {s} locks h = record {
  known = h.known;
  closes = elim (lock_closes s h) [
    | inl a ↦ inl a
    | inr (inl b) ↦ inr (inl b)
    | inr (inr c) ↦ inr (inr (inr c))
  ];
}
OtherStep-IsSound (closes_listener some_left) h = record {
  known = inr (inl refl);
  closes = inr (inl refl);
}

Serves-IsSound : {s t : Serving} → Serves s t → IsSound s → IsSound t
Serves-IsSound here h = h
Serves-IsSound (then_serve r e) h = ServeStep-IsSound e (Serves-IsSound r h)
Serves-IsSound (then_other r e) h = OtherStep-IsSound e (Serves-IsSound r h)

-- The next step of Serve is the last one, and takes no connection.
abbrev pub Ends : Serving → Serving → Type 0
Ends s t =
    (t.loop ≡ returned)
    × (t.listening ≡ false)
    × (t.server.conns ≡ s.server.conns)
    × (t.server.group ≡ s.server.group)

not_starting :
    (s : Serving)
    → s.loop ≡ accepting
    → (is_starting s.loop ≡ true) ⊎ (s.listening ≡ false)
    → s.listening ≡ false
not_starting s at gone = ground arith

ServeStep-Ends :
    {s t : Serving}
    → ServeStep s t
    → s.server.closed ≡ true
    → (is_starting s.loop ≡ true) ⊎ (s.listening ≡ false)
    → Ends s t
unfolding start accept_fails accept_conn admit
ServeStep-Ends {s} (starts at) shut gone = rw shut (refl, refl, refl, refl)
ServeStep-Ends {s} (fails at) shut gone = rw shut (refl, not_starting s at gone, refl, refl)
ServeStep-Ends {s} (finds_closed at is_gone) shut gone = rw shut (refl, is_gone, refl, refl)
ServeStep-Ends {s} (gets c at new) shut gone = rw shut (refl, not_starting s at gone, refl, refl)

new_serving-IsSound : IsSound new_serving
new_serving-IsSound = record { known = inl refl; closes = inl refl }

-- The listener is closed by the time that no call of Close has one to close any more.
closed_by_then :
    (s : Serving)
    → IsSound s
    → s.server.closed ≡ true
    → s.closing ≡ 0
    → (is_starting s.loop ≡ true) ⊎ (s.listening ≡ false)
closed_by_then s h shut none_left = ground (arith, h.closes)

-- However Serve, the handlers and calls of Close interleave: once the server is closed, and each
-- call of Close that has seen the listener has closed it, the next step of Serve, whatever Accept
-- returns then, is its last one; the listener is closed behind it, also if Serve had not begun,
-- and no connection has been taken.
pub serve-Ends :
    (s t : Serving)
    → Serves new_serving s
    → s.server.closed ≡ true
    → s.closing ≡ 0
    → ServeStep s t
    → Ends s t
serve-Ends s t reached shut none_left e =
    ServeStep-Ends e shut
      (closed_by_then s (Serves-IsSound reached new_serving-IsSound) shut none_left)
