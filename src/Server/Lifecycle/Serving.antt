-- ===== src/Server/Lifecycle/Serving.antt =====
-- Serve with its listener, and Close with what it does behind the lock. Other goroutines move in
-- between. What the listener does is documented behaviour of the package net: once it is closed, Accept
-- returns net.ErrClosed, and does so in no other case.
pub mod Ending
pub mod Projected
use bhttp_1_http_in_binary.Base.{ℕ, ◌+◌, ◌-◌, ◌<◌, ◌≡◌, Bool, true, false, ◌||◌, if◌then◌else◌}
use bhttp_1_http_in_binary.Server.Lifecycle.{
  Running, new_server, is_tracked, was_accepted, is_over, admit, close_all, end_loop, delete_conn,
  lower_current, finish_handler,
}

-- Where Serve is: in front of its first lock, in Accept, or back.
pub data Loop : Type 0 where
  starting accepting returned : Loop

-- `registered` is `s.lis != nil`; `closing` counts the calls of Close that have seen a listener and
-- have not closed it yet.
pub record Serving : Type 0 where
  pub server : Running
  pub loop : Loop
  pub listening : Bool
  pub registered : Bool
  pub closing : ℕ

abbrev pub new_serving : Serving
new_serving = record {
  server = new_server;
  loop = starting;
  listening = true;
  registered = false;
  closing = 0;
}

-- Serve up to its loop.
unfoldable pub start : Serving → Serving
start s =
    if s.server.closed
    then record s { loop = returned; listening = false }
    else record s { loop = accepting; registered = true }

-- Accept has failed; the argument says whether with net.ErrClosed.
unfoldable pub accept_fails : Bool → Serving → Serving
accept_fails is_closed s =
    if s.server.closed || is_closed
    then record s { loop = returned }
    else record s { loop = accepting }

-- Accept has returned a connection.
unfoldable pub accept_conn : ℕ → Serving → Serving
unfolding admit
accept_conn c s =
    let t = record s { server = admit c s.server } in
    if s.server.closed then record t { loop = returned } else t

-- Close under its lock, and behind it.
unfoldable pub close_lock : Serving → Serving
unfolding close_all
close_lock s = record s {
  server = close_all s.server;
  closing = if s.registered then s.closing + 1 else s.closing;
}

unfoldable pub close_listener : Serving → Serving
close_listener s = record s { listening = false; closing = s.closing - 1 }

-- A step of Serve.
pub data ServeStep (s : Serving) : Serving → Type 0 where
  starts : s.loop ≡ starting → ServeStep s (start s)
  fails : s.loop ≡ accepting → ServeStep s (accept_fails false s)
  finds_closed : s.loop ≡ accepting → s.listening ≡ false → ServeStep s (accept_fails true s)
  gets :
      (c : ℕ) → s.loop ≡ accepting → was_accepted c s.server ≡ false → ServeStep s (accept_conn c s)

-- A step of a handler, or of Close.
pub data OtherStep (s : Serving) : Serving → Type 0 where
  ends_loop :
      (c : ℕ)
      → is_tracked c s.server.conns ≡ true
      → OtherStep s (record s { server = end_loop c s.server })
  deletes_conn :
      (c : ℕ)
      → is_tracked c s.server.conns ≡ true
      → is_over c s.server ≡ true
      → OtherStep s (record s { server = delete_conn c s.server })
  lowers_current : 0 < s.server.leaving → OtherStep s (record s { server = lower_current s.server })
  handler_done :
      0 < s.server.finishing → OtherStep s (record s { server = finish_handler s.server })
  locks : OtherStep s (close_lock s)
  closes_listener : 0 < s.closing → OtherStep s (close_listener s)

pub data Serves (s : Serving) : Serving → Type 0 where
  here : Serves s s
  then_serve : {t u : Serving} → Serves s t → ServeStep t u → Serves s u
  then_other : {t u : Serving} → Serves s t → OtherStep t u → Serves s u
