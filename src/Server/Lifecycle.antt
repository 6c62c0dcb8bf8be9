-- ===== src/Server/Lifecycle.antt =====
-- Serve, Close, track and untrack of internal/server/server.go: the set of open connections. Each of
-- the server's goroutines moves in steps that others can come between: what is done under the lock is
-- one step, and `untrack` has three.
pub mod Waiting
pub mod Dropped
pub mod Draining
pub mod Serving
use bhttp_1_http_in_binary.Base.{
  ℕ, zero, suc, ◌+◌, ◌-◌, ◌<◌, ◌≡◌, Bool, true, false, List, [], ◌∷◌, ◌++◌, ◌==◌, ◌||◌,
  if◌then◌else◌,
}

-- Connections have numbers. `dropped` are those that Close or Serve has closed, from outside of their
-- handler; `ended` are those whose handler has left its loop by itself, as the peer has ended the
-- connection, or it has been idle for too long, or something was wrong with it. `leaving` counts the handlers that have deleted theirs and not lowered the counter yet, and
-- `finishing` those that have, and are not done.
pub record Running : Type 0 where
  pub closed : Bool
  pub conns : List ℕ
  pub current : ℕ
  pub group : ℕ
  pub dropped : List ℕ
  pub ended : List ℕ
  pub leaving : ℕ
  pub finishing : ℕ

abbrev pub new_server : Running
new_server = record {
  closed = false;
  conns = [];
  current = 0;
  group = 0;
  dropped = [];
  ended = [];
  leaving = 0;
  finishing = 0;
}

unfoldable pub is_tracked : ℕ → List ℕ → Bool
is_tracked c [] = false
is_tracked c (x ∷ xs) = c == x || is_tracked c xs

-- A connection that Accept has returned before.
abbrev pub was_accepted : ℕ → Running → Bool
was_accepted c s = is_tracked c s.conns || (is_tracked c s.dropped || is_tracked c s.ended)

-- The handler of this one does not wait for its peer any more: its loop has ended, or each Read and
-- Write fails from now on, and it is at `untrack` next. Any other may be blocked in a Read.
abbrev pub is_over : ℕ → Running → Bool
is_over c s = is_tracked c s.dropped || is_tracked c s.ended

-- delete(s.conns, c)
unfoldable pub forget : ℕ → List ℕ → List ℕ
forget c [] = []
forget c (x ∷ xs) = let rest = forget c xs in if c == x then rest else x ∷ rest

-- `track`, and what Serve does with a connection that it does not take.
unfoldable pub admit : ℕ → Running → Running
admit c s =
    if s.closed
    then record s { dropped = c ∷ s.dropped }
    else record s { conns = c ∷ s.conns; current = s.current + 1; group = s.group + 1 }

-- The loop of `handle` returns, up to `untrack`.
unfoldable pub end_loop : ℕ → Running → Running
end_loop c s = record s { ended = c ∷ s.ended }

-- The three steps of `untrack`.
unfoldable pub delete_conn : ℕ → Running → Running
unfolding forget
delete_conn c s = record s { conns = forget c s.conns; leaving = s.leaving + 1 }

unfoldable pub lower_current : Running → Running
lower_current s = record s {
  current = s.current - 1;
  leaving = s.leaving - 1;
  finishing = s.finishing + 1;
}

unfoldable pub finish_handler : Running → Running
finish_handler s = record s { group = s.group - 1; finishing = s.finishing - 1 }

-- `Close`, up to its wait.
unfoldable pub close_all : Running → Running
close_all s = record s { closed = true; dropped = s.conns ++ s.dropped }

pub data Step (s : Running) : Running → Type 0 where
  accepts : (c : ℕ) → was_accepted c s ≡ false → Step s (admit c s)
  ends : (c : ℕ) → is_tracked c s.conns ≡ true → Step s (end_loop c s)
  deletes : (c : ℕ) → is_tracked c s.conns ≡ true → is_over c s ≡ true → Step s (delete_conn c s)
  lowers : 0 < s.leaving → Step s (lower_current s)
  finishes : 0 < s.finishing → Step s (finish_handler s)
  closes : Step s (close_all s)

pub data Reaches (s : Running) : Running → Type 0 where
  here : Reaches s s
  then_step : {t u : Running} → Reaches s t → Step t u → Reaches s u
