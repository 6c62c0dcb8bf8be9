-- ===== src/Server/Lifecycle/Dropped.antt =====
-- What Close drops: behind it, each connection that is still tracked has been closed by the server, so
-- that its handler does not wait for the peer.
use bhttp_1_http_in_binary.Base.{
  ℕ, ◌≡◌, refl, arith, true, Bool-cases, inl, inr, ◌⊎◌, List, [], ◌∷◌, ◌++◌, ◌==◌, false, All,
}
use bhttp_1_http_in_binary.Server.Lifecycle.{
  Running, new_server, is_tracked, admit, delete_conn, lower_current, finish_handler, end_loop,
  close_all, forget, Step, accepts, ends, deletes, lowers, finishes, closes, Reaches, here,
  then_step,
}

-- Each connection that is still tracked has been closed by the server.
abbrev pub AllDropped : Running → Type 0
AllDropped s = All (λ c. is_tracked c s.dropped ≡ true) s.conns

is_tracked-append :
    (x : ℕ) (es ds : List ℕ) → is_tracked x ds ≡ true → is_tracked x (es ++ ds) ≡ true
unfolding is_tracked
is_tracked-append x [] ds h = h
is_tracked-append x (e ∷ es) ds h = ground (arith, is_tracked-append x es ds h)

All-more :
    (xs ds es : List ℕ)
    → All (λ c. is_tracked c ds ≡ true) xs
    → All (λ c. is_tracked c (es ++ ds) ≡ true) xs
All-more [] ds es h = tt
All-more (x ∷ xs) ds es (first, h) = (is_tracked-append x es ds first, All-more xs ds es h)

All-forget :
    (c : ℕ) (xs ds : List ℕ)
    → All (λ x. is_tracked x ds ≡ true) xs
    → All (λ x. is_tracked x ds ≡ true) (forget c xs)
unfolding forget
All-forget c [] ds h = tt
All-forget c (x ∷ xs) ds (first, h) = elim (Bool-cases (c == x)) [
  | inl same ↦ rw same (All-forget c xs ds h)
  | inr other ↦ rw other (first, All-forget c xs ds h)
]

All-tracked : (xs ds : List ℕ) → All (λ c. is_tracked c (xs ++ ds) ≡ true) xs
unfolding is_tracked
All-tracked [] ds = tt
All-tracked (x ∷ xs) ds = (ground arith, All-more xs (xs ++ ds) (x ∷ []) (All-tracked xs ds))

-- Close has dropped what was tracked, and nothing is tracked behind it.
Step-AllDropped :
    {s t : Running}
    → Step s t
    → (s.closed ≡ false) ⊎ AllDropped s
    → (t.closed ≡ false) ⊎ AllDropped t
unfolding admit end_loop delete_conn lower_current finish_handler close_all
Step-AllDropped {s} (accepts c new) h = elim (Bool-cases s.closed) [
  | inr up ↦ rw up (inl refl)
  | inl shut ↦ elim h [
    | inl up ↦ absurd (cc (shut, up))
    | inr all ↦ rw shut (inr (All-more s.conns s.dropped (c ∷ []) all))
  ]
]
Step-AllDropped (ends c there) h = h
Step-AllDropped {s} (deletes c there over) (inl up) = inl up
Step-AllDropped {s} (deletes c there over) (inr all) = inr (All-forget c s.conns s.dropped all)
Step-AllDropped (lowers some_left) h = h
Step-AllDropped (finishes some_left) h = h
Step-AllDropped {s} closes h = inr (All-tracked s.conns s.dropped)

Reaches-AllDropped :
    {s t : Running}
    → Reaches s t
    → (s.closed ≡ false) ⊎ AllDropped s
    → (t.closed ≡ false) ⊎ AllDropped t
Reaches-AllDropped here h = h
Reaches-AllDropped (then_step r e) h = Step-AllDropped e (Reaches-AllDropped r h)

pub Reaches-both : {s t u : Running} → Reaches s t → Reaches t u → Reaches s u
Reaches-both r here = r
Reaches-both r (then_step l e) = then_step (Reaches-both r l) e

pub new_server-AllDropped : (s : Running) → Reaches new_server s → s.closed ≡ true → AllDropped s
new_server-AllDropped s r shut = elim (Reaches-AllDropped r (inl refl)) [
  | inl up ↦ absurd (cc (shut, up))
  | inr all ↦ all
]
