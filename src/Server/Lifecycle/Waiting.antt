-- ===== src/Server/Lifecycle/Waiting.antt =====
-- What Close waits for, and that nothing comes after it.
use bhttp_1_http_in_binary.Base.{
  ℕ, suc, ◌+◌, ◌≡◌, refl, arith, true, false, Bool-cases, inl, inr, List, [], ◌∷◌, ◌==◌, length, ap,
}
use bhttp_1_http_in_binary.Server.Lifecycle.{
  Running, new_server, is_tracked, forget, admit, delete_conn, lower_current, finish_handler,
  end_loop, close_all, Step, accepts, ends, deletes, lowers, finishes, closes, Reaches, here,
  then_step,
}

-- No connection is there twice.
abbrev pub IsDistinct : List ℕ → Type 0
IsDistinct [] = Unit {0}
IsDistinct (x ∷ xs) = (is_tracked x xs ≡ false) × IsDistinct xs

-- The counters count the handlers that have not come to them yet.
pub record Counts (s : Running) : Type 0 where
  pub distinct : IsDistinct s.conns
  pub current_is : s.current ≡ length s.conns + s.leaving
  pub group_is : s.group ≡ length s.conns + s.leaving + s.finishing

forget-absent : (c : ℕ) (xs : List ℕ) → is_tracked c xs ≡ false → forget c xs ≡ xs
unfolding forget is_tracked
forget-absent c [] h = refl
forget-absent c (x ∷ xs) h =
    let other : (c == x) ≡ false = ground arith in
    rw (other, forget-absent c xs (ground arith)) refl

pub length-forget :
    (c : ℕ) (xs : List ℕ)
    → IsDistinct xs
    → is_tracked c xs ≡ true
    → suc (length (forget c xs)) ≡ length xs
unfolding forget is_tracked
length-forget c [] d h = absurd (ground arith)
length-forget c (x ∷ xs) (new, d) h = elim (Bool-cases (c == x)) [
  | inl same ↦
      let is : c ≡ x = ground arith in
      let absent : is_tracked c xs ≡ false = rw is new in rw (same, forget-absent c xs absent) refl
  | inr other ↦ rw other (ap suc (length-forget c xs d (ground arith)))
]

forget-keeps :
    (c x : ℕ) (xs : List ℕ) → is_tracked x xs ≡ false → is_tracked x (forget c xs) ≡ false
unfolding forget is_tracked
forget-keeps c x [] h = refl
forget-keeps c x (y ∷ ys) h = ground (arith, forget-keeps c x ys)

forget-IsDistinct : (c : ℕ) (xs : List ℕ) → IsDistinct xs → IsDistinct (forget c xs)
unfolding forget
forget-IsDistinct c [] d = tt
forget-IsDistinct c (x ∷ xs) (new, d) = elim (Bool-cases (c == x)) [
  | inl same ↦ rw same (forget-IsDistinct c xs d)
  | inr other ↦ rw other (forget-keeps c x xs new, forget-IsDistinct c xs d)
]

pub Step-Counts : {s t : Running} → Step s t → Counts s → Counts t
unfolding end_loop admit delete_conn lower_current finish_handler close_all
Step-Counts {s} (accepts c new) h = elim (Bool-cases s.closed) [
  | inl shut ↦
      rw shut (record { distinct = h.distinct; current_is = h.current_is; group_is = h.group_is })
  | inr still_up ↦ rw still_up (record {
    distinct = (ground arith, h.distinct);
    current_is = omega (arith, h.current_is);
    group_is = omega (arith, h.group_is);
  })
]
Step-Counts (ends c there) h = record {
  distinct = h.distinct;
  current_is = h.current_is;
  group_is = h.group_is;
}
Step-Counts {s} (deletes c there over) h =
    let n = length-forget c s.conns h.distinct there in
    record {
      distinct = forget-IsDistinct c s.conns h.distinct;
      current_is = omega (arith, n, h.current_is);
      group_is = omega (arith, n, h.group_is);
    }
Step-Counts (lowers some_left) h = record {
  distinct = h.distinct;
  current_is = omega (arith, h.current_is);
  group_is = omega (arith, h.group_is);
}
Step-Counts (finishes some_left) h = record {
  distinct = h.distinct;
  current_is = h.current_is;
  group_is = omega (arith, h.group_is);
}
Step-Counts closes h = record {
  distinct = h.distinct;
  current_is = h.current_is;
  group_is = h.group_is;
}

pub new_server-Counts : Counts new_server
new_server-Counts = record { distinct = tt; current_is = refl; group_is = refl }

pub Reaches-Counts : {s t : Running} → Reaches s t → Counts s → Counts t
Reaches-Counts here h = h
Reaches-Counts (then_step r e) h = Step-Counts e (Reaches-Counts r h)

-- The wait of Close is over.
pub record IsQuiet (s : Running) : Type 0 where
  pub shut : s.closed ≡ true
  pub none_tracked : s.conns ≡ []
  pub no_current : s.current ≡ 0
  pub all_done : s.group ≡ 0
  pub none_leaving : s.leaving ≡ 0
  pub none_finishing : s.finishing ≡ 0

length-zero : (xs : List ℕ) → length xs ≡ 0 → xs ≡ []
length-zero [] h = refl
length-zero (x ∷ xs) h = absurd (omega arith)

Counts-IsQuiet : {s : Running} → Counts s → s.closed ≡ true → s.group ≡ 0 → IsQuiet s
Counts-IsQuiet {s} h shut done = record {
  shut = shut;
  none_tracked = length-zero s.conns (omega (arith, h.group_is));
  no_current = omega (arith, h.group_is, h.current_is);
  all_done = done;
  none_leaving = omega (arith, h.group_is);
  none_finishing = omega (arith, h.group_is);
}

Step-IsQuiet : {s t : Running} → Step s t → IsQuiet s → IsQuiet t
unfolding admit end_loop close_all is_tracked
Step-IsQuiet (accepts c new) q = rw q.shut (record {
  shut = refl;
  none_tracked = q.none_tracked;
  no_current = q.no_current;
  all_done = q.all_done;
  none_leaving = q.none_leaving;
  none_finishing = q.none_finishing;
})
Step-IsQuiet (ends c there) q = absurd (ground (arith, (rw q.none_tracked at there)))
Step-IsQuiet (deletes c there over) q = absurd (ground (arith, (rw q.none_tracked at there)))
Step-IsQuiet (lowers some_left) q = absurd (omega (arith, q.none_leaving))
Step-IsQuiet (finishes some_left) q = absurd (omega (arith, q.none_finishing))
Step-IsQuiet closes q = record {
  shut = refl;
  none_tracked = q.none_tracked;
  no_current = q.no_current;
  all_done = q.all_done;
  none_leaving = q.none_leaving;
  none_finishing = q.none_finishing;
}

Reaches-IsQuiet : {s t : Running} → Reaches s t → IsQuiet s → IsQuiet t
Reaches-IsQuiet here q = q
Reaches-IsQuiet (then_step r e) q = Step-IsQuiet e (Reaches-IsQuiet r q)

-- However the goroutines of a server interleave: once it is closed and the wait group of Close is
-- at 0, no connection is tracked and no handler counted, and that stays so, whatever is still
-- accepted.
pub close_waits :
    (s t : Running)
    → Reaches new_server s
    → s.closed ≡ true
    → s.group ≡ 0
    → Reaches s t
    → (t.conns ≡ []) × (t.current ≡ 0) × (t.group ≡ 0)
close_waits s t r shut done later =
    let q = Reaches-IsQuiet later (Counts-IsQuiet (Reaches-Counts r new_server-Counts) shut done) in
    (q.none_tracked, q.no_current, q.all_done)
