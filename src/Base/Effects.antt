-- ===== src/Base/Effects.antt =====
-- Go code that changes a state and may return an error: the state comes back on both ways out.
use mathlib.Core.Path.{◌≡◌, refl}
use mathlib.Core.Logic.{◌⊎◌, inl, inr}
use bhttp_1_http_in_binary.Base.Errors.{Error}

pub data Result {ℓ} (A : Type ℓ) : Type ℓ where
  success : A → Result A
  failure : Error → Result A

pub data Outcome {ℓ κ} (S : Type ℓ) (A : Type κ) : Type (ℓ ⊔ κ) where
  ok : A → S → Outcome S A
  err : Error → S → Outcome S A

abbrev pub Exec {ℓ κ} : Type ℓ → Type κ → Type (ℓ ⊔ κ)
Exec S A = S → Outcome S A

module _ {ℓ κ} {S : Type ℓ} {A : Type κ} where
  abbrev pub pure : A → Exec S A
  pure a s = ok a s

  abbrev pub fail : Error → Exec S A
  fail e s = err e s

  abbrev pub mend : (Error → Error) → Outcome S A → Outcome S A
  mend f (ok a s) = ok a s
  mend f (err e s) = err (f e) s

  -- The error of a call, replaced.
  abbrev pub map_error : (Error → Error) → Exec S A → Exec S A
  map_error f m s = mend f (m s)

  abbrev pub from_result : Result A → Exec S A
  from_result (success a) s = ok a s
  from_result (failure e) s = err e s

module _ {ℓ κ μ} {S : Type ℓ} {A : Type κ} {B : Type μ} where
  abbrev pub after : Outcome S A → (A → Exec S B) → Outcome S B
  after (ok a s) f = f a s
  after (err e s) f = err e s

infixl 5 ◌>>=◌ ◌>>◌
abbrev pub ◌>>=◌ {ℓ κ μ} :
    {S : Type ℓ} {A : Type κ} {B : Type μ} → Exec S A → (A → Exec S B) → Exec S B
◌>>=◌ m f s = after (m s) f

abbrev pub ◌>>◌ {ℓ κ μ} : {S : Type ℓ} {A : Type κ} {B : Type μ} → Exec S A → Exec S B → Exec S B
m >> k = m >>= λ _. k

module _ {ℓ κ μ} {S : Type ℓ} {T : Type κ} {A : Type μ} where
  abbrev pub map_state : (S → T) → Outcome S A → Outcome T A
  map_state f (ok a s) = ok a (f s)
  map_state f (err e s) = err e (f s)

  -- Code on a part of a state, as code on the whole.
  abbrev pub zoom : (T → S) → (T → S → T) → Exec S A → Exec T A
  zoom get put m t = map_state (put t) (m (get t))

-- The same for code that has no state.
infixl 5 ◌>>=?◌
abbrev pub ◌>>=?◌ {ℓ κ} : {A : Type ℓ} {B : Type κ} → Result A → (A → Result B) → Result B
success a >>=? f = f a
failure e >>=? f = failure e

-- A call whose two ways out are both dealt with.
abbrev pub fold_outcome {ℓ κ μ} :
    {S : Type ℓ} {A : Type κ} {B : Type μ} → Outcome S A → (A → S → B) → (Error → S → B) → B
fold_outcome (ok a s) f g = f a s
fold_outcome (err e s) f g = g e s

abbrev pub fold_result {ℓ κ} : {A : Type ℓ} {B : Type κ} → Result A → (A → B) → (Error → B) → B
fold_result (success a) f g = f a
fold_result (failure e) f g = g e

-- What code leaves behind.
abbrev pub state_of {ℓ κ} : {S : Type ℓ} {A : Type κ} → Outcome S A → S
state_of (ok a s) = s
state_of (err e s) = s

pub Outcome-cases {ℓ κ} :
    {S : Type ℓ} {A : Type κ} (o : Outcome S A)
    → ((a : A) × (s : S) × (o ≡ ok a s)) ⊎ ((e : Error) × (s : S) × (o ≡ err e s))
Outcome-cases (ok a s) = inl (a, s, refl)
Outcome-cases (err e s) = inr (e, s, refl)

pub Result-cases {ℓ} :
    {A : Type ℓ} (r : Result A) → ((a : A) × (r ≡ success a)) ⊎ ((e : Error) × (r ≡ failure e))
Result-cases (success a) = inl (a, refl)
Result-cases (failure e) = inr (e, refl)

pub map_state-eq-ok {ℓ κ μ} :
    {S : Type ℓ} {T : Type κ} {A : Type μ} (f : S → T) (o : Outcome S A) {a : A} {t : T}
    → map_state f o ≡ ok a t
    → (s : S) × (o ≡ ok a s) × (f s ≡ t)
map_state-eq-ok f (ok b s) h = (s, cc, cc)
map_state-eq-ok f (err e s) h = cc

pub after-eq-ok {ℓ κ μ} :
    {S : Type ℓ} {A : Type κ} {B : Type μ} (o : Outcome S A) (f : A → Exec S B) {b : B} {t : S}
    → after o f ≡ ok b t
    → (a : A) × (s : S) × (o ≡ ok a s) × (f a s ≡ ok b t)
after-eq-ok (ok a s) f h = (a, s, refl, h)
after-eq-ok (err e s) f h = cc

pub ok-inj {ℓ κ} :
    {S : Type ℓ} {A : Type κ} {a b : A} {s t : S} → ok a s ≡ ok b t → (a ≡ b) × (s ≡ t)
ok-inj h = (cc, cc)

pub refused {ℓ κ} : {S : Type ℓ} {A : Type κ} {e : Error} {a : A} {s t : S} → err e s ≡ ok a t → ⊥
refused h = cc
