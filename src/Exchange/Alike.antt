-- ===== src/Exchange/Alike.antt =====
-- Two streams that a reader of frames cannot tell apart, and code that does the same on both.
pub mod Frames
pub mod Fuel
pub mod Answers
pub mod Calls
pub mod Relayed
pub mod Served
use bhttp_1_http_in_binary.Base.{
  ℕ, zero, suc, ◌≡◌, refl, sym, ap, ◌∙◌, arith, Bool, true, false, inl, inr, ◌⊎◌, List, [], ◌∷◌,
  Error, out_of_fuel, Outcome, ok, err, Outcome-cases, Result, success, failure, pure, fail,
  from_result, ◌>>=◌, after, map_state, fold_outcome, if◌then◌else◌, Exec,
}
use bhttp_1_http_in_binary.Stream.{Source}
use bhttp_1_http_in_binary.Frame.{Frame}
use bhttp_1_http_in_binary.Frame.Reader.{read}
use bhttp_1_http_in_binary.Chaos.Heard.{read_all}

abbrev pub HeardAlike : Source → Source → Type 0
HeardAlike s t = (m : ℕ) → read_all m s ≡ read_all m t

-- What Read does with two such streams.
pub data ReadsAlike (s t : Source) : Type 0 where
  same_frame :
      (f : Frame) (u v : Source)
      → read s ≡ ok f u
      → read t ≡ ok f v
      → HeardAlike u v
      → ReadsAlike s t
  same_fault : (e : Error) (u v : Source) → read s ≡ err e u → read t ≡ err e v → ReadsAlike s t

abbrev pub Frames : Type 0
Frames = List Frame × Error

-- What is heard when the first Read is known.
read_all-ok :
    (m : ℕ) (s u : Source) (f : Frame)
    → read s ≡ ok f u
    → ◌≡◌ {A = Frames} (read_all (suc m) s) (f ∷ (read_all m u).0, (read_all m u).1)
unfolding read_all
read_all-ok m s u f r = rw r refl

read_all-err :
    (m : ℕ) (s u : Source) (e : Error)
    → read s ≡ err e u
    → ◌≡◌ {A = Frames} (read_all (suc m) s) ([], e)
unfolding read_all
read_all-err m s u e r = rw r refl

first_frame : Frames → Frame → Frame
first_frame ([], e) d = d
first_frame (f ∷ fs, e) d = f

behind_first : Frames → Frames
behind_first ([], e) = ([], e)
behind_first (f ∷ fs, e) = (fs, e)

both_frames :
    (s t u v : Source) (f g : Frame)
    → HeardAlike s t
    → read s ≡ ok f u
    → read t ≡ ok g v
    → ReadsAlike s t
unfolding first_frame behind_first
both_frames s t u v f g h r q =
    let alike : (m : ℕ)
        → ◌≡◌ {A = Frames} (f ∷ (read_all m u).0, (read_all m u).1)
            (g ∷ (read_all m v).0, (read_all m v).1) =
      λ m. sym (read_all-ok m s u f r) ∙ h (suc m) ∙ read_all-ok m t v g q in
    let same : f ≡ g = ap (λ (x : Frames). first_frame x f) (alike 0) in
    same_frame f u v r (q ∙ ap (λ (x : Frame). ok x v) (sym same)) (λ m. ap behind_first (alike m))

mixed :
    (s t u v : Source) (f : Frame) (e : Error)
    → HeardAlike s t
    → read s ≡ ok f u
    → read t ≡ err e v
    → ⊥
mixed s t u v f e h r q =
    let alike = sym (read_all-ok 0 s u f r) ∙ h 1 ∙ read_all-err 0 t v e q in
    cc (ap (λ (x : Frames). x.0) alike)

pub HeardAlike-ReadsAlike : (s t : Source) → HeardAlike s t → ReadsAlike s t
HeardAlike-ReadsAlike s t h = elim (Outcome-cases (read s)) [
  | inl (f, u, r) ↦ elim (Outcome-cases (read t)) [
    | inl (g, v, q) ↦ both_frames s t u v f g h r q
    | inr (e, v, q) ↦ absurd (mixed s t u v f e h r q)
  ]
  | inr (e, u, r) ↦ elim (Outcome-cases (read t)) [
    | inl (g, v, q) ↦ absurd (mixed t s v u g e (λ m. sym (h m)) q r)
    | inr (x, v, q) ↦
        let same : e ≡ x =
          ap (λ (y : Frames). y.1) (sym (read_all-err 0 s u e r) ∙ h 1 ∙ read_all-err 0 t v x q) in
        same_fault e u v r (q ∙ ap (λ (y : Error). err y v) (sym same))
  ]
]

-- Code on a state with such a stream in it.
module _ {S : Type 0} (stream : S → Source) (at : Source → S → S) where
  -- Two runs that end in the same way, up to what is still to come.
  pub data Both {A : Type 0} (o o' : Outcome S A) : Type 0 where
    both_ok :
        (a : A) (s : S) (t : Source)
        → o ≡ ok a s
        → o' ≡ ok a (at t s)
        → HeardAlike (stream s) t
        → Both o o'
    both_err : (e : Error) (s : S) (t : Source) → o ≡ err e s → o' ≡ err e (at t s) → Both o o'

  pub record DoesAlike {A : Type 0} (m : Exec S A) : Type 0 where
    pub on : (s : S) (t : Source) → HeardAlike (stream s) t → Both (m s) (m (at t s))

  pub DoesAlike-pure : {A : Type 0} (a : A) → DoesAlike (pure a)
  DoesAlike-pure a = record { on = λ s t h. both_ok a s t refl refl h }

  pub DoesAlike-from_result : {A : Type 0} (r : Result A) → DoesAlike (from_result r)
  DoesAlike-from_result (success a) = record { on = λ s t h. both_ok a s t refl refl h }
  DoesAlike-from_result (failure e) = record { on = λ s t h. both_err e s t refl refl }

  after-Both :
      {A B : Type 0} (o o' : Outcome S A) (f : A → Exec S B)
      → Both o o'
      → ((a : A) → DoesAlike (f a))
      → Both (after o f) (after o' f)
  after-Both o o' f (both_ok a s t e e' h) k = rw (e, e') ((k a).on s t h)
  after-Both o o' f (both_err x s t e e') k = rw (e, e') (both_err x s t refl refl)

  pub DoesAlike-bind :
      {A B : Type 0} (m : Exec S A) (f : A → Exec S B)
      → DoesAlike m
      → ((a : A) → DoesAlike (f a))
      → DoesAlike (m >>= f)
  DoesAlike-bind m f d k = record { on = λ s t h. after-Both (m s) (m (at t s)) f (d.on s t h) k }
