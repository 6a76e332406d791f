-- ===== src/Scheduler/Logic.antt =====
-- Reasoning about methods: what holds if a call returns, and the parts of the state that it keeps.
use anki.Prelude.{◌≡◌, ◌⊎◌, inl, inr, refl, Bool, true, false}
use anki.Scheduler.Card.{CardType, CardQueue}
use anki.Scheduler.State.{State, Error, Result, ok, raise, Action, ◌>>=◌}

-- `Q` holds if the call returns.
abbrev pub Ensures : {A : Type 0} → (A → State → Type 0) → Result A × State → Type 0
Ensures Q (ok a, s) = Q a s
Ensures Q (raise e, s) = Unit

pub Ensures-bind :
    {A B : Type 0} (P : A → State → Type 0) (Q : B → State → Type 0) (m : Action A)
    (f : A → Action B) (s : State)
    → Ensures P (m s)
    → ((a : A) (s' : State) → P a s' → Ensures Q (f a s'))
    → Ensures Q ((m >>= f) s)
Ensures-bind {A} {B} P Q m f s h k = go (m s) h
  where
    go : (r : Result A × State) → Ensures P r → Ensures Q (((λ (t : State). r) >>= f) s)
    go (ok a, s') p = k a s' p
    go (raise e, s') p = tt

pub Ensures-map :
    {A : Type 0} (P Q : A → State → Type 0) (r : Result A × State)
    → ((a : A) (t : State) → P a t → Q a t)
    → Ensures P r
    → Ensures Q r
Ensures-map P Q (ok a, t) k h = k a t h
Ensures-map P Q (raise e, t) k h = tt

-- The types that a card of a queue may have.
abbrev pub fits : CardQueue → CardType → Bool
fits CardQueue.new CardType.new = true
fits CardQueue.new _ = false
fits CardQueue.lrn CardType.lrn = true
fits CardQueue.lrn CardType.relearning = true
fits CardQueue.lrn _ = false
fits CardQueue.day_learn_relearn CardType.lrn = true
fits CardQueue.day_learn_relearn CardType.relearning = true
fits CardQueue.day_learn_relearn _ = false
fits CardQueue.rev CardType.rev = true
fits CardQueue.rev _ = false
fits CardQueue.suspended _ = true
fits CardQueue.manually_buried _ = true
fits CardQueue.sibling_buried _ = true
fits CardQueue.preview _ = true

pub Ensures-of_state :
    {A : Type 0} (P : State → Type 0) (r : Result A × State) → P r.1 → Ensures (λ _. P) r
Ensures-of_state P (ok a, s) h = h
Ensures-of_state P (raise e, s) h = tt

-- To split on how a call ends and keep the equation.
pub Run-cases :
    {A : Type 0} (r : Result A × State)
    → ((a : A) × (t : State) × (r ≡ (ok a, t))) ⊎ ((e : Error) × (t : State) × (r ≡ (raise e, t)))
Run-cases (ok a, t) = inl (a, t, refl)
Run-cases (raise e, t) = inr (e, t, refl)

pub Result-cases :
    {A : Type 0} (r : Result A) → ((a : A) × (r ≡ ok a)) ⊎ ((e : Error) × (r ≡ raise e))
Result-cases (ok a) = inl (a, refl)
Result-cases (raise e) = inr (e, refl)
