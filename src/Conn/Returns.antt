-- ===== src/Conn/Returns.antt =====
-- Calls that return a result whenever Redis answers.
use work.Prelude.{◌≡◌, refl, ap, List, [], ◌∷◌}
use work.Redis.{Store}
use work.Conn.{
  World, Result, ok, err, delivered, request_lost, reply_lost, M, ◌>>=◌, pure, call, bind_result,
  exchange, Fault,
}

-- A result, and no fault ahead.
abbrev pub Answered : {A : Type 0} → Result A × World → Type 0
Answered {A} r = (a : A) × (r.0 ≡ ok a) × (r.1.faults ≡ [])

abbrev pub Returns : {A : Type 0} → M A → Type 0
Returns m = (w : World) → w.faults ≡ [] → Answered (m w)

pub Returns-pure : {A : Type 0} (a : A) → Returns (pure a)
Returns-pure a w calm = (a, refl, calm)

exchange-Answered :
    {A : Type 0} (run : Store → A × Store) (w : World) (fs : List Fault)
    → fs ≡ []
    → Answered (exchange fs run w)
exchange-Answered run w [] h = (_, refl, refl)
exchange-Answered run w (f ∷ fs) h = absurd (cc)

pub Returns-call : {A : Type 0} (run : Store → A × Store) → Returns (call run)
Returns-call run w calm = exchange-Answered run w w.faults calm

bind-Answered :
    {A B : Type 0} (r : Result A × World) (k : A → M B)
    → Answered r
    → ((a : A) → Returns (k a))
    → Answered (bind_result r k)
bind-Answered (ok a, w) k (b, _, calm) returns = returns a w calm
bind-Answered (err x, w) k (b, h, calm) returns = absurd (cc)

pub Returns-bind :
    {A B : Type 0} (m : M A) (k : A → M B)
    → Returns m
    → ((a : A) → Returns (k a))
    → Returns (m >>= k)
Returns-bind m k returns after w calm = bind-Answered (m w) k (returns w calm) after

-- A chain that returned has returned from its first call.
pub bound :
    {A B : Type 0} (r : Result A × World) (k : A → M B) (b : B)
    → (bind_result r k).0 ≡ ok b
    → (a : A) × (r.0 ≡ ok a) × (bind_result r k ≡ k a r.1)
bound (ok a, w) k b h = (a, refl, refl)
bound (err x, w) k b h = absurd (cc)

pub exchange-ok :
    {A : Type 0} (fs : List Fault) (run : Store → A × Store) (w : World) (a : A)
    → (exchange fs run w).0 ≡ ok a
    → (a ≡ (run w.store).0) × ((exchange fs run w).1.store ≡ (run w.store).1)
exchange-ok [] run w a h = (cc, refl)
exchange-ok (delivered ∷ fs) run w a h = (cc, refl)
exchange-ok (request_lost ∷ fs) run w a h = absurd (cc)
exchange-ok (reply_lost ∷ fs) run w a h = absurd (cc)

-- A chain goes on from what its first call returned.
pub on_from :
    {A B : Type 0} (r : Result A × World) (k : A → M B) (a : A)
    → r.0 ≡ ok a
    → bind_result r k ≡ k a r.1
on_from (ok b, w) k a e = ap (λ c. k c w) (injective e)
  where
    injective : {A : Type 0} {a b : A} → ok b ≡ ok a → b ≡ a
    injective h = cc
on_from (err x, w) k a e = absurd (cc)
