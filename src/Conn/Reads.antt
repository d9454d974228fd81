-- ===== src/Conn/Reads.antt =====
-- Calls that only read: the store stays, and what they return is true of it.
use work.Prelude.{◌≡◌, refl, subst, ◌∙◌, List, [], ◌∷◌}
use work.Redis.{Store}
use work.Conn.{
  Fault, delivered, request_lost, reply_lost, Error, Result, ok, err, World, M, bind_result, ◌>>=◌,
  pure, fail, exchange, call,
}

-- An answer to a reading call, from the store s.
pub record Answers {A : Type 0} (P : A → Type 0) (s : Store) (r : Result A × World) : Type 0 where
  pub stays : r.1.store ≡ s
  pub holds : (a : A) → r.0 ≡ ok a → P a

abbrev pub Reads : {A : Type 0} → (Store → A → Type 0) → M A → Type 0
Reads P m = (w : World) → Answers (P w.store) w.store (m w)

pub Reads-call : {A : Type 0} (f : Store → A) → Reads (λ s a. a ≡ f s) (call (λ s. (f s, s)))
Reads-call f w = on w.faults
  where
    on : (fs : List Fault) → Answers (λ a. a ≡ f w.store) w.store (exchange fs (λ s. (f s, s)) w)
    on [] = record { stays = refl; holds = λ a e. cc }
    on (delivered ∷ fs) = record { stays = refl; holds = λ a e. cc }
    on (request_lost ∷ fs) = record { stays = refl; holds = λ a e. cc }
    on (reply_lost ∷ fs) = record { stays = refl; holds = λ a e. cc }

pub Reads-pure :
    {A : Type 0} (P : Store → A → Type 0) (a : A) → ((s : Store) → P s a) → Reads P (pure a)
Reads-pure P a h w = record {
  stays = refl;
  holds = λ b e. subst (P w.store) (ok_injective a b e) (h w.store);
}
  where
    ok_injective : {A : Type 0} (a b : A) → ok a ≡ ok b → a ≡ b
    ok_injective a b e = cc

pub Reads-fail : {A : Type 0} (P : Store → A → Type 0) (e : Error) → Reads P (fail e)
Reads-fail P e w = record { stays = refl; holds = λ a h. absurd (not_ok h) }
  where
    not_ok : {A : Type 0} {a : A} → err e ≡ ok a → ⊥
    not_ok h = cc

-- What the first call found may be used for the second.
pub Reads-bind :
    {A B : Type 0} (P : Store → A → Type 0) (Q : Store → B → Type 0) (m : M A) (k : A → M B)
    → Reads P m
    → ((a : A) → Reads (λ s b. P s a → Q s b) (k a))
    → Reads Q (m >>= k)
Reads-bind {A} {B} P Q m k first second w = by (m w) (first w)
  where
    by :
        (r : Result A × World)
        → Answers (P w.store) w.store r
        → Answers (Q w.store) w.store (bind_result r k)
    by (err e, v) h = record { stays = h.stays; holds = λ b e. absurd (cc) }
    by (ok a, v) h =
        let next = second a v in
        record {
          stays = next.stays ∙ h.stays;
          holds = λ b e. subst (λ s. P s a → Q s b) h.stays (next.holds b e) (h.holds a refl);
        }

-- Calls that leave the store as it is, whatever they find.
pub record Kept {A : Type 0} (s : Store) (r : Result A × World) : Type 0 where
  pub stays : r.1.store ≡ s

abbrev pub Keeps : {A : Type 0} → M A → Type 0
Keeps m = (w : World) → Kept w.store (m w)

pub Keeps-call : {A : Type 0} (f : Store → A) → Keeps (call (λ s. (f s, s)))
Keeps-call f w = record { stays = (Reads-call f w).stays }

pub Keeps-pure : {A : Type 0} (a : A) → Keeps (pure a)
Keeps-pure a w = record { stays = refl }

pub Keeps-fail : {A : Type 0} (e : Error) → Keeps (fail {A = A} e)
Keeps-fail e w = record { stays = refl }

pub Keeps-bind :
    {A B : Type 0} (m : M A) (k : A → M B) → Keeps m → ((a : A) → Keeps (k a)) → Keeps (m >>= k)
Keeps-bind {A} {B} m k first second w = by (m w) (first w)
  where
    by : (r : Result A × World) → Kept w.store r → Kept w.store (bind_result r k)
    by (err e, v) h = record { stays = h.stays }
    by (ok a, v) h = record { stays = (second a v).stays ∙ h.stays }
