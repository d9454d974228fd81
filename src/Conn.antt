-- ===== src/Conn.antt =====
-- A redigo connection, as the code uses it: every exchange with Redis may fail before the command
-- is carried out or after, when only the reply is lost. The state of a chain of calls is a World.
pub mod Reads
pub mod Returns
use work.Prelude.{ℕ, List, [], ◌∷◌, Option}
use work.Text.{Text}
use work.Redis.{Store}

pub data Fault : Type 0 where
  delivered request_lost reply_lost : Fault

pub data Error : Type 0 where
  connection replication_failed malformed script_failed not_deleted not_retried out_of_fuel : Error

pub data Result {ℓ} (A : Type ℓ) : Type ℓ where
  ok : A → Result A
  err : Error → Result A

-- The store; what will become of the next exchanges (delivered, behind the end of the list); the
-- replicas that the next WAITs report; and the Enqueuer's map knownJobs, shared under its mutex.
pub record World : Type 0 where
  pub store : Store
  pub faults : List Fault
  pub acks : List ℕ
  pub known_jobs : Text → Option ℕ

abbrev pub M : Type 0 → Type 0
M A = World → Result A × World

abbrev pub bind_result : {A B : Type 0} → Result A × World → (A → M B) → Result B × World
bind_result (ok a, w) f = f a w
bind_result (err e, w) f = (err e, w)

infixl 5 ◌>>=◌ ◌>>◌
abbrev pub ◌>>=◌ : {A B : Type 0} → M A → (A → M B) → M B
◌>>=◌ m f w = bind_result (m w) f

abbrev pub ◌>>◌ : {A B : Type 0} → M A → M B → M B
◌>>◌ m k = m >>= (λ _. k)

abbrev pub pure : {A : Type 0} → A → M A
pure a w = (ok a, w)

abbrev pub fail : {A : Type 0} → Error → M A
fail e w = (err e, w)

-- One exchange that carries out `run`.
abbrev pub exchange : {A : Type 0} → List Fault → (Store → A × Store) → World → Result A × World
exchange [] run w = (ok (run w.store).0, record w { store = (run w.store).1; faults = [] })
exchange (delivered ∷ fs) run w =
    (ok (run w.store).0, record w { store = (run w.store).1; faults = fs })
exchange (request_lost ∷ fs) run w = (err connection, record w { faults = fs })
exchange (reply_lost ∷ fs) run w =
    (err connection, record w { store = (run w.store).1; faults = fs })

abbrev pub call : {A : Type 0} → (Store → A × Store) → M A
call run w = exchange w.faults run w

-- A command with no reply of interest.
abbrev pub command : (Store → Store) → M (Unit {0})
command run = call (λ s. (tt, run s))

-- WAIT: the number of replicas that acknowledged.
abbrev pub take_ack : List ℕ → World → Result ℕ × World
take_ack [] w = (ok 0, w)
take_ack (n ∷ ns) w = (ok n, record w { acks = ns })

abbrev pub wait : M ℕ
wait = call (λ s. (tt, s)) >>= (λ _ w. take_ack w.acks w)
