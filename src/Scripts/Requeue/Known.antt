-- ===== src/Scripts/Requeue/Known.antt =====
-- The names and the queues among which the requeueing scripts look for a job's.
use work.Prelude.{◌≡◌, arith, true, List, [], ◌∷◌, map}
use work.Text.{Text}
use work.Text.Names.{sort_strings, insert_sorted}
use work.Keys
use work.Redis.{Key}
use work.Scripts.Requeue.{has_key}

has_key-insert :
    (k x : Text) (ys : List Text)
    → has_key k (x ∷ ys) ≡ true
    → has_key k (insert_sorted x ys) ≡ true
unfolding has_key insert_sorted
has_key-insert k x [] h = h
has_key-insert k x (y ∷ ys) h = ground (arith, has_key-insert k x ys)

-- Sorting keeps every name.
pub has_key-sort :
    (k : Text) (names : List Text) → has_key k names ≡ true → has_key k (sort_strings names) ≡ true
unfolding has_key sort_strings
has_key-sort k [] h = h
has_key-sort k (x ∷ names) h =
    has_key-insert k x (sort_strings names) (ground (arith, has_key-sort k names))

pub has_key-jobs :
    (ns name : Text) (names : List Text)
    → has_key name names ≡ true
    → has_key (Keys.jobs ns name) (map (Keys.jobs ns) names) ≡ true
unfolding has_key
has_key-jobs ns name [] h = absurd (cc)
has_key-jobs ns name (x ∷ names) h = ground (arith, has_key-jobs ns name names)

pub has_key-more : (k x : Key) (ks : List Key) → has_key k ks ≡ true → has_key k (x ∷ ks) ≡ true
unfolding has_key
has_key-more k x ks h = ground arith
