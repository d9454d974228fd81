-- ===== src/Redis.antt =====
-- What the code relies on of Redis, a service: its commands, as a parameter, and their documented
-- behaviour, as hypotheses. The source calls them through redigo and in its Lua scripts.
-- A key holds one kind of value. Counters are string keys that hold a decimal number.
pub mod Lists
pub mod Ranges
use work.Prelude.{
  ℕ, ◌≡◌, refl, sym, subst, Bool, true, false, ltb, leb, List, [], ◌∷◌, Option, none, some, ite,
  length,
}
use work.Prelude.Int.{ℤ, pos, ◌+ℤ◌}
use work.Text.{Text, Text-discrete}
use work.Job.{Args, Blob, Blob-discrete}

abbrev pub Key : Type 0
Key = Text

abbrev pub ZSet : Type 0
ZSet = List (ℕ × Blob)

pub record Store : Type 0 where
  pub counters : Key → Option ℤ
  pub strings : Key → Option Blob
  pub ttl : Key → Option ℕ
  pub lists : Key → List Blob
  pub tallies : Key → Text → Option ℤ
  pub sets : Key → Text → Bool
  pub zsets : Key → ZSet
  pub hashes : Key → List (Text × Text)

abbrev pub update {ℓ} : {A : Type ℓ} → (Text → A) → Text → A → Text → A
update f k v j = ite (Text-discrete k j) v (f j)

-- Values.
abbrev pub or_0 : Option ℤ → ℤ
or_0 none = pos 0
or_0 (some n) = n

-- The last element of a list, with those before it.
unfoldable pub pop_last {ℓ} : {A : Type ℓ} → List A → Option (List A × A)
pop_last [] = none
pop_last (x ∷ xs) = elim (pop_last xs) [ none ↦ some ([], x) | some (ys, y) ↦ some (x ∷ ys, y) ]

-- The first occurrence goes.
unfoldable pub erase_first : Blob → List Blob → List Blob
erase_first b [] = []
erase_first b (x ∷ xs) = ite (Blob-discrete x b) xs (x ∷ erase_first b xs)

unfoldable pub z_remove : Blob → ZSet → ZSet
z_remove b [] = []
z_remove b ((s, x) ∷ z) = ite (Blob-discrete x b) z ((s, x) ∷ z_remove b z)

-- Sorted by score; members with one score stand by the order of their bytes.
unfoldable pub z_insert : (Blob → Blob → Bool) → ℕ → Blob → ZSet → ZSet
z_insert before n b [] = (n, b) ∷ []
z_insert before n b ((s, x) ∷ z) = elim (ltb n s) [
  | true ↦ (n, b) ∷ (s, x) ∷ z
  | false ↦ elim (ltb s n) [
    | true ↦ (s, x) ∷ z_insert before n b z
    | false ↦ elim (before b x) [
      | true ↦ (n, b) ∷ (s, x) ∷ z
      | false ↦ (s, x) ∷ z_insert before n b z
    ]
  ]
]

-- The entries with lo ≤ score ≤ hi.
unfoldable pub z_range : ℕ → ℕ → ZSet → ZSet
z_range lo hi [] = []
z_range lo hi ((s, x) ∷ z) =
    let rest = z_range lo hi z in
    elim (leb lo s) [
      | true ↦ elim (leb s hi) [ true ↦ (s, x) ∷ rest | false ↦ rest ]
      | false ↦ rest
    ]

-- A hash of texts, as its fields with their values: a write replaces the value of a field, or adds it.
abbrev pub field_of : Text → List (Text × Text) → Option Text
field_of f [] = none
field_of f ((g, v) ∷ h) = let rest = field_of f h in ite (Text-discrete g f) (some v) rest

abbrev pub put_field : Text → Text → List (Text × Text) → List (Text × Text)
put_field f v [] = (f, v) ∷ []
put_field f v ((g, w) ∷ h) =
    let rest = put_field f v h in ite (Text-discrete g f) ((g, v) ∷ h) ((g, w) ∷ rest)

abbrev pub put_fields : List (Text × Text) → List (Text × Text) → List (Text × Text)
put_fields [] h = h
put_fields ((f, v) ∷ fs) h = put_fields fs (put_field f v h)

-- The commands, and two facts of the service that the documentation leaves open: the order of
-- two members' bytes, and what decoding and encoding by cjson makes of a job's arguments.
pub record Redis : Type 0 where
  pub before : Blob → Blob → Bool
  pub cjson : Option Args → Option Args
  pub get_int : Key → Store → Option ℤ
  pub set_int : Key → ℤ → Store → Store
  pub incr_by : Key → ℤ → Store → Store
  pub get : Key → Store → Option Blob
  pub set_ex : Key → Blob → ℕ → Store → Store
  pub set_nx_ex : Key → Blob → ℕ → Store → Bool × Store
  pub del : Key → Store → Store
  pub llen : Key → Store → ℕ
  pub lpush : Key → Blob → Store → Store
  pub rpoplpush : Key → Key → Store → Option Blob × Store
  pub lrem_1 : Key → Blob → Store → Store
  pub hget : Key → Text → Store → Option ℤ
  pub hincrby : Key → Text → ℤ → Store → Store
  pub hdel : Key → Text → Store → Store
  pub sadd : Key → Text → Store → Store
  pub srem : Key → Text → Store → Store
  pub zadd : Key → ℕ → Blob → Store → Store
  pub zrem : Key → Blob → Store → Store
  pub zrangebyscore : Key → ℕ → ℕ → Store → ZSet
  pub hmset : Key → List (Text × Text) → Store → Store
  pub hget_text : Key → Text → Store → Option Text
  pub hgetall : Key → Store → List (Text × Text)
  pub expire : Key → ℕ → Store → Store

-- What the pop does to the two lists; nothing is popped from an empty one.
abbrev pub move_last : Key → Key → Store → Option (List Blob × Blob) → Option Blob × Store
move_last k j s none = (none, s)
move_last k j s (some (rest, b)) =
    let popped = update s.lists k rest in
    (some b, record s { lists = update popped j (b ∷ popped j) })

-- SET with NX and EX: whether the key was missing, and is set.
abbrev pub set_if_missing : Key → Blob → ℕ → Store → Option Blob → Bool × Store
set_if_missing k b secs s (some old) = (false, s)
set_if_missing k b secs s none =
    (true, record s { strings = update s.strings k (some b); ttl = update s.ttl k (some secs) })

-- EXPIRE on a hash; nothing happens if there is none.
abbrev pub expire_hash : Key → ℕ → Store → List (Text × Text) → Store
expire_hash k secs s [] = s
expire_hash k secs s (f ∷ fs) = record s { ttl = update s.ttl k (some secs) }

-- The behaviour that the documentation of the commands gives.
unfoldable pub documented : (Blob → Blob → Bool) → (Option Args → Option Args) → Redis
unfolding pop_last erase_first z_remove z_insert z_range ◌+ℤ◌
documented before cjson = record {
  before = before;
  cjson = cjson;
  get_int = λ k s. s.counters k;
  set_int =
      λ k n s. record s { counters = update s.counters k (some n); ttl = update s.ttl k none };
  incr_by = λ k n s. record s { counters = update s.counters k (some (or_0 (s.counters k) +ℤ n)) };
  get = λ k s. s.strings k;
  set_ex = λ k b secs s. record s {
    strings = update s.strings k (some b);
    ttl = update s.ttl k (some secs);
  };
  set_nx_ex = λ k b secs s. set_if_missing k b secs s (s.strings k);
  del = λ k s. record s {
    counters = update s.counters k none;
    strings = update s.strings k none;
    ttl = update s.ttl k none;
    lists = update s.lists k [];
    tallies = update s.tallies k (λ f. none);
    sets = update s.sets k (λ f. false);
    zsets = update s.zsets k [];
    hashes = update s.hashes k [];
  };
  llen = λ k s. length (s.lists k);
  lpush = λ k b s. record s { lists = update s.lists k (b ∷ s.lists k) };
  rpoplpush = λ k j s. move_last k j s (pop_last (s.lists k));
  lrem_1 = λ k b s. record s { lists = update s.lists k (erase_first b (s.lists k)) };
  hget = λ k f s. s.tallies k f;
  hincrby = λ k f n s. record s {
    tallies = update s.tallies k (update (s.tallies k) f (some (or_0 (s.tallies k f) +ℤ n)));
  };
  hdel = λ k f s. record s { tallies = update s.tallies k (update (s.tallies k) f none) };
  sadd = λ k m s. record s { sets = update s.sets k (update (s.sets k) m true) };
  srem = λ k m s. record s { sets = update s.sets k (update (s.sets k) m false) };
  zadd = λ k n b s. record s {
    zsets = update s.zsets k (z_insert before n b (z_remove b (s.zsets k)));
  };
  zrem = λ k b s. record s { zsets = update s.zsets k (z_remove b (s.zsets k)) };
  zrangebyscore = λ k lo hi s. z_range lo hi (s.zsets k);
  hmset = λ k fs s. record s { hashes = update s.hashes k (put_fields fs (s.hashes k)) };
  hget_text = λ k f s. field_of f (s.hashes k);
  hgetall = λ k s. s.hashes k;
  expire = λ k secs s. expire_hash k secs s (s.hashes k);
}

-- The service behaves as documented.
abbrev pub IsDocumented : Redis → Type 0
IsDocumented redis = redis ≡ documented redis.before redis.cjson

-- What holds of the documented commands, for any order of bytes and any coding, holds of the service.
pub of_documented {ℓ} :
    (P : Redis → Type ℓ)
    → ((before : Blob → Blob → Bool) (cjson : Option Args → Option Args)
        → P (documented before cjson))
    → (redis : Redis) → IsDocumented redis
    → P redis
of_documented P f redis h = subst P (sym h) (f redis.before redis.cjson)

pub documented-IsDocumented :
    (before : Blob → Blob → Bool) (cjson : Option Args → Option Args)
    → IsDocumented (documented before cjson)
unfolding documented
documented-IsDocumented before cjson = refl
