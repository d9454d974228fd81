-- ===== src/Job.antt =====
-- job.go: the job, and its JSON document as `serialize` writes and `newJob` reads it.
-- Times, counts of failures and scores are natural numbers (the source's int64 values are
-- epoch seconds and counters that start at 0). Of the JSON text only its keys and values are kept. A
-- number is written without its Go type, and read as a float64: in a document `int` is the number's
-- text if that is an integer's, and `float` stands for the text of another float64. So a float64
-- above 2^53 and an integer may differ here though their texts agree.
pub mod RoundTrip
pub mod Arguments
use work.Prelude.{
  ℕ, zero, suc, ◌+◌, ◌-◌, ◌*◌, ◌/◌, ◌%◌, ◌^◌, ltb, leb, ◌==◌, ◌≡◌, ◌≢◌, refl, Bool, true, false,
  List, [], ◌∷◌, map, Option, none, some, ℕ_discrete, ite, if◌then◌else◌,
}
use mathlib.Core.Option
use work.Prelude.Int.{ℤ, pos, negsuc}
use work.Text.{Text, Text-discrete}

-- The value of an argument, an `any`; `float m k` is m / 2 ^ k and `composite` the text of an
-- array or object.
pub data Any : Type 0 where
  null : Any
  bool : Bool → Any
  string : Text → Any
  int : ℤ → Any
  uint : ℕ → Any
  float : ℤ → ℕ → Any
  composite : Text → Any

-- map[string]any, as an association list.
abbrev pub Args : Type 0
Args = List (Text × Any)

-- A JSON object with the keys of a job: `none` where the key is absent. The value of `args` is
-- null or an object.
pub record Doc : Type 0 where
  pub name : Option Text
  pub id : Option Text
  pub t : Option ℕ
  pub args : Option (Option Args)
  pub unique : Option Bool
  pub unique_key : Option Text
  pub fails : Option ℕ
  pub err : Option Text
  pub failed_at : Option ℕ

-- A byte string kept in Redis: the JSON of a job, or bytes that are no such JSON.
pub data Blob : Type 0 where
  doc : Doc → Blob
  raw : Text → Blob

unfoldable pub Blob-discrete : Discrete Blob
unfolding ℕ_discrete
Blob-discrete = hlevel ℕ_discrete

pub record Job : Type 0 where
  pub name : Text
  pub id : Text
  pub enqueued_at : ℕ
  pub args : Option Args
  pub unique : Bool
  pub unique_key : Text
  pub fails : ℕ
  pub last_err : Text
  pub failed_at : ℕ
  pub raw_json : Blob
  pub dequeued_from : Text
  pub in_prog_queue : Text

-- `omitempty`: a zero value is left out.
pub omit_text : Text → Option Text
omit_text [] = none
omit_text (c ∷ cs) = some (c ∷ cs)

omit_ℕ : ℕ → Option ℕ
omit_ℕ n = elim (n == 0) [ true ↦ none | false ↦ some n ]

omit_bool : Bool → Option Bool
omit_bool true = some true
omit_bool false = none

pub name_kept : (t : Text) → t ≢ [] → omit_text t ≡ some t
unfolding omit_text
name_kept [] h = absurd (h refl)
name_kept (c ∷ cs) h = refl

-- m / 2 ^ k in lowest terms.
unfoldable pub halved : ℕ → ℕ → ℕ × ℕ
halved m zero = (m, zero)
halved m (suc k) = let rest = halved (m / 2) k in if m % 2 == 0 then rest else (m, suc k)

abbrev pub signed : Bool → ℕ → ℤ
signed false n = pos n
signed true zero = pos 0
signed true (suc n) = negsuc n

-- Up to 2^53 every integer is a float64.
abbrev pub max_exact : ℕ
max_exact = 9007199254740992

unfoldable pub marshal_float : Bool → ℕ × ℕ → Any
marshal_float minus (n, zero) =
    if leb n max_exact then int (signed minus n) else float (signed minus n) 0
marshal_float minus (n, suc k) = float (signed minus n) (suc k)

-- The value as json.Marshal writes it.
unfoldable pub marshal_any : Any → Any
unfolding halved marshal_float
marshal_any null = null
marshal_any (bool b) = bool b
marshal_any (string t) = string t
marshal_any (int i) = int i
marshal_any (uint n) = int (pos n)
marshal_any (float (pos m) k) = marshal_float false (halved m k)
marshal_any (float (negsuc m) k) = marshal_float true (halved (suc m) k)
marshal_any (composite t) = composite t

-- How often n is halved to be below 2^53; a float64 is below 2^1024.
excess : ℕ → ℕ → ℕ
excess zero n = 0
excess (suc fuel) n = let rest = excess fuel (n / 2) in if ltb n max_exact then 0 else suc rest

-- q * 2 ^ e with the remainder r rounded off, to even on a tie.
abbrev rounded : ℕ → ℕ → ℕ → ℕ
rounded q r e =
    if ltb (2 ^ e) (2 * r)
    then (q + 1) * 2 ^ e
    else if 2 * r == 2 ^ e
    then (q + q % 2) * 2 ^ e
    else q * 2 ^ e

unfoldable pub round_float : ℕ → ℕ
unfolding excess
round_float n =
    if leb n max_exact then n else let e = excess 1024 n in rounded (n / 2 ^ e) (n % 2 ^ e) e

abbrev pub round_ℤ : (ℕ → ℕ) → ℤ → ℤ
round_ℤ round (pos n) = pos (round n)
round_ℤ round (negsuc n) = signed true (round (suc n))

-- The value as json.Unmarshal reads it into an `any`.
unfoldable pub unmarshal_any : Any → Any
unfolding round_float
unmarshal_any null = null
unmarshal_any (bool b) = bool b
unmarshal_any (string t) = string t
unmarshal_any (int i) = float (round_ℤ round_float i) 0
unmarshal_any (uint n) = float (pos (round_float n)) 0
unmarshal_any (float m k) = float m k
unmarshal_any (composite t) = composite t

abbrev pub entries : (Any → Any) → Args → Args
entries f [] = []
entries f ((k, v) ∷ args) = (k, f v) ∷ entries f args

abbrev pub in_args : (Any → Any) → Option Args → Option Args
in_args f args = Option.map (entries f) args

unfoldable pub marshal_args : Option Args → Option Args
unfolding marshal_any
marshal_args args = in_args marshal_any args

unfoldable pub unmarshal_args : Option Args → Option Args
unfolding unmarshal_any
unmarshal_args args = in_args unmarshal_any args

unfoldable pub doc_of : Job → Doc
unfolding omit_text omit_ℕ omit_bool marshal_args
doc_of j = record {
  name = omit_text j.name;
  id = some j.id;
  t = some j.enqueued_at;
  args = some (marshal_args j.args);
  unique = omit_bool j.unique;
  unique_key = omit_text j.unique_key;
  fails = omit_ℕ j.fails;
  err = omit_text j.last_err;
  failed_at = omit_ℕ j.failed_at;
}

unfoldable pub serialize : Job → Blob
unfolding doc_of
serialize j = doc (doc_of j)

-- A key that is absent leaves the zero value.
abbrev pub or_zero {ℓ} : {A : Type ℓ} → A → Option A → A
or_zero z none = z
or_zero z (some a) = a

-- json.Unmarshal into a zero Job; `none` is its error.
unfoldable pub new_job : Blob → Text → Text → Option Job
unfolding unmarshal_args
new_job (raw b) from prog = none
new_job (doc d) from prog = some (record {
  name = or_zero [] d.name;
  id = or_zero [] d.id;
  enqueued_at = or_zero 0 d.t;
  args = unmarshal_args (or_zero none d.args);
  unique = or_zero false d.unique;
  unique_key = or_zero [] d.unique_key;
  fails = or_zero 0 d.fails;
  last_err = or_zero [] d.err;
  failed_at = or_zero 0 d.failed_at;
  raw_json = doc d;
  dequeued_from = from;
  in_prog_queue = prog;
})

-- `failed` with the error's message, at the time `now`.
unfoldable pub failed : ℕ → Text → Job → Job
failed now message j = record j { fails = j.fails + 1; last_err = message; failed_at = now }

-- A map write: the value of an existing key is replaced.
unfoldable pub put_arg : Text → Any → Args → Args
put_arg k v [] = (k, v) ∷ []
put_arg k v ((j, w) ∷ r) = ite (Text-discrete j k) ((k, v) ∷ r) ((j, w) ∷ put_arg k v r)

unfoldable pub set_arg : Text → Any → Job → Job
unfolding put_arg
set_arg k v j = record j { args = some (put_arg k v (or_zero [] j.args)) }
