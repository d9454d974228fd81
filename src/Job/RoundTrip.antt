-- ===== src/Job/RoundTrip.antt =====
-- Serializing a job and reading it back.
use work.Prelude.{
  ℕ, zero, suc, ◌%◌, ◌≤◌, ◌≡◌, refl, Bool, true, false, [], ◌∷◌, Option, none, some, All, arith,
}
use work.Prelude.Int.{pos, negsuc}
use work.Text.{Text}
use work.Job.{
  Any, null, bool, string, int, uint, float, composite, Args, Blob, doc, Job, doc_of, serialize,
  new_job, or_zero, omit_text, omit_ℕ, omit_bool, max_exact, marshal_args, unmarshal_args,
}

text_back : (t : Text) → or_zero [] (omit_text t) ≡ t
unfolding omit_text
text_back [] = refl
text_back (c ∷ cs) = refl

number_back : (n : ℕ) → or_zero 0 (omit_ℕ n) ≡ n
unfolding omit_ℕ
number_back n = ground arith

bool_back : (b : Bool) → or_zero false (omit_bool b) ≡ b
unfolding omit_bool
bool_back true = refl
bool_back false = refl

-- The JSON of a job, but with these arguments, as the scripts leave it.
abbrev pub blob_with : Option Args → Job → Blob
blob_with args j = doc (record (doc_of j) { args = some args })

pub new_job-blob_with :
    (args : Option Args) (j : Job) (from prog : Text)
    → new_job (blob_with args j) from prog
      ≡ some (record j {
        args = unmarshal_args args;
        raw_json = blob_with args j;
        dequeued_from = from;
        in_prog_queue = prog;
      })
unfolding new_job doc_of
new_job-blob_with args j from prog = λ i. some (record {
  name = text_back j.name i;
  id = j.id;
  enqueued_at = j.enqueued_at;
  args = unmarshal_args args;
  unique = bool_back j.unique i;
  unique_key = text_back j.unique_key i;
  fails = number_back j.fails i;
  last_err = text_back j.last_err i;
  failed_at = number_back j.failed_at i;
  raw_json = blob_with args j;
  dequeued_from = from;
  in_prog_queue = prog;
})

-- The job as it is read back: what JSON makes of its arguments.
abbrev pub read_back : Job → Job
read_back j = record j { args = unmarshal_args (marshal_args j.args) }

pub new_job-serialize :
    (j : Job) (from prog : Text)
    → new_job (serialize j) from prog
      ≡ some (record (read_back j) {
        raw_json = serialize j;
        dequeued_from = from;
        in_prog_queue = prog;
      })
unfolding serialize doc_of
new_job-serialize j from prog = new_job-blob_with (marshal_args j.args) j from prog

-- The number as a float64.
abbrev pub as_float : Any → Any
as_float null = null
as_float (bool b) = bool b
as_float (string t) = string t
as_float (int i) = float i 0
as_float (uint n) = float (pos n) 0
as_float (float m k) = float m k
as_float (composite t) = composite t

-- Lowest terms.
abbrev pub IsLowest : ℕ → ℕ → Type 0
IsLowest m zero = Unit {0}
IsLowest m (suc k) = m % 2 ≡ 1

-- An integer up to 2^53 either way, or a float in lowest terms, or no number.
abbrev pub IsExact : Any → Type 0
IsExact null = Unit {0}
IsExact (bool b) = Unit {0}
IsExact (string t) = Unit {0}
IsExact (int (pos n)) = n ≤ max_exact
IsExact (int (negsuc n)) = suc n ≤ max_exact
IsExact (uint n) = n ≤ max_exact
IsExact (float (pos m) k) = IsLowest m k
IsExact (float (negsuc m) k) = IsLowest (suc m) k
IsExact (composite t) = Unit {0}

abbrev pub AllExact : Option Args → Type 0
AllExact none = Unit {0}
AllExact (some args) = All (λ (x : Text × Any). IsExact x.1) args

abbrev put_first : Text → Any → Args → Args
put_first k v rest = (k, v) ∷ rest
