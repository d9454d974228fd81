-- ===== src/Requeuer/Nameless.antt =====
-- A scheduled job with an empty name, in the requeuer's script.
use work.Prelude.{ℕ, ◌≡◌, Bool, [], ◌∷◌, Option}
use work.Job.{Args, Blob, Job, serialize}
use work.Redis.{
  Redis, Store, ZSet, documented, update, z_remove, z_range, IsDocumented, of_documented,
}
use work.Scripts.Requeue.{script_error, zrem_lpush, requeue_first}
use work.Requeuer.{Requeuer, run_script}

-- What is left of the store: the job is gone from the set, and nowhere else.
abbrev pub without : Requeuer → Job → Store → Store
without r j s = record s {
  zsets = update s.zsets r.requeue_key (z_remove (serialize j) (s.zsets r.requeue_key));
}

module _ (before : Blob → Blob → Bool) (cjson : Option Args → Option Args) where
  nameless_on :
      (r : Requeuer) (now score : ℕ) (s : Store) (j : Job) (rest : ZSet)
      → j.name ≡ []
      → z_range 0 now (s.zsets r.requeue_key) ≡ (score, serialize j) ∷ rest
      → run_script (documented before cjson) r now s ≡ (script_error, without r j s)
  unfolding run_script zrem_lpush requeue_first serialize documented
  nameless_on r now score s j rest e due = rw due (rw e)

-- When the first job that is due has an empty name, the requeuer's script ends with an error and the
-- job is lost: it is off the set, and no queue and no other set, the dead set included, has it.
pub requeue_nameless :
    (redis : Redis)
    → IsDocumented redis
    → (r : Requeuer) (now score : ℕ) (s : Store) (j : Job) (rest : ZSet) → j.name ≡ []
    → z_range 0 now (s.zsets r.requeue_key) ≡ (score, serialize j) ∷ rest
    → run_script redis r now s ≡ (script_error, without r j s)
requeue_nameless redis h r now score s j rest e due =
    of_documented (λ d. run_script d r now s ≡ (script_error, without r j s))
      (λ before cjson. nameless_on before cjson r now score s j rest e due) redis h
