-- ===== src/Reaper/Names.antt =====
-- Job types whose names have no colon share no key, in the reaper's script.
use work.Prelude.{◌≡◌, ◌≢◌, ◌⊎◌, inl, inr, refl, sym, ap, ◌∙◌, List, [], ◌∷◌, ◌++◌, All}
use work.Text.{Text, text, Text-discrete}
use work.Keys
use work.Keys.Apart.{IsName, jobs-ne, jobs-plain}
use work.Scripts.Reenqueue.{RequeueKeys}
use work.Worker.Process.{in_progress-ne-jobs}
use work.Reaper.{requeue_keys}
use work.Reaper.Backlog.{Apart, Alone}
use work.Reaper.Loop.{Separate}

abbrev keys_for : Text → Text → Text → RequeueKeys
keys_for ns pool name = record {
  in_prog_queue = Keys.jobs_in_progress ns pool name;
  job_queue = Keys.jobs ns name;
  lock_key = Keys.jobs_lock ns name;
  lock_info_key = Keys.jobs_lock_info ns name;
}

keys_for-Apart :
    (ns pool m n : Text)
    → IsName m
    → IsName n
    → m ≢ n
    → Apart (keys_for ns pool m) (keys_for ns pool n)
unfolding Keys.jobs_in_progress Keys.jobs_lock Keys.jobs_lock_info
keys_for-Apart ns pool m n hm hn h = record {
  in_prog = jobs-ne ns m n _ _ hm hn refl refl h;
  queue = λ e. jobs-ne ns m n [] [] hm hn tt tt h (jobs-plain ns m ∙ e ∙ sym (jobs-plain ns n));
  across = λ e.
      jobs-ne ns m n (text ":" ++ (pool ++ text ":inprogress")) [] hm hn refl tt h
        (e ∙ sym (jobs-plain ns n));
  back = λ e.
      jobs-ne ns m n [] (text ":" ++ (pool ++ text ":inprogress")) hm hn tt refl h
        (jobs-plain ns m ∙ e);
  lock = jobs-ne ns m n _ _ hm hn refl refl h;
  info = jobs-ne ns m n _ _ hm hn refl refl h;
}

others-Apart :
    (ns pool n : Text) (names : List Text)
    → IsName n
    → All IsName names
    → All
        (λ k. (k ≡ keys_for ns pool n) ⊎ Apart k (keys_for ns pool n))
        (requeue_keys ns pool names)
unfolding requeue_keys
others-Apart ns pool n [] hn h = tt
others-Apart ns pool n (m ∷ names) hn h =
    (by (Text-discrete m n), others-Apart ns pool n names hn h.1)
  where
    by :
        Dec (m ≡ n)
        → (keys_for ns pool m ≡ keys_for ns pool n)
          ⊎ Apart (keys_for ns pool m) (keys_for ns pool n)
    by (yes e) = inl (ap (keys_for ns pool) e)
    by (no e) = inr (keys_for-Apart ns pool m n h.0 hn e)

each-Alone :
    (ns pool : Text) (names all : List Text)
    → All IsName names
    → All IsName all
    → All (λ l. Alone l (requeue_keys ns pool all)) (requeue_keys ns pool names)
unfolding requeue_keys
each-Alone ns pool [] all h g = tt
each-Alone ns pool (n ∷ names) all h g = (
  record { own = in_progress-ne-jobs ns pool n; others = others-Apart ns pool n all h.0 g },
  each-Alone ns pool names all h.1 g,
)

-- Job types whose names have no colon share no key.
pub requeue_keys-Separate :
    (ns pool : Text) (names : List Text) → All IsName names → Separate (requeue_keys ns pool names)
requeue_keys-Separate ns pool names h = each-Alone ns pool names names h h
