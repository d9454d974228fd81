-- ===== src/Worker/Handshake/Ended.antt =====
-- worker.go, the channels of stop and drain: what is left to the callers once the loop has taken a
-- stop.
use work.Prelude.{ℕ, ◌+◌, ◌≡◌, refl, sym, subst, ap, ◌∙◌, true, List, Option}
use work.Text.{Text}
use work.Job.{Args, Job}
use work.Redis.{Redis}
use work.Conn.{World}
use work.Sampler.{PrioritySampler}
use work.Worker.{JobType}
use work.Worker.Loop.{LoopState}
use work.Worker.Handshake.{
  System, start, Step, call_stop, call_drain, take_stop, answer_stop, take_drain, take_tick, others,
  Reach, here, next,
}
use work.Worker.Handshake.Counted.{start-IsCounted, Reach-IsCounted, stops_taken}

-- Nothing of the loop is to change any more, nor who awaits a drain.
pub record IsLeft (s t : System) : Type 0 where
  pub state : t.state ≡ s.state
  pub drains : t.awaiting_drain ≡ s.awaiting_drain

module _ (encode : Args → Text) (redis : Redis) (namespace pool_id : Text)
    (job_types : List JobType) (backoffs : List ℕ) (run : JobType → Job → Option Text) where
  Step-IsLeft :
      {s t : System}
      → Step encode redis namespace pool_id job_types backoffs run s t
      → s.state.stopped ≡ true
      → IsLeft s t
  Step-IsLeft {s} (call_stop e) off =
      subst (IsLeft s) (sym e) record { state = refl; drains = refl }
  Step-IsLeft {s} (call_drain e) off =
      subst (IsLeft s) (sym e) record { state = refl; drains = refl }
  Step-IsLeft (take_stop m n l v on calling turned e) off = absurd (cc)
  Step-IsLeft {s} (answer_stop n on awaiting e) off =
      subst (IsLeft s) (sym e) record { state = refl; drains = refl }
  Step-IsLeft (take_drain m n l v on calling turned e) off = absurd (cc)
  Step-IsLeft (take_tick m a l v on turned received e) off = absurd (cc)
  Step-IsLeft {s} (others v e) off = subst (IsLeft s) (sym e) record { state = refl; drains = refl }

  Reach-IsLeft :
      {s t : System}
      → Reach encode redis namespace pool_id job_types backoffs run s t
      → s.state.stopped ≡ true
      → IsLeft s t
  Reach-IsLeft here off = record { state = refl; drains = refl }
  Reach-IsLeft {s} (next {t} r step) off =
      let before = Reach-IsLeft r off in
      let still : t.state.stopped ≡ true = ap (λ (k : LoopState). k.stopped) before.state ∙ off in
      let after = Step-IsLeft step still in
      record { state = after.state ∙ before.state; drains = after.drains ∙ before.drains }

  pub Reach-append :
      {s t u : System}
      → Reach encode redis namespace pool_id job_types backoffs run s t
      → Reach encode redis namespace pool_id job_types backoffs run t u
      → Reach encode redis namespace pool_id job_types backoffs run s u
  Reach-append r here = r
  Reach-append r (next q step) = next (Reach-append r q) step

-- Of any callers of stop only one is heard: when the loop of a worker, which was built and started, has
-- taken a stop, then from there on no step changes what the loop keeps or how often it acknowledged a
-- drain, the callers that await a drain go on awaiting it, and the callers that a stop was taken from
-- and that are back from it are one together.
pub start-IsLeft :
    (encode : Args → Text) (redis : Redis) (namespace pool_id : Text) (job_types : List JobType)
    (backoffs : List ℕ) (run : JobType → Job → Option Text) (sampler : PrioritySampler) (w : World)
    (s t : System)
    → Reach encode redis namespace pool_id job_types backoffs run (start sampler w) s
    → s.state.stopped ≡ true
    → Reach encode redis namespace pool_id job_types backoffs run s t
    → IsLeft s t × (t.awaiting_stop + t.stops_done ≡ 1)
start-IsLeft encode redis namespace pool_id job_types backoffs run sampler w s t reach off on =
    let left = Reach-IsLeft encode redis namespace pool_id job_types backoffs run on off in
    let counted =
      Reach-IsCounted encode redis namespace pool_id job_types backoffs run
        (Reach-append encode redis namespace pool_id job_types backoffs run reach on)
        (start-IsCounted sampler w) in
    (
      left,
      counted.once ∙ ap (λ (k : LoopState). stops_taken k.stopped) left.state ∙ ap stops_taken off,
    )
