-- ===== src/Worker/Handshake/Overlap.antt =====
-- worker.go, drainChan and doneDrainingChan: callers of drain that overlap.
use work.Prelude.{ℕ, ◌+◌, ◌≤◌, ◌≡◌, refl, sym, subst, ap, ◌∙◌, arith, inl, inr, false, List, Option}
use work.Text.{Text}
use work.Job.{Args, Job}
use work.Redis.{Redis}
use work.Conn.{World}
use work.Worker.{JobType}
use work.Worker.Loop.{LoopState}
use work.Worker.Handshake.{
  System, Received, Step, call_stop, call_drain, take_stop, answer_stop, take_drain, take_tick,
  others, Reach, here, next,
}
use work.Worker.Handshake.Counted.{Acknowledges, tick-Acknowledges, stop-noted, drain-noted}

-- The calls of drain, ever.
abbrev pub drains_called : System → ℕ
drains_called s = s.calling_drain + s.awaiting_drain + s.state.drains_done

-- No drain is on its way to the loop, or noted by it.
pub record IsUnheard (s : System) : Type 0 where
  pub flag : s.state.drained ≡ false
  pub none_calling : s.calling_drain ≡ 0

abbrev StaysUnheard : System → System → Type 0
StaysUnheard s t = IsUnheard t × (t.awaiting_drain ≡ s.awaiting_drain)

ticked-StaysUnheard :
    (s : System) (l : LoopState) (a : ℕ) (v : World)
    → IsUnheard s
    → Acknowledges s.state l
    → Received s l a
    → StaysUnheard s (record s { state = l; world = v; awaiting_drain = a })
ticked-StaysUnheard s l a v h (_, inl (same, count)) received =
    (record { flag = same ∙ h.flag; none_calling = h.none_calling }, omega arith)
ticked-StaysUnheard s l a v h (_, inr (was, now, count)) received = let off = h.flag in absurd (cc)

module _ (encode : Args → Text) (redis : Redis) (namespace pool_id : Text)
    (job_types : List JobType) (backoffs : List ℕ) (run : JobType → Job → Option Text) where
  Step-called :
      {s t : System}
      → Step encode redis namespace pool_id job_types backoffs run s t
      → drains_called s ≤ drains_called t
  Step-called {s} (call_stop e) =
      subst (λ t. drains_called s ≤ drains_called t) (sym e) (omega arith)
  Step-called {s} (call_drain e) =
      subst (λ t. drains_called s ≤ drains_called t) (sym e) (omega arith)
  Step-called {s} (take_stop m n l v on calling turned e) =
      let (same, _) =
        stop-noted encode redis namespace pool_id job_types backoffs run m s l v turned in
      let count = ap (λ (k : LoopState). k.drains_done) same in
      subst (λ t. drains_called s ≤ drains_called t) (sym e) (omega arith)
  Step-called {s} (answer_stop n on awaiting e) =
      subst (λ t. drains_called s ≤ drains_called t) (sym e) (omega arith)
  Step-called {s} (take_drain m n l v on calling turned e) =
      let (same, _) =
        drain-noted encode redis namespace pool_id job_types backoffs run m s l v turned in
      let count = ap (λ (k : LoopState). k.drains_done) same in
      subst (λ t. drains_called s ≤ drains_called t) (sym e) (omega arith)
  Step-called {s} (take_tick m a l v on turned received e) =
      subst (λ t. drains_called s ≤ drains_called t) (sym e) (omega arith)
  Step-called {s} (others v e) =
      subst (λ t. drains_called s ≤ drains_called t) (sym e) (omega arith)

  Reach-called :
      {s t : System}
      → Reach encode redis namespace pool_id job_types backoffs run s t
      → drains_called s ≤ drains_called t
  Reach-called here = omega arith
  Reach-called (next r step) =
      let before = Reach-called r in let after = Step-called step in omega arith

  Step-StaysUnheard :
      {s t : System}
      → Step encode redis namespace pool_id job_types backoffs run s t
      → IsUnheard s
      → drains_called t ≤ drains_called s
      → StaysUnheard s t
  Step-StaysUnheard {s} (call_stop e) h few =
      subst (StaysUnheard s) (sym e) (record { flag = h.flag; none_calling = h.none_calling }, refl)
  Step-StaysUnheard {s} (call_drain e) h few =
      let more = subst (λ t. drains_called t ≤ drains_called s) e few in
      absurd (omega (arith, more))
  Step-StaysUnheard {s} (take_stop m n l v on calling turned e) h few =
      let (same, _) =
        stop-noted encode redis namespace pool_id job_types backoffs run m s l v turned in
      subst (StaysUnheard s) (sym e) (
        record {
          flag = ap (λ (k : LoopState). k.drained) same ∙ h.flag;
          none_calling = h.none_calling;
        },
        refl,
      )
  Step-StaysUnheard {s} (answer_stop n on awaiting e) h few =
      subst (StaysUnheard s) (sym e) (record { flag = h.flag; none_calling = h.none_calling }, refl)
  Step-StaysUnheard (take_drain m n l v on calling turned e) h few =
      let none_left = h.none_calling in absurd (omega arith)
  Step-StaysUnheard {s} (take_tick m a l v on turned received e) h few =
      subst (StaysUnheard s) (sym e) (
        ticked-StaysUnheard s l a v h
          (tick-Acknowledges encode redis namespace pool_id job_types backoffs run m s l v turned)
          received)
  Step-StaysUnheard {s} (others v e) h few =
      subst (StaysUnheard s) (sym e) (record { flag = h.flag; none_calling = h.none_calling }, refl)

  Reach-StaysUnheard :
      {s t : System}
      → Reach encode redis namespace pool_id job_types backoffs run s t
      → IsUnheard s
      → drains_called t ≤ drains_called s
      → StaysUnheard s t
  Reach-StaysUnheard here h few = (h, refl)
  Reach-StaysUnheard (next r step) h few =
      let more = Step-called step in
      let start_to = Reach-called r in
      let (unheard, same) = Reach-StaysUnheard r h (omega arith) in
      let (after, now) = Step-StaysUnheard step unheard (omega arith) in (after, now ∙ same)

-- If no drain is noted by a worker's loop and none is on its way to it, the callers that await one,
-- as the later of two whose drains the loop noted before it acknowledged the first, go on awaiting it
-- as long as nobody calls drain anew, whatever else happens.
pub Reach-IsUnheard :
    (encode : Args → Text) (redis : Redis) (namespace pool_id : Text) (job_types : List JobType)
    (backoffs : List ℕ) (run : JobType → Job → Option Text) (s t : System)
    → IsUnheard s
    → Reach encode redis namespace pool_id job_types backoffs run s t
    → drains_called t ≡ drains_called s
    → IsUnheard t
      × (t.awaiting_drain ≡ s.awaiting_drain)
      × (t.state.drains_done ≡ s.state.drains_done)
Reach-IsUnheard encode redis namespace pool_id job_types backoffs run s t h reach none_new =
    let (unheard, same) =
      Reach-StaysUnheard encode redis namespace pool_id job_types backoffs run reach h
        (omega (arith, none_new)) in
    let now = unheard.none_calling in let before = h.none_calling in (unheard, same, omega arith)
