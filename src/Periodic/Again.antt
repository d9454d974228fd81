-- ===== src/Periodic/Again.antt =====
-- When the periodic enqueuer enqueues again.
use work.Prelude.{
  ℕ, ◌+◌, ◌<◌, ◌≡◌, ◌↔◌, sym, ap, ◌∙◌, arith, Bool, true, List, [], All, Option, some,
}
use work.Prelude.Int.{pos, negsuc, ◌+ℤ◌, ltb_ℤ, +ℤ_parts}
use work.Text.{Text}
use work.Job.{Args, Blob}
use work.Keys
use work.Redis.{Redis, Store, documented, IsDocumented, of_documented}
use work.Conn.{World, ok, exchange}
use work.Periodic.{PeriodicJob, horizon_seconds, enqueue, should_enqueue, is_due}
use work.Periodic.Horizon.{enqueue-ends}

-- The time of the last enqueue that the store keeps.
module _ (before : Blob → Blob → Bool) (cjson : Option Args → Option Args) (ns : Text) where
  last_set :
      (now : ℕ) (s : Store)
      → let d = documented before cjson in
        let key = Keys.last_periodic_enqueue ns in
        d.get_int key (d.set_int key (pos now) s) ≡ some (pos now)
  unfolding documented
  last_set now s = ground arith

  should_enqueue-calm :
      (now later : ℕ) (v : World) (t : Store)
      → v.faults ≡ []
      → v.store ≡ (documented before cjson).set_int (Keys.last_periodic_enqueue ns) (pos now) t
      → (should_enqueue (documented before cjson) ns later v).0
        ≡ ltb_ℤ (pos now) (pos later +ℤ negsuc 1)
  unfolding should_enqueue
  should_enqueue-calm now later v t calm store =
      let d = documented before cjson in
      let key = Keys.last_periodic_enqueue ns in
      let v' : World = record v { faults = [] } in
      ap (λ fs. (is_due d ns later (exchange fs (λ s. (d.get_int key s, s)) v)).0) calm
      ∙ ap (λ o. (is_due d ns later (ok o, v')).0) (ap (d.get_int key) store ∙ last_set now t)

ltb_ℤ-later : (now later : ℕ) → (ltb_ℤ (pos now) (pos later +ℤ negsuc 1) ≡ true) ↔ (now + 2 < later)
ltb_ℤ-later now later = (there, back)
  where
    there : ltb_ℤ (pos now) (pos later +ℤ negsuc 1) ≡ true → now + 2 < later
    there h = ground (arith, h, +ℤ_parts (pos later) (negsuc 1))

    back : now + 2 < later → ltb_ℤ (pos now) (pos later +ℤ negsuc 1) ≡ true
    back h = ground (arith, h, +ℤ_parts (pos later) (negsuc 1))

-- After a pass that Redis answered, at `now`, the periodic enqueuer enqueues again exactly if more
-- than two seconds have gone by, if no other enqueuer has in the meantime.
should_enqueue-enqueue :
    (redis : Redis)
    → IsDocumented redis
    → (ns : Text) (fuel now later : ℕ) (pjs : List PeriodicJob) (w : World)
    → All (λ (pj : PeriodicJob). (t : ℕ) → t < pj.schedule t) pjs
    → w.faults ≡ []
    → horizon_seconds < fuel
    → ((should_enqueue redis ns later (enqueue redis ns fuel now pjs w).1).0 ≡ true)
      ↔ (now + 2 < later)
should_enqueue-enqueue redis h ns fuel now later pjs w next calm enough =
    of_documented
      (λ r.
        ((should_enqueue r ns later (enqueue r ns fuel now pjs w).1).0 ≡ true) ↔ (now + 2 < later))
      (λ before cjson.
        let (done, calm', t, all, store) =
          enqueue-ends (documented before cjson) ns fuel now pjs w next calm enough in
        let e =
          should_enqueue-calm before cjson ns now later
            (enqueue (documented before cjson) ns fuel now pjs w).1 t calm' store in
        let (there, back) = ltb_ℤ-later now later in
        (λ due. there (sym e ∙ due), λ gone. e ∙ back gone))
      redis h
