-- ===== src/Redis/Ranges.antt =====
-- Laws of the sorted sets' data: what a range of scores shows behind an insertion or a removal.
use work.Prelude.{ℕ, ◌≤◌, ◌<◌, ◌≡◌, refl, Bool, [], ◌∷◌, arith}
use work.Job.{Blob}
use work.Redis.{ZSet, z_insert, z_remove, z_range}

module _ (before : Blob → Blob → Bool) where
  pub z_range-z_remove :
      (hi : ℕ) (b : Blob) (z : ZSet) → z_range 0 hi z ≡ [] → z_range 0 hi (z_remove b z) ≡ []
  unfolding z_range z_remove
  z_range-z_remove hi b [] h = refl
  z_range-z_remove hi b ((s, x) ∷ z) h = ground (arith, z_range-z_remove hi b z)

  -- Where nothing was in the range, an entry that is in it is all there is.
  pub z_range-z_insert :
      (hi n : ℕ) (b : Blob) (z : ZSet)
      → z_range 0 hi z ≡ []
      → n ≤ hi
      → z_range 0 hi (z_insert before n b z) ≡ (n, b) ∷ []
  unfolding z_range z_insert
  z_range-z_insert hi n b [] h le = ground arith
  z_range-z_insert hi n b ((s, x) ∷ z) h le = ground (arith, z_range-z_insert hi n b z)

  pub z_range-z_insert_late :
      (hi n : ℕ) (b : Blob) (z : ZSet)
      → z_range 0 hi z ≡ []
      → hi < n
      → z_range 0 hi (z_insert before n b z) ≡ []
  unfolding z_range z_insert
  z_range-z_insert_late hi n b [] h lt = ground arith
  z_range-z_insert_late hi n b ((s, x) ∷ z) h lt = ground (arith, z_range-z_insert_late hi n b z)
