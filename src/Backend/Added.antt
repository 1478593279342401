-- ===== src/Backend/Added.antt =====
-- What `ObjectAdded` of pkg/deepdb/backend/block_meta.go keeps of the objects of a block.
use deep.Prelude.{ℕ, ◌≤◌, ◌<◌, Bytes, List, [], ◌∷◌, ◌≡◌, ◌⊎◌, inl, inr, All, arith}
use deep.Backend.{BlockMeta, time_unix, object_added}

-- Adds objects with their IDs and start times, one after the other.
unfoldable pub objects_added : List (Bytes × ℕ) → BlockMeta → BlockMeta
unfolding object_added
objects_added [] b = b
objects_added ((id, start) ∷ os) b = objects_added os (object_added id start b)

abbrev pub InTimes : BlockMeta → ℕ → Type 0
InTimes b start = (start ≡ 0) ⊎ ((b.start_time ≤ time_unix start) × (time_unix start ≤ b.end_time))

-- The times are unset together, or ordered.
abbrev pub IsTimed : BlockMeta → Type 0
IsTimed b =
    ((b.start_time ≡ 0) × (b.end_time ≡ 0)) ⊎ ((0 < b.start_time) × (b.start_time ≤ b.end_time))

IsTimed-object_added :
    (id : Bytes) (s : ℕ) (b : BlockMeta) → IsTimed b → IsTimed (object_added id s b)
unfolding object_added
IsTimed-object_added id s b (inl h) = ground (arith, h)
IsTimed-object_added id s b (inr h) = ground (arith, h)

covered_on :
    (id : Bytes) (s x : ℕ) (b : BlockMeta)
    → IsTimed b
    → InTimes b x
    → InTimes (object_added id s b) x
unfolding object_added
covered_on id s x b t (inl z) = inl z
covered_on id s x b (inl h) (inr c) = ground (arith, h, c)
covered_on id s x b (inr h) (inr c) = ground (arith, h, c)

covered_now : (id : Bytes) (s : ℕ) (b : BlockMeta) → IsTimed b → InTimes (object_added id s b) s
unfolding object_added
covered_now id s b (inl h) = ground (arith, h)
covered_now id s b (inr h) = ground (arith, h)

stays_covered :
    (os : List (Bytes × ℕ)) (x : ℕ) (b : BlockMeta)
    → IsTimed b
    → InTimes b x
    → InTimes (objects_added os b) x
unfolding objects_added
stays_covered [] x b t c = c
stays_covered ((id, s) ∷ os) x b t c =
    stays_covered os x (object_added id s b) (IsTimed-object_added id s b t)
      (covered_on id s x b t c)

-- The block's times enclose the start time of every object added, apart from those with none, when
-- they were unset or ordered before.
pub objects_added-InTimes :
    (os : List (Bytes × ℕ)) (b : BlockMeta)
    → IsTimed b
    → All (λ o. InTimes (objects_added os b) o.1) os
unfolding objects_added
objects_added-InTimes [] b t = tt
objects_added-InTimes ((id, s) ∷ os) b t = (
  stays_covered os s (object_added id s b) (IsTimed-object_added id s b t) (covered_now id s b t),
  objects_added-InTimes os (object_added id s b) (IsTimed-object_added id s b t),
)
