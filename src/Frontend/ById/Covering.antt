-- ===== src/Frontend/ById/Covering.antt =====
-- The block IDs that the shards of modules/frontend/snapshotbyidsharding.go search.
use deep.Prelude.{
  ℕ, pos, zero, suc, ◌-◌, ◌*◌, ◌/◌, ◌≤◌, ◌<◌, ◌≡◌, refl, ap, ap₂, ◌∙◌, Bytes, bytes_lt,
  bytes_lt_irrefl, bytes_lt_trans, Bool, true, false, List, [], ◌∷◌, ◌++◌, some, length,
  length-append, any, All, Bool-cases, ltb, arith, inl, inr, append-nil,
}
use deep.Backend.{BlockMeta}
use deep.Frontend.ById.{
  little_endian, boundary, last_boundary, boundaries_from, create_block_boundaries, ShardRequest,
  ingesters, blocks, unset, block_queries, queries, build_sharded_requests, uuid_bytes,
  block_id_bytes, include_block,
}

-- The request looks into the block.
abbrev pub searches : BlockMeta → ShardRequest → Bool
searches b ingesters = false
searches b (blocks start end) = include_block b start end (pos 0) (pos 0)
searches b unset = false

-- A request that was made.
abbrev pub is_set : ShardRequest → Bool
is_set ingesters = true
is_set (blocks start end) = true
is_set unset = false

abbrev IsByte : ℕ → Type 0
IsByte b = b < 256

-- `n` bytes of the same value.
abbrev repeated : ℕ → ℕ → Bytes
repeated zero v = []
repeated (suc n) v = v ∷ repeated n v

zeros_lowest : (id : Bytes) (n : ℕ) → n ≤ length id → bytes_lt id (repeated n 0) ≡ false
zeros_lowest [] zero h = refl
zeros_lowest [] (suc n) h = ground (arith, h)
zeros_lowest (b ∷ id) zero h = refl
zeros_lowest (b ∷ id) (suc n) h = ground (arith, zeros_lowest id n (omega (arith, h)))

ones_highest :
    (id : Bytes) (n : ℕ) → length id ≤ n → All IsByte id → bytes_lt (repeated n 255) id ≡ false
ones_highest [] zero h a = refl
ones_highest [] (suc n) h a = refl
ones_highest (b ∷ id) zero h a = ground (arith, h)
ones_highest (b ∷ id) (suc n) h a = ground (arith, a.0, ones_highest id n (omega (arith, h)) a.1)

length-uuid_bytes : (k u : ℕ) → length (uuid_bytes k u) ≡ k
length-uuid_bytes zero u = refl
length-uuid_bytes (suc k) u = ap suc (length-uuid_bytes k u)

uuid_bytes-All : (k u : ℕ) → All IsByte (uuid_bytes k u)
uuid_bytes-All zero u = tt
uuid_bytes-All (suc k) u = (omega arith, uuid_bytes-All k u)

little_endian-zero : (k v : ℕ) → v ≡ 0 → little_endian k v ≡ repeated k 0
little_endian-zero zero v h = refl
little_endian-zero (suc k) v h =
    ap₂ (λ (b : ℕ) (bs : Bytes). b ∷ bs) (omega (arith, h))
      (little_endian-zero k (v / 256) (omega (arith, h)))

first_boundary : (n : ℕ) → boundary n 0 ≡ repeated 16 0
first_boundary n =
    ap (λ (bs : Bytes). bs ++ repeated 8 0) (little_endian-zero 8 (255 / n * 0) (omega arith))

last_boundary-repeated : last_boundary ≡ repeated 16 255
last_boundary-repeated = refl

below_not : (b id : Bytes) → bytes_lt b id ≡ true → bytes_lt id b ≡ false
below_not b id h = ground (arith, h, bytes_lt_irrefl b, bytes_lt_trans b id b)

-- Some shard of those from `start` has the block.
block_queries-searches :
    (b : BlockMeta) (start : Bytes) (bounds : List Bytes) (end : Bytes)
    → bytes_lt (block_id_bytes b) start ≡ false
    → bytes_lt end (block_id_bytes b) ≡ false
    → any (searches b) (block_queries start (bounds ++ (end ∷ []))) ≡ true
unfolding include_block
block_queries-searches b start [] end h k = ground (arith, h, k)
block_queries-searches b start (c ∷ bounds) end h k =
    elim (Bool-cases (bytes_lt c (block_id_bytes b))) [
      | inl e ↦
          let above = below_not c (block_id_bytes b) e in
          ground (arith, block_queries-searches b c bounds end above k)
      | inr n ↦ ground (arith, h, n)
    ]

length-boundaries_from : (n i k : ℕ) → length (boundaries_from n i k) ≡ k
length-boundaries_from n i zero = refl
length-boundaries_from n i (suc k) = ap suc (length-boundaries_from n (suc i) k)

length-block_queries :
    (start : Bytes) (bounds : List Bytes) → length (block_queries start bounds) ≡ length bounds
length-block_queries start [] = refl
length-block_queries start (b ∷ bounds) = ap suc (length-block_queries b bounds)

all_set :
    (start : Bytes) (bounds : List Bytes) → All (λ r. is_set r ≡ true) (block_queries start bounds)
all_set start [] = tt
all_set start (b ∷ bounds) = (refl, all_set b bounds)

-- The boundaries after the first.
abbrev later_bounds : ℕ → List Bytes
later_bounds n = boundaries_from (suc n) 1 n ++ (last_boundary ∷ [])

length-later : (n : ℕ) → length (block_queries (boundary (suc n) 0) (later_bounds n)) ≡ suc n
length-later n =
    length-block_queries (boundary (suc n) 0) (later_bounds n)
    ∙ omega (
      arith,
      length-append (boundaries_from (suc n) 1 n) (last_boundary ∷ []),
      length-boundaries_from (suc n) 1 n,
    )

above_first : (n : ℕ) (b : BlockMeta) → bytes_lt (block_id_bytes b) (boundary (suc n) 0) ≡ false
unfolding block_id_bytes
above_first n b =
    ap (bytes_lt (block_id_bytes b)) (first_boundary (suc n))
    ∙ zeros_lowest (block_id_bytes b) 16 (omega arith)

below_last : (b : BlockMeta) → bytes_lt last_boundary (block_id_bytes b) ≡ false
unfolding block_id_bytes
below_last b = ones_highest (block_id_bytes b) 16 (omega arith) (uuid_bytes-All 16 b.block_id)

build_sharded_requests-full :
    (q : ℕ) (bounds : List Bytes)
    → length bounds ≡ q
    → build_sharded_requests q bounds ≡ some (queries bounds)
unfolding build_sharded_requests
build_sharded_requests-full q bounds h =
    let none_left : q - length bounds ≡ 0 = omega (arith, h) in
    let fits : ltb q (length bounds) ≡ false = ground (arith, h) in
    rw (fits, none_left) (ap (λ (l : List ShardRequest). some l) (append-nil (queries bounds)))

requests_lem :
    (n : ℕ)
    → build_sharded_requests (suc (suc n)) (create_block_boundaries (suc (suc n) - 1))
      ≡ some (ingesters ∷ block_queries (boundary (suc n) 0) (later_bounds n))
unfolding create_block_boundaries
requests_lem n =
    let one_less : suc (suc n) - 1 ≡ suc n = omega arith in
    rw one_less (
      build_sharded_requests-full (suc (suc n)) (boundary (suc n) 0 ∷ later_bounds n) (
        omega (
          arith,
          length-append (boundaries_from (suc n) 1 n) (last_boundary ∷ []),
          length-boundaries_from (suc n) 1 n,
        )))

-- From two shards up, a lookup makes one request for each shard: one for the ingesters, and
-- the rest for ranges of block IDs of which some range has each block.
pub build_sharded_requests-searches :
    (query_shards : ℕ)
    → 2 ≤ query_shards
    → (reqs : List ShardRequest) × (build_sharded_requests query_shards
          (create_block_boundaries (query_shards - 1))
        ≡ some (ingesters ∷ reqs))
      × (suc (length reqs) ≡ query_shards)
      × All (λ r. is_set r ≡ true) reqs
      × ((b : BlockMeta) → any (searches b) reqs ≡ true)
build_sharded_requests-searches zero h = absurd (omega (arith, h))
build_sharded_requests-searches (suc zero) h = absurd (omega (arith, h))
build_sharded_requests-searches (suc (suc n)) h = (
  block_queries (boundary (suc n) 0) (later_bounds n),
  requests_lem n,
  ap suc (length-later n),
  all_set (boundary (suc n) 0) (later_bounds n),
  λ b.
      block_queries-searches b (boundary (suc n) 0) (boundaries_from (suc n) 1 n) last_boundary
        (above_first n b) (below_last b),
)
