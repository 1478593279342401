-- ===== src/Frontend/Sharding/Pages.antt =====
-- The pages that `backendRequests` of modules/frontend/searchsharding.go asks for.
use deep.Prelude.{
  ℕ, zero, suc, ◌+◌, ◌/◌, ◌^◌, ◌≤◌, ◌<◌, List, [], ◌∷◌, some, ◌≡◌, ◌∙◌, ltb, leb, ◌&&◌,
  if◌then◌else◌, arith,
}
use native.Mathlib.Nat.{div-eq-sub-div, div-le_self}
use deep.Backend.{BlockMeta}
use deep.Frontend.Sharding.{SearchBlockRequest, pages_from, pages_per_query, block_requests}

-- How many of the requests read the page.
abbrev pub readers : ℕ → List SearchBlockRequest → ℕ
readers p [] = 0
readers p (r ∷ rs) =
    (if leb r.start_page p && ltb p (r.start_page + r.pages_to_search) then 1 else 0) + readers p rs

readers-pages_from :
    (m : BlockMeta) (step fuel start p : ℕ)
    → m.total_records < 2 ^ 32
    → 0 < step
    → step < 2 ^ 32
    → m.total_records ≤ start + fuel
    → p < m.total_records
    → readers p (pages_from m step fuel start) ≡ (if leb start p then 1 else 0)
unfolding pages_from
readers-pages_from m step zero start p t s w f h = ground arith
readers-pages_from m step (suc fuel) start p t s w f h =
    let ih = readers-pages_from m step fuel (start + step) p t s w (omega arith) h in
    ground (arith, ih)

-- Every page of a block is read by exactly one request, when the block is not skipped, a page has
-- at least a byte, and the block's records and the target size fit 32 bits.
pub block_requests-cover :
    (target : ℕ) (m : BlockMeta) (p : ℕ)
    → m.total_records < 2 ^ 32
    → target < 2 ^ 32
    → m.total_records ≤ m.size
    → p < m.total_records
    → (reqs : List SearchBlockRequest) × (block_requests target m ≡ some reqs)
      × (readers p reqs ≡ 1)
unfolding block_requests pages_per_query
block_requests-cover target m p t s w h =
    let step = pages_per_query target m in
    let some_record : 0 < m.total_records = omega arith in
    let d : 0 < m.size / m.total_records = omega (arith, div-eq-sub-div some_record w) in
    let l : target / (m.size / m.total_records) ≤ target =
      div-le_self target (m.size / m.total_records) in
    (
      pages_from m step m.total_records 0,
      ground arith,
      readers-pages_from m step m.total_records 0 p t (ground arith) (ground arith) (omega arith) h
          ∙ ground arith,
    )
