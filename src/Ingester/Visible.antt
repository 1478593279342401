-- ===== src/Ingester/Visible.antt =====
-- Where a snapshot is on its way through the ingester.
use deep.Prelude.{
  ℕ, ◌≡◌, refl, sym, ap, ◌∙◌, subst, Bytes, bytes_eq, bytes_beq, nat_eq, nat_beq, Bool, true, false,
  ◌||◌, List, [], ◌∷◌, ◌++◌, Option, none, some, Map, get, any, Bool-cases, Option-cases, inl, inr,
  arith,
}
use deep.Backend.{Time, Uuid}
use deep.Ingester.Push.{LiveSnapshot, Entry, WalBlock, LocalBlock, Manager, Outcome, ok}
use deep.Ingester.Cut.{
  is_cut, kept_live, cut_live, insert_by_id, sort_by_id, entry_of, append_to_head, write_all,
}
use deep.Ingester.Blocks.{find_block, without_block}

abbrev pub has_entry : Bytes → List Entry → Bool
has_entry id es = any (λ (e : Entry). bytes_beq e.id id) es

abbrev pub in_wal : Bytes → List WalBlock → Bool
in_wal id bs = any (λ (b : WalBlock). has_entry id b.entries) bs

abbrev pub in_local : Bytes → List LocalBlock → Bool
in_local id bs = any (λ (b : LocalBlock). has_entry id b.block.entries) bs

abbrev pub owns : Bytes → Option LiveSnapshot → Bool
owns id none = false
owns id (some s) = bytes_beq s.snapshot_id id

pub any-append :
    {A : Type 0} (p : A → Bool) (xs ys : List A) → any p (xs ++ ys) ≡ (any p xs || any p ys)
any-append p [] ys = refl
any-append p (x ∷ xs) ys = ground (arith, any-append p xs ys)

-- The snapshots to cut that have the ID.
abbrev pub has_snapshot : Bytes → List LiveSnapshot → Bool
has_snapshot id ts = any (λ (t : LiveSnapshot). bytes_beq t.snapshot_id id) ts

has_snapshot-insert :
    (id : Bytes) (s : LiveSnapshot) (ts : List LiveSnapshot)
    → has_snapshot id (insert_by_id s ts) ≡ (bytes_beq s.snapshot_id id || has_snapshot id ts)
has_snapshot-insert id s [] = refl
has_snapshot-insert id s (t ∷ ts) = ground (arith, has_snapshot-insert id s ts)

pub has_snapshot-sort :
    (id : Bytes) (ts : List LiveSnapshot) → has_snapshot id (sort_by_id ts) ≡ has_snapshot id ts
has_snapshot-sort id [] = refl
has_snapshot-sort id (t ∷ ts) =
    ground (arith, has_snapshot-insert id t (sort_by_id ts), has_snapshot-sort id ts)

-- A live snapshot stays live or is cut.
pub kept_or_cut :
    (now cutoff : Time) (immediate : Bool) (id : Bytes) (k : ℕ) (live : Map ℕ LiveSnapshot)
    → owns id (get k live) ≡ true
    → (owns id (get k (kept_live now cutoff immediate live))
        || has_snapshot id (cut_live now cutoff immediate live))
      ≡ true
unfolding kept_live cut_live
kept_or_cut now cutoff immediate id k [] h = cc
kept_or_cut now cutoff immediate id k ((j, s) ∷ live) h = elim (Bool-cases (nat_beq j k)) [
  | inl e ↦ elim (Bool-cases (is_cut now cutoff immediate s)) [
    | inl c ↦ ground (arith, e, c, h)
    | inr n ↦ ground (arith, e, n, h)
  ]
  | inr n ↦ elim (Bool-cases (is_cut now cutoff immediate s)) [
    | inl c ↦ ground (arith, n, c, h, kept_or_cut now cutoff immediate id k live)
    | inr n' ↦ ground (arith, n, n', h, kept_or_cut now cutoff immediate id k live)
  ]
]

module _ (to_object : Bytes → Option Bytes) (append_error : Entry → Option ℕ) where
  -- What a write of all leaves.
  pub record Wrote (id : Bytes) (ts : List LiveSnapshot) (m m' : Manager) : Type 0 where
    pub head :
        has_entry id m'.head_block.entries
        ≡ (has_entry id m.head_block.entries || has_snapshot id ts)
    pub live : m'.live_snapshots ≡ m.live_snapshots
    pub completing : m'.completing_blocks ≡ m.completing_blocks
    pub complete : m'.complete_blocks ≡ m.complete_blocks

  wrote_one :
      (id : Bytes) (t : LiveSnapshot) (out : Bytes) (more : Bool) (m : Manager)
      → (has_entry id (m.head_block.entries ++ (entry_of to_object append_error t out ∷ []))
          || more)
        ≡ (has_entry id m.head_block.entries || (bytes_beq t.snapshot_id id || more))
  wrote_one id t out more m = ground (
    arith,
    any-append (λ (e : Entry). bytes_beq e.id id) m.head_block.entries
        (entry_of to_object append_error t out ∷ []),
  )

  pub write_all-Wrote :
      (id : Bytes) (ts : List LiveSnapshot) (m : Manager)
      → (write_all to_object append_error ts m).1 ≡ ok tt
      → Wrote id ts m (write_all to_object append_error ts m).0
  unfolding write_all
  write_all-Wrote id [] m h = record {
    head = ground arith;
    live = refl;
    completing = refl;
    complete = refl;
  }
  write_all-Wrote id (t ∷ ts) m h = elim (Option-cases (to_object t.content)) [
    | inl n ↦ absurd (ground (arith, n, h))
    | inr (out, e) ↦ elim (Option-cases (append_error (entry_of to_object append_error t out))) [
      | inr (x, f) ↦ absurd (ground (arith, e, f, h))
      | inl f ↦
          let m1 =
            append_to_head to_object append_error (entry_of to_object append_error t out) m in
          let step : write_all to_object append_error (t ∷ ts) m
              ≡ write_all to_object append_error ts m1 =
            ground (arith, e, f) in
          let ih =
            write_all-Wrote id ts m1
              (sym (ap (λ (p : Manager × Outcome (Unit {0})). p.1) step) ∙ h) in
          subst (λ (p : Manager × Outcome (Unit {0})). Wrote id (t ∷ ts) m p.0) (sym step)
            (record {
              head = ih.head ∙ wrote_one id t out (has_snapshot id ts) m;
              live = ih.live;
              completing = ih.completing;
              complete = ih.complete;
            })
    ]
  ]

pub find_block-in_wal :
    (x : Bytes) (id : Uuid) (b : WalBlock) (bs : List WalBlock)
    → find_block id bs ≡ some b
    → in_wal x bs ≡ (has_entry x b.entries || in_wal x (without_block id bs))
unfolding find_block without_block
find_block-in_wal x id b [] h = cc
find_block-in_wal x id b (c ∷ bs) h = ground (arith, h, find_block-in_wal x id b bs)

pub without_block-none :
    (id : Uuid) (bs : List WalBlock) → find_block id bs ≡ none → without_block id bs ≡ bs
unfolding find_block without_block
without_block-none id [] h = refl
without_block-none id (c ∷ bs) h = ground (arith, h, without_block-none id bs)
