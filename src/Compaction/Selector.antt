-- ===== src/Compaction/Selector.antt =====
-- pkg/deepdb/compaction_block_selector.go. A division by a window shorter than a second is the
-- panic `none` of the constructor. Counts of objects do not overflow; the byte total wraps at 2^64.
pub mod Stripes
pub mod Exhaustion
use deep.Prelude.{
  ℕ, zero, suc, ◌+◌, ◌-◌, ◌*◌, ◌/◌, ◌%◌, ◌^◌, Bytes, bytes_beq, bytes_lt, Bool, ◌&&◌, List, [], ◌∷◌,
  ◌++◌, Option, none, some, map, length, drop, leb, nat_beq, if◌then◌else◌, ℤ,
}
use deep.Backend.{BlockMeta, Time, nanos_per_second}
use deep.Compaction.Format.{decimal, decimal_ℤ, hex16_ℤ, hex_padded, leb_ℤ, beq_ℤ, ◌-ℤ◌, quot, unix}

pub record Entry : Type 0 where
  pub meta : BlockMeta
  pub group : Bytes
  pub order : Bytes
  pub hash : Bytes

pub record Selector : Type 0 where
  pub min_input_blocks : ℕ
  pub max_input_blocks : ℕ
  pub max_compaction_range : ℕ
  pub max_compaction_objects : ℕ
  pub max_block_bytes : ℕ
  pub entries : List Entry

abbrev pub active_window_duration : ℕ
active_window_duration = 24 * 3600 * nanos_per_second

unfoldable pub window_for_time : ℕ → Time → ℤ
window_for_time max_compaction_range t = quot (unix t) (max_compaction_range / nanos_per_second)

unfoldable pub window_for_block : ℕ → BlockMeta → ℤ
window_for_block max_compaction_range b = window_for_time max_compaction_range b.end_time

-- The entry of a block in window `w`, seen from the current and the last active window.
unfoldable pub entry_for : ℤ → ℤ → ℤ → BlockMeta → Entry
entry_for curr_window active_window w b =
    if leb_ℤ active_window w
    then record {
      meta = b;
      group = b'A' ∷ b'-' ∷ (decimal b.compaction_level ++ (b'-' ∷ hex16_ℤ (curr_window -ℤ w)));
      order = hex_padded 16 b.total_objects ++ (b'-' ∷ b.version);
      hash = b.tenant_id ++ (b'-' ∷ (decimal b.compaction_level ++ (b'-' ∷ decimal_ℤ w)));
    }
    else record {
      meta = b;
      group = b'B' ∷ b'-' ∷ hex16_ℤ (curr_window -ℤ w);
      order =
          decimal b.compaction_level
          ++ (b'-' ∷ (hex_padded 16 b.total_objects ++ (b'-' ∷ b.version)));
      hash = b.tenant_id ++ (b'-' ∷ decimal_ℤ w);
    }

-- The loop over the block list; blocks of the last active window are left out.
unfoldable pub entries_for : ℕ → ℤ → ℤ → List BlockMeta → List Entry
entries_for range curr_window active_window [] = []
entries_for range curr_window active_window (b ∷ bs) =
    let w = window_for_block range b in
    let rest = entries_for range curr_window active_window bs in
    if beq_ℤ w active_window then rest else entry_for curr_window active_window w b ∷ rest

-- The `less` of the sort.
abbrev pub before : Entry → Entry → Bool
before x y =
    if bytes_beq x.group y.group then bytes_lt x.order y.order else bytes_lt x.group y.group

-- `sort.SliceStable`, by insertion from the back.
abbrev pub insert_entry : Entry → List Entry → List Entry
insert_entry x [] = x ∷ []
insert_entry x (y ∷ ys) = if before y x then y ∷ insert_entry x ys else x ∷ y ∷ ys

unfoldable pub sort_entries : List Entry → List Entry
sort_entries [] = []
sort_entries (x ∷ xs) = insert_entry x (sort_entries xs)

unfoldable pub new_time_window_block_selector :
    Time → List BlockMeta → ℕ → ℕ → ℕ → ℕ → ℕ → Option Selector
new_time_window_block_selector now blocklist range max_objects max_bytes min_input max_input =
    if nat_beq (range / nanos_per_second) 0
    then none
    else some (record {
      min_input_blocks = min_input;
      max_input_blocks = max_input;
      max_compaction_range = range;
      max_compaction_objects = max_objects;
      max_block_bytes = max_bytes;
      entries = sort_entries (
          entries_for range (window_for_time range now)
            (window_for_time range (now - active_window_duration)) blocklist);
    })

unfoldable pub total_objects : List Entry → ℕ
total_objects [] = 0
total_objects (e ∷ es) = e.meta.total_objects + total_objects es

-- The loop adds from the front, modulo 2^64.
unfoldable pub total_size_from : ℕ → List Entry → ℕ
total_size_from sz [] = sz
total_size_from sz (e ∷ es) = total_size_from ((sz + e.meta.size) % 2 ^ 64) es

abbrev pub total_size : List Entry → ℕ
total_size = total_size_from 0

-- The entries `i` and `j` and what the stripe `entries[i : j+1]` must satisfy.
abbrev pub alike : Entry → Entry → Bool
alike x y =
    bytes_beq x.group y.group
    && (bytes_beq x.meta.data_encoding y.meta.data_encoding
        && bytes_beq x.meta.version y.meta.version)

abbrev pub within : Selector → List Entry → Bool
within s stripe =
    leb (length stripe) s.max_input_blocks
    && (leb (total_objects stripe) s.max_compaction_objects
        && leb (total_size stripe) s.max_block_bytes)

-- The inner loop: the longest stripe that starts with `stripe`, whose first entry is `x`.
unfoldable pub extend : Selector → Entry → List Entry → List Entry → List Entry
extend s x stripe [] = stripe
extend s x stripe (e ∷ rest) =
    let longer = extend s x (stripe ++ e ∷ []) rest in
    if alike x e && within s (stripe ++ e ∷ []) then longer else stripe

-- The outer loop of one round: the chosen stripe and the entries after it. A stripe that could not
-- be extended is not chosen.
unfoldable pub first_stripe : Selector → List Entry → List Entry × List Entry
first_stripe s [] = ([], [])
first_stripe s (e ∷ rest) =
    let stripe = extend s e (e ∷ []) rest in
    let later = first_stripe s rest in
    if leb (length stripe) 1 then later else (stripe, drop (length stripe - 1) rest)

-- `chosen[0]` of no entries is the panic.
pub data Selection : Type 0 where
  to_compact : List BlockMeta → Bytes → Selection
  nothing : Selection
  index_panic : Selection

abbrev pub selection_of : List Entry → Selection
selection_of [] = index_panic
selection_of (e ∷ es) = to_compact (e.meta ∷ map (λ x. x.meta) es) e.hash

-- The rounds. Each removes an entry at least, so as many rounds as there are entries are enough.
unfoldable pub rounds : Selector → ℕ → List Entry → Selection × List Entry
rounds s zero entries = (nothing, entries)
rounds s (suc fuel) [] = (nothing, [])
rounds s (suc fuel) (e ∷ es) =
    let (chosen, remaining) = first_stripe s (e ∷ es) in
    let later = rounds s fuel remaining in
    if leb s.min_input_blocks (length chosen) then (selection_of chosen, remaining) else later

unfoldable pub blocks_to_compact : Selector → Selection × Selector
unfolding rounds
blocks_to_compact s =
    let (selection, remaining) = rounds s (length s.entries) s.entries in
    (selection, record s { entries = remaining })
