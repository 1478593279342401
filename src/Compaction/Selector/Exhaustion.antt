-- ===== src/Compaction/Selector/Exhaustion.antt =====
-- What `BlocksToCompact` of pkg/deepdb/compaction_block_selector.go hands out, over all its rounds.
use deep.Prelude.{
  ℕ, zero, suc, ◌+◌, ◌≤◌, ◌<◌, true, List, [], ◌∷◌, ◌++◌, append_assoc, ◌≡◌, refl, sym, ap, ◌∙◌,
  subst, inl, inr, length, length-append, leb, All, Bool-cases, map, arith,
}
use deep.Backend.{BlockMeta}
use deep.Compaction.Selector.{
  Entry, Selector, alike, within, first_stripe, Selection, to_compact, nothing, index_panic,
  selection_of, rounds, blocks_to_compact,
}
use deep.Compaction.Selector.Stripes.{Cut, Stops, first_stripe-Cut}

-- The blocks `metas` and their hash come from one stripe of `entries`; only what follows it remains.
pub record Handed (s : Selector) (entries : List Entry) (metas : List BlockMeta) (hash : List ℕ)
    (remaining : List Entry) : Type 0 where
  pub skipped : List Entry
  pub stripe : List Entry
  pub first : Entry
  pub more : List Entry
  pub stripe_is : stripe ≡ first ∷ more
  pub metas_are : metas ≡ map (λ e. e.meta) stripe
  pub hash_is : hash ≡ first.hash
  pub entries_are : entries ≡ skipped ++ (stripe ++ remaining)
  pub enough : s.min_input_blocks ≤ length stripe
  pub two : 2 ≤ length stripe
  pub same_kind : All (λ e. alike first e ≡ true) more
  pub fits : within s stripe ≡ true
  pub longest : Stops s first stripe remaining

abbrev pub HandsOut : Selector → List Entry → Selection → List Entry → Type 0
HandsOut s entries (to_compact metas hash) remaining = Handed s entries metas hash remaining
HandsOut s entries nothing remaining = remaining ≡ []
HandsOut s entries index_panic remaining = s.min_input_blocks ≡ 0

handed :
    (s : Selector) (entries chosen remaining : List Entry)
    → Cut s entries chosen remaining
    → leb s.min_input_blocks (length chosen) ≡ true
    → HandsOut s entries (selection_of chosen) remaining
handed s entries chosen remaining c y =
    subst (λ l. HandsOut s entries (selection_of l) remaining) (sym c.chosen_is)
      (record {
        skipped = c.skipped;
        stripe = c.first ∷ c.more;
        first = c.first;
        more = c.more;
        stripe_is = refl;
        metas_are = refl;
        hash_is = refl;
        entries_are = c.entries_are ∙ ap (λ l. c.skipped ++ (l ++ remaining)) c.chosen_is;
        enough = subst (λ l. s.min_input_blocks ≤ length l) c.chosen_is (ground arith);
        two = subst (λ l. 2 ≤ length l) c.chosen_is c.two;
        same_kind = c.same_kind;
        fits = subst (λ l. within s l ≡ true) c.chosen_is c.fits;
        longest = subst (λ l. Stops s c.first l remaining) c.chosen_is c.longest;
      })

-- A stripe of what a cut leaves is one of the whole.
later :
    (s : Selector) (entries chosen remaining : List Entry)
    → Cut s entries chosen remaining
    → (selection : Selection) (final : List Entry) → HandsOut s remaining selection final
    → HandsOut s entries selection final
later s entries chosen remaining c nothing final h = h
later s entries chosen remaining c index_panic final h = h
later s entries chosen remaining c (to_compact metas hash) final h = record {
  skipped = c.skipped ++ (chosen ++ h.skipped);
  stripe = h.stripe;
  first = h.first;
  more = h.more;
  stripe_is = h.stripe_is;
  metas_are = h.metas_are;
  hash_is = h.hash_is;
  entries_are =
      c.entries_are
      ∙ ap (λ l. c.skipped ++ (chosen ++ l)) h.entries_are
      ∙ ap (λ l. c.skipped ++ l) (sym (append_assoc chosen h.skipped (h.stripe ++ final)))
      ∙ sym (append_assoc c.skipped (chosen ++ h.skipped) (h.stripe ++ final));
  enough = h.enough;
  two = h.two;
  same_kind = h.same_kind;
  fits = h.fits;
  longest = h.longest;
}

shorter :
    (s : Selector) (entries chosen remaining : List Entry)
    → Cut s entries chosen remaining
    → length remaining < length entries
shorter s entries chosen remaining c =
    let e : length entries ≡ length c.skipped + (length chosen + length remaining) =
      ap length c.entries_are
      ∙ length-append c.skipped (chosen ++ remaining)
      ∙ ap (λ n. length c.skipped + n) (length-append chosen remaining) in
    let t : 2 ≤ length chosen = c.two in omega arith

rounds-nil : (s : Selector) (fuel : ℕ) → rounds s fuel [] ≡ (nothing, [])
unfolding rounds
rounds-nil s zero = refl
rounds-nil s (suc fuel) = refl

no_minimum_at :
    (s : Selector) (entries chosen remaining : List Entry)
    → chosen ≡ []
    → leb s.min_input_blocks (length chosen) ≡ true
    → HandsOut s entries (selection_of chosen) remaining
no_minimum_at s entries [] remaining c y = ground arith
no_minimum_at s entries (e ∷ es) remaining c y = ground arith

nothing_left :
    (s : Selector) (fuel : ℕ) (entries remaining : List Entry)
    → remaining ≡ []
    → HandsOut s entries (rounds s fuel remaining).0 (rounds s fuel remaining).1
nothing_left s fuel entries remaining r =
    subst (λ l. HandsOut s entries (rounds s fuel l).0 (rounds s fuel l).1) (sym r)
      (rw (rounds-nil s fuel) refl)

pub rounds-HandsOut :
    (s : Selector) (fuel : ℕ) (entries : List Entry)
    → length entries ≤ fuel
    → HandsOut s entries (rounds s fuel entries).0 (rounds s fuel entries).1
unfolding rounds
rounds-HandsOut s zero [] l = refl
rounds-HandsOut s zero (e ∷ es) l = ground arith
rounds-HandsOut s (suc fuel) [] l = refl
rounds-HandsOut s (suc fuel) (e ∷ es) l =
    let chosen = (first_stripe s (e ∷ es)).0 in
    let remaining = (first_stripe s (e ∷ es)).1 in
    elim (Bool-cases (leb s.min_input_blocks (length (first_stripe s (e ∷ es)).0))) [
      | inl y ↦ rw y (elim (first_stripe-Cut s (e ∷ es)) [
        | inl none_left ↦ no_minimum_at s (e ∷ es) chosen remaining none_left.0 y
        | inr c ↦ handed s (e ∷ es) chosen remaining c y
      ])
      | inr n ↦ rw n (elim (first_stripe-Cut s (e ∷ es)) [
        | inl none_left ↦ nothing_left s fuel (e ∷ es) remaining none_left.1
        | inr c ↦
            later s (e ∷ es) chosen remaining c (rounds s fuel remaining).0
              (rounds s fuel remaining).1
              (rounds-HandsOut s fuel remaining
                (let q = shorter s (e ∷ es) chosen remaining c in ground arith))
      ])
    ]

-- The blocks handed out are the metas of one stripe of the selector's entries, with the hash of its
-- first one: at least two neighbours in the order of the entries, at least the minimum and at most
-- the maximum number, alike in group, data encoding and version, within the limits on objects and
-- bytes, and such that the entry that follows cannot be added. The selector keeps just the entries
-- after the stripe. When nothing is handed out no entry is left, and the panic needs a minimum of 0.
pub blocks_to_compact-HandsOut :
    (s : Selector) → HandsOut s s.entries (blocks_to_compact s).0 (blocks_to_compact s).1.entries
unfolding blocks_to_compact
blocks_to_compact-HandsOut s = rounds-HandsOut s (length s.entries) s.entries (ground arith)
