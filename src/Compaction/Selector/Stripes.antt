-- ===== src/Compaction/Selector/Stripes.antt =====
-- The stripe that one round of pkg/deepdb/compaction_block_selector.go cuts out of the sorted
-- entries.
use deep.Prelude.{
  suc, ◌-◌, ◌≤◌, Bool, true, false, ◌&&◌, List, [], ◌∷◌, ◌++◌, append-nil, append_assoc, ◌≡◌, refl,
  sym, ap, ◌∙◌, subst, ◌⊎◌, inl, inr, length, drop, leb, All, Bool-cases, arith,
}
use deep.Compaction.Selector.{Entry, Selector, alike, within, extend, first_stripe}

-- The loop cannot take the entry after the stripe: there is none, or it is of another kind, or the
-- stripe would exceed a limit.
abbrev pub Stops : Selector → Entry → List Entry → List Entry → Type 0
Stops s x stripe [] = Unit
Stops s x stripe (e ∷ rest) = (alike x e && within s (stripe ++ e ∷ [])) ≡ false

-- What the inner loop adds to `stripe` from the front of `rest`.
pub record Stretch (s : Selector) (x : Entry) (stripe rest result : List Entry) : Type 0 where
  pub more : List Entry
  pub after : List Entry
  pub result_is : result ≡ stripe ++ more
  pub rest_is : rest ≡ more ++ after
  pub after_is : after ≡ drop (length more) rest
  pub same_kind : All (λ e. alike x e ≡ true) more
  pub fits : (more ≡ []) ⊎ (within s result ≡ true)
  pub longest : Stops s x result after

and-true : (a b : Bool) → (a && b) ≡ true → (a ≡ true) × (b ≡ true)
and-true a b h = ground arith

stay :
    (s : Selector) (x : Entry) (stripe rest : List Entry)
    → Stops s x stripe rest
    → Stretch s x stripe rest stripe
stay s x stripe rest h = record {
  more = [];
  after = rest;
  result_is = sym (append-nil stripe);
  rest_is = refl;
  after_is = refl;
  same_kind = tt;
  fits = inl refl;
  longest = h;
}

fits_from :
    (s : Selector) (stripe result more : List Entry)
    → result ≡ stripe ++ more
    → within s stripe ≡ true
    → (more ≡ []) ⊎ (within s result ≡ true)
    → within s result ≡ true
fits_from s stripe result more e h (inl n) =
    subst (λ l. within s l ≡ true) (sym (e ∙ ap (λ m. stripe ++ m) n ∙ append-nil stripe)) h
fits_from s stripe result more e h (inr w) = w

longer :
    (s : Selector) (x e : Entry) (stripe rest result : List Entry)
    → alike x e ≡ true
    → within s (stripe ++ e ∷ []) ≡ true
    → Stretch s x (stripe ++ e ∷ []) rest result
    → Stretch s x stripe (e ∷ rest) result
longer s x e stripe rest result k w t = record {
  more = e ∷ t.more;
  after = t.after;
  result_is = t.result_is ∙ append_assoc stripe (e ∷ []) t.more;
  rest_is = ap (λ l. e ∷ l) t.rest_is;
  after_is = t.after_is;
  same_kind = (k, t.same_kind);
  fits = inr (fits_from s (stripe ++ e ∷ []) result t.more t.result_is w t.fits);
  longest = t.longest;
}

pub extend-Stretch :
    (s : Selector) (x : Entry) (stripe rest : List Entry)
    → Stretch s x stripe rest (extend s x stripe rest)
unfolding extend
extend-Stretch s x stripe [] = stay s x stripe [] tt
extend-Stretch s x stripe (e ∷ rest) =
    elim (Bool-cases (alike x e && within s (stripe ++ e ∷ []))) [
      | inl y ↦
          let (k, w) = and-true (alike x e) (within s (stripe ++ e ∷ [])) y in
          rw y (
            longer s x e stripe rest (extend s x (stripe ++ e ∷ []) rest) k w
              (extend-Stretch s x (stripe ++ e ∷ []) rest))
      | inr n ↦ rw n (stay s x stripe (e ∷ rest) n)
    ]

-- The stripe of a round: at least two neighbouring entries, of the first one's kind, within the
-- limits, and as many as possible.
pub record Cut (s : Selector) (entries chosen remaining : List Entry) : Type 0 where
  pub skipped : List Entry
  pub first : Entry
  pub more : List Entry
  pub chosen_is : chosen ≡ first ∷ more
  pub entries_are : entries ≡ skipped ++ (chosen ++ remaining)
  pub two : 2 ≤ length chosen
  pub same_kind : All (λ e. alike first e ≡ true) more
  pub fits : within s chosen ≡ true
  pub longest : Stops s first chosen remaining

skip :
    (s : Selector) (e : Entry) (entries chosen remaining : List Entry)
    → Cut s entries chosen remaining
    → Cut s (e ∷ entries) chosen remaining
skip s e entries chosen remaining c = record {
  skipped = e ∷ c.skipped;
  first = c.first;
  more = c.more;
  chosen_is = c.chosen_is;
  entries_are = ap (λ l. e ∷ l) c.entries_are;
  two = c.two;
  same_kind = c.same_kind;
  fits = c.fits;
  longest = c.longest;
}

not_nil : {P : Type 0} (more : List Entry) → 1 ≤ length more → (more ≡ []) ⊎ P → P
not_nil [] l f = ground arith
not_nil (e ∷ es) l (inl f) = ground arith
not_nil (e ∷ es) l (inr p) = p

cut :
    (s : Selector) (e : Entry) (rest stripe : List Entry)
    → Stretch s e (e ∷ []) rest stripe
    → leb (length stripe) 1 ≡ false
    → Cut s (e ∷ rest) stripe (drop (length stripe - 1) rest)
cut s e rest stripe t n =
    let l : length stripe ≡ suc (length t.more) = ap length t.result_is in
    let k : length stripe - 1 ≡ length t.more = omega arith in
    let d : drop (length stripe - 1) rest ≡ t.after = ap (λ i. drop i rest) k ∙ sym t.after_is in
    rw d (record {
      skipped = [];
      first = e;
      more = t.more;
      chosen_is = t.result_is;
      entries_are = ap (λ r. e ∷ r) t.rest_is ∙ sym (ap (λ r. r ++ t.after) t.result_is);
      two = ground arith;
      same_kind = t.same_kind;
      fits = not_nil t.more (ground arith) t.fits;
      longest = t.longest;
    })

-- Of the entries with no stripe nothing remains.
pub first_stripe-Cut :
    (s : Selector) (entries : List Entry)
    → let (chosen, remaining) = first_stripe s entries in
      ((chosen ≡ []) × (remaining ≡ [])) ⊎ Cut s entries chosen remaining
unfolding first_stripe
first_stripe-Cut s [] = inl (refl, refl)
first_stripe-Cut s (e ∷ rest) = elim (Bool-cases (leb (length (extend s e (e ∷ []) rest)) 1)) [
  | inl y ↦ rw y (elim (first_stripe-Cut s rest) [
    | inl none_left ↦ inl none_left
    | inr c ↦ inr (skip s e rest (first_stripe s rest).0 (first_stripe s rest).1 c)
  ])
  | inr n ↦
      rw n (inr (cut s e rest (extend s e (e ∷ []) rest) (extend-Stretch s e (e ∷ []) rest) n))
]
