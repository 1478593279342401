-- ===== src/Frontend/Response/Quitting.antt =====
-- When modules/frontend/search_response.go gives a search up.
use deep.Prelude.{
  ℕ, ◌/◌, ◌≤◌, Bytes, bytes_eq, Bool, true, false, ◌||◌, List, [], ◌∷◌, none, Map, get, put, ◌≡◌,
  ◌≢◌, refl, length, All, nat_beq, arith, Option-cases, inl, inr,
}
use deep.Frontend.Response.{
  SnapshotSearchMetadata, SearchResponse, Answer, internal_should_quit, cancel_if_quit, set_status,
  set_error, add_snapshot, add_snapshots, add_response, new_search_response, failed, outcome,
  merged,
}

-- What the requests of a search report, in the order in which they take the mutex.
pub data Report : Type 0 where
  status : ℕ → Bytes → Report
  error : ℕ → Report
  answer : Answer → Report

unfoldable pub take_report : Report → SearchResponse → SearchResponse
unfolding set_status set_error add_response
take_report (status code msg) r = set_status code msg r
take_report (error e) r = set_error e r
take_report (answer a) r = add_response a r

unfoldable pub take_reports : List Report → SearchResponse → SearchResponse
unfolding take_report
take_reports [] r = r
take_reports (e ∷ es) r = take_reports es (take_report e r)

-- A status is reported only when it is not 200; it is supposed not to be another 2xx.
abbrev pub IsBad : Report → Type 0
IsBad (status code msg) = nat_beq (code / 100) 2 ≡ false
IsBad (error e) = Unit
IsBad (answer a) = Unit

length-put :
    (k : Bytes) (v : SnapshotSearchMetadata) (m : Map Bytes SnapshotSearchMetadata)
    → length m ≤ length (put k v m)
length-put k v [] = omega arith
length-put k v ((j, w) ∷ m) = ground (arith, length-put k v m)

length-add_snapshots :
    (ts : List SnapshotSearchMetadata) (m : Map Bytes SnapshotSearchMetadata)
    → length m ≤ length (add_snapshots ts m)
unfolding add_snapshots add_snapshot
length-add_snapshots [] m = omega arith
length-add_snapshots (t ∷ ts) m =
    let v = merged t (get t.snapshot_id m) in
    omega (arith, length-add_snapshots ts (add_snapshot t m), length-put t.snapshot_id v m)

quit-take_report :
    (e : Report) (r : SearchResponse)
    → IsBad e
    → internal_should_quit r ≡ true
    → internal_should_quit (take_report e r) ≡ true
unfolding take_report set_status set_error add_response cancel_if_quit internal_should_quit
quit-take_report (status code msg) r b q = ground (arith, b)
quit-take_report (error e) r b q = refl
quit-take_report (answer a) r b q = ground (arith, length-add_snapshots a.snapshots r.results_map)

or_self : (a b c : Bool) → a ≡ b → (b ≡ true → c ≡ true) → (a || c) ≡ c
or_self a b c e h = ground (arith, h)

cancelled-take_report :
    (e : Report) (r : SearchResponse)
    → IsBad e
    → r.cancelled ≡ internal_should_quit r
    → (take_report e r).cancelled ≡ internal_should_quit (take_report e r)
unfolding take_report set_status set_error add_response cancel_if_quit internal_should_quit
cancelled-take_report (status code msg) r b h =
    or_self _ _ _ h (quit-take_report (status code msg) r b)
cancelled-take_report (error e) r b h = or_self _ _ _ h (quit-take_report (error e) r b)
cancelled-take_report (answer a) r b h = or_self _ _ _ h (quit-take_report (answer a) r b)

-- A search that should quit keeps to it, whatever the remaining requests report, when no reported
-- status is a 2xx.
pub take_reports-quit :
    (es : List Report) (r : SearchResponse)
    → All IsBad es
    → internal_should_quit r ≡ true
    → internal_should_quit (take_reports es r) ≡ true
unfolding take_reports
take_reports-quit [] r b q = q
take_reports-quit (e ∷ es) r b q =
    take_reports-quit es (take_report e r) b.1 (quit-take_report e r b.0 q)

cancelled-take_reports :
    (es : List Report) (r : SearchResponse)
    → All IsBad es
    → r.cancelled ≡ internal_should_quit r
    → (take_reports es r).cancelled ≡ internal_should_quit (take_reports es r)
unfolding take_reports
cancelled-take_reports [] r b h = h
cancelled-take_reports (e ∷ es) r b h =
    cancelled-take_reports es (take_report e r) b.1 (cancelled-take_report e r b.0 h)

-- The running requests of a search are cancelled exactly when the search should quit, after any
-- reports in any order none of which is a status 2xx, while the caller's context is not done.
pub take_reports-cancelled :
    (limit : ℕ) (es : List Report)
    → All IsBad es
    → let r = take_reports es (new_search_response limit) in r.cancelled ≡ internal_should_quit r
unfolding new_search_response internal_should_quit
take_reports-cancelled limit es b =
    cancelled-take_reports es (new_search_response limit) b (ground arith)

err-take_report : (e : Report) (r : SearchResponse) → r.err ≢ none → (take_report e r).err ≢ none
unfolding take_report set_status set_error add_response cancel_if_quit
err-take_report (status code msg) r h = h
err-take_report (error e) r h = λ p. cc
err-take_report (answer a) r h = h

keeps_error :
    (es : List Report) (r : SearchResponse) → r.err ≢ none → (take_reports es r).err ≢ none
unfolding take_reports
keeps_error [] r h = h
keeps_error (e ∷ es) r h = keeps_error es (take_report e r) (err-take_report e r h)

-- A search fails once one of its requests has reported an error, whatever the others report before
-- and after it.
pub outcome-error :
    (before after : List Report) (e : ℕ) (r : SearchResponse)
    → (x : ℕ) × (outcome (take_reports after (take_report (error e) (take_reports before r)))
        ≡ failed x)
unfolding outcome take_report set_error cancel_if_quit
outcome-error before after e r =
    let s = take_report (error e) (take_reports before r) in
    elim (Option-cases (take_reports after s).err) [
      | inl n ↦ absurd (keeps_error after s (λ p. cc) n)
      | inr (x, f) ↦ (x, rw f refl)
    ]
