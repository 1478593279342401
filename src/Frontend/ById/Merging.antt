-- ===== src/Frontend/ById/Merging.antt =====
-- What a lookup of modules/frontend/snapshotbyidsharding.go answers for the replies of its
-- shards.
use deep.Prelude.{
  ℕ, ◌≡◌, refl, ap, ◌∙◌, Bool, true, false, not, ◌&&◌, ◌||◌, List, [], ◌∷◌, ◌++◌, Option, none,
  some, Bool-cases, Option-cases, nat_beq, inl, inr, arith,
}
use deep.Frontend.ById.{
  SnapshotByIdResponse, HttpReply, Reply, transport_error, reply, Lookup, start_lookup, is_complete,
  should_quit, complete, add_failed, too_many, take_message, take_body, take_http, take_reply,
  take_replies, success, outcome,
}

module _ {ℓ} {S : Type ℓ} where
  -- The lookup has the snapshot, with a number of failed blocks.
  pub record Has (s : S) (n : ℕ) (l : Lookup S) : Type ℓ where
    pub found : l.result ≡ some s
    pub happy : l.status_code ≡ 200
    pub counted : l.total_failed_blocks ≡ n

  complete_of : (s : S) (l : Lookup S) → l.result ≡ some s → is_complete l ≡ true
  unfolding is_complete
  complete_of s l h = ground (arith, h)

  take_reply-Has :
      (max : ℕ) (done : Bool) (r : Reply S) (s : S) (n : ℕ) (l : Lookup S)
      → Has s n l
      → Has s n (take_reply max done r l)
  unfolding take_reply
  take_reply-Has max done (transport_error e) s n l h = record {
    found = h.found;
    happy = h.happy;
    counted = h.counted;
  }
  take_reply-Has max done (reply r) s n l h = rw (complete_of s l h.found) h

  take_replies-Has :
      (max : ℕ) (rs : List (Bool × Reply S)) (s : S) (n : ℕ) (l : Lookup S)
      → Has s n l
      → Has s n (take_replies max rs l)
  unfolding take_replies
  take_replies-Has max [] s n l h = h
  take_replies-Has max ((done, r) ∷ rs) s n l h =
      take_replies-Has max rs s n (take_reply max done r l) (take_reply-Has max done r s n l h)

  outcome-Has : (s : S) (n : ℕ) (l : Lookup S) → Has s n l → outcome l ≡ success s n
  unfolding outcome
  outcome-Has s n l h = ground (arith, h.found, h.happy, h.counted)

  take_replies-append :
      (max : ℕ) (ps rs : List (Bool × Reply S)) (l : Lookup S)
      → take_replies max (ps ++ rs) l ≡ take_replies max rs (take_replies max ps l)
  unfolding take_replies
  take_replies-append max [] rs l = refl
  take_replies-append max ((done, r) ∷ ps) rs l =
      take_replies-append max ps rs (take_reply max done r l)

  -- A reply of status 200 with the snapshot, and few enough failed blocks with those before.
  pub record IsGood (max : ℕ) (l : Lookup S) (s : S) (r : HttpReply S) (m : SnapshotByIdResponse S)
      : Type ℓ where
    pub ok : r.status_code ≡ 200
    pub readable : r.read_error ≡ none
    pub decodes : r.message ≡ some m
    pub holds : m.snapshot ≡ some s
    pub few : too_many max m.failed_blocks (add_failed m.failed_blocks l) ≡ false

  complete-Has :
      (s : S) (l : Lookup S)
      → l.result ≡ none
      → l.status_code ≡ 200
      → Has s l.total_failed_blocks (complete (some s) l)
  unfolding complete
  complete-Has s l h k = rw h (record { found = refl; happy = k; counted = refl })

  add_failed-result : (n : Option ℕ) (l : Lookup S) → (add_failed n l).result ≡ l.result
  add_failed-result none l = refl
  add_failed-result (some n) l = refl

  open_result : (l : Lookup S) → is_complete l ≡ false → l.result ≡ none
  unfolding is_complete
  open_result l h = ground (arith, h)

  take_reply-IsGood :
      (max : ℕ) (done : Bool) (s : S) (r : HttpReply S) (m : SnapshotByIdResponse S) (l : Lookup S)
      → is_complete l ≡ false
      → should_quit done l.status_code l.overall_error ≡ false
      → IsGood max l s r m
      → Has s (add_failed m.failed_blocks l).total_failed_blocks (take_reply max done (reply r) l)
  unfolding take_reply take_http take_message
  take_reply-IsGood max done s r m l c q g =
      rw (c, q, g.ok, g.readable, g.decodes, g.few, g.holds)
        (complete-Has s (record (add_failed m.failed_blocks l) { status_code = 200 })
          (add_failed-result m.failed_blocks l ∙ open_result l c) refl)

  -- Where the replies so far have neither found the snapshot nor ended the lookup, a reply of
  -- status 200 with the snapshot, and with few enough failed blocks, decides: whatever replies
  -- follow, the answer is that snapshot, with the failed blocks up to that reply.
  pub outcome-found :
      (max : ℕ) (ps qs : List (Bool × Reply S)) (done : Bool) (s : S) (r : HttpReply S)
      (m : SnapshotByIdResponse S)
      → is_complete (take_replies max ps start_lookup) ≡ false
      → should_quit done
          (take_replies max ps start_lookup).status_code
          (take_replies max ps start_lookup).overall_error
        ≡ false
      → IsGood max (take_replies max ps start_lookup) s r m
      → outcome (take_replies max (ps ++ ((done, reply r) ∷ qs)) start_lookup)
        ≡ success s
            (add_failed m.failed_blocks (take_replies max ps start_lookup)).total_failed_blocks
  unfolding take_replies
  outcome-found max ps qs done s r m c q g =
      rw (take_replies-append max ps ((done, reply r) ∷ qs) start_lookup) (
        outcome-Has s
          (add_failed m.failed_blocks (take_replies max ps start_lookup)).total_failed_blocks
          (take_replies max qs (take_reply max done (reply r) (take_replies max ps start_lookup)))
          (take_replies-Has max qs s
            (add_failed m.failed_blocks (take_replies max ps start_lookup)).total_failed_blocks
            (take_reply max done (reply r) (take_replies max ps start_lookup))
            (take_reply-IsGood max done s r m (take_replies max ps start_lookup) c q g)))

  -- The reply holds the snapshot, and its status is not 404.
  pub record Held (s : S) (x : Reply S) : Type ℓ where
    pub r : HttpReply S
    pub m : SnapshotByIdResponse S
    pub is_reply : x ≡ reply r
    pub ok : r.status_code ≡ 200
    pub decodes : r.message ≡ some m
    pub holds : m.snapshot ≡ some s

  take_message-result :
      (max : ℕ) (status : ℕ) (m : SnapshotByIdResponse S) (s : S) (l : Lookup S)
      → l.result ≡ none
      → (take_message max status m l).result ≡ some s
      → (m.snapshot ≡ some s) × (nat_beq status 404 ≡ false)
  unfolding take_message complete
  take_message-result max status m s l h k =
      ground (arith, h, k, add_failed-result m.failed_blocks l)

  take_body-result :
      (max : ℕ) (r : HttpReply S) (e : Option ℕ) (o : Option (SnapshotByIdResponse S)) (s : S)
      (l : Lookup S)
      → l.result ≡ none
      → (take_body max r e o l).result ≡ some s
      → (m : SnapshotByIdResponse S) × (o ≡ some m)
        × (m.snapshot ≡ some s)
        × (nat_beq r.status_code 404 ≡ false)
  take_body-result max r (some e) o s l h k = absurd (ground (arith, h, k))
  take_body-result max r none none s l h k = absurd (ground (arith, h, k))
  take_body-result max r none (some m) s l h k =
      let (snapshot, other) = take_message-result max r.status_code m s l h k in
      (m, refl, snapshot, other)

  take_http-result :
      (max : ℕ) (r : HttpReply S) (s : S) (l : Lookup S)
      → l.result ≡ none
      → (take_http max r l).result ≡ some s
      → Held s (reply r)
  unfolding take_http
  take_http-result max r s l h k =
      elim (Bool-cases (not (nat_beq r.status_code 200) && not (nat_beq r.status_code 404))) [
        | inl e ↦ absurd (ground (arith, e, h, k))
        | inr n ↦
            let (m, message, snapshot, other) =
              take_body-result max r r.read_error r.message s l h (ground (arith, n, k)) in
            record {
              r = r;
              m = m;
              is_reply = refl;
              ok = ground (arith, n, other);
              decodes = message;
              holds = snapshot;
            }
      ]

  -- A step that finds the snapshot got it from its reply.
  take_reply-Held :
      (max : ℕ) (done : Bool) (x : Reply S) (s : S) (l : Lookup S)
      → l.result ≡ none
      → (take_reply max done x l).result ≡ some s
      → Held s x
  unfolding take_reply
  take_reply-Held max done (transport_error e) s l h k = absurd (ground (arith, h, k))
  take_reply-Held max done (reply r) s l h k =
      elim (Bool-cases (is_complete l || should_quit done l.status_code l.overall_error)) [
        | inl e ↦ absurd (ground (arith, e, h, k))
        | inr n ↦ take_http-result max r s l h (ground (arith, n, k))
      ]

  take_reply-result :
      (max : ℕ) (done : Bool) (x : Reply S) (s : S) (l : Lookup S)
      → l.result ≡ some s
      → (take_reply max done x l).result ≡ some s
  unfolding take_reply
  take_reply-result max done (transport_error e) s l h = h
  take_reply-result max done (reply r) s l h = rw (complete_of s l h) h

  take_replies-result :
      (max : ℕ) (rs : List (Bool × Reply S)) (s : S) (l : Lookup S)
      → l.result ≡ some s
      → (take_replies max rs l).result ≡ some s
  unfolding take_replies
  take_replies-result max [] s l h = h
  take_replies-result max ((done, r) ∷ rs) s l h =
      take_replies-result max rs s (take_reply max done r l) (take_reply-result max done r s l h)

  -- A list of replies one of which holds the snapshot.
  abbrev pub SomeHeld : S → List (Bool × Reply S) → Type ℓ
  SomeHeld s rs =
      (ps : List (Bool × Reply S)) × (done : Bool) × (r : Reply S) × (qs : List (Bool × Reply S))
      × (rs ≡ ps ++ ((done, r) ∷ qs))
      × Held s r

  take_replies-Held :
      (max : ℕ) (rs : List (Bool × Reply S)) (s : S) (l : Lookup S)
      → l.result ≡ none
      → (take_replies max rs l).result ≡ some s
      → SomeHeld s rs
  unfolding take_replies
  take_replies-Held max [] s l h k = absurd (ground (arith, h, k))
  take_replies-Held max ((done, r) ∷ rs) s l h k =
      elim (Option-cases (take_reply max done r l).result) [
        | inl e ↦ later done r rs (take_replies-Held max rs s (take_reply max done r l) e k)
        | inr (t, e) ↦
            let kept = take_replies-result max rs t (take_reply max done r l) e in
            let same : t ≡ s = ground (arith, kept, k) in
            (
              [],
              done,
              r,
              rs,
              refl,
              take_reply-Held max done r s l h (e ∙ ap (λ (x : S). some x) same),
            )
      ]
    where
      later :
          (done : Bool) (r : Reply S) (rs : List (Bool × Reply S))
          → SomeHeld s rs
          → SomeHeld s ((done, r) ∷ rs)
      later done r rs (ps, d, x, qs, e, held) =
          ((done, r) ∷ ps, d, x, qs, ap (λ (l : List (Bool × Reply S)). (done, r) ∷ l) e, held)

  outcome-result : (s : S) (n : ℕ) (l : Lookup S) → outcome l ≡ success s n → l.result ≡ some s
  unfolding outcome
  outcome-result s n l h = elim (Option-cases l.result) [
    | inl e ↦ elim (Option-cases l.overall_error) [
      | inl e' ↦ ground (arith, e, e', h)
      | inr (x, e') ↦ ground (arith, e, e', h)
    ]
    | inr (t, e) ↦ ground (arith, e, h)
  ]

  -- A snapshot that a lookup answers was in one of the replies, of status 200.
  pub outcome-Held :
      (max n : ℕ) (rs : List (Bool × Reply S)) (s : S)
      → outcome (take_replies max rs start_lookup) ≡ success s n
      → SomeHeld s rs
  outcome-Held max n rs s h =
      take_replies-Held max rs s start_lookup refl
        (outcome-result s n (take_replies max rs start_lookup) h)
