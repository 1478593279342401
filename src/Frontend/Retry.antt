-- ===== src/Frontend/Retry.antt =====
-- modules/frontend/retry.go: a request is tried again after an error or a response of 5xx.
use deep.Prelude.{
  ℕ, zero, suc, ◌+◌, ◌/◌, ◌≤◌, ◌<◌, Bool, true, false, not, Option, none, some, ◌≡◌, ◌⊎◌, inl, inr,
  Bool-cases, leb, nat_beq, if◌then◌else◌, arith,
}

-- What the next round tripper answers: a response with its status code, or an error, with the code
-- of the HTTP response that a gRPC error may hold.
pub data Reply : Type 0 where
  response : ℕ → Reply
  failure : Option ℕ → Reply

pub data Outcome : Type 0 where
  reply : Reply → Outcome
  context_error : Outcome
  out_of_fuel : Outcome

abbrev pub should_retry : ℕ → Bool
should_retry status_code = nat_beq (status_code / 100) 5

abbrev pub is_final : Reply → Bool
is_final (response code) = not (should_retry code)
is_final (failure none) = false
is_final (failure (some code)) = not (should_retry code)

-- The loop. `W` is the state of the rest of the program, `done` tells whether the context is done,
-- and `next` is the wrapped round tripper. The result has the value of `tries` that is observed.
module _ {ℓ} {W : Type ℓ} (done : W → Bool) (next : W → Reply × W) (max_retries : ℕ) where
  unfoldable pub round_trip : ℕ → ℕ → W → (Outcome × ℕ) × W
  round_trip zero tries w = ((out_of_fuel, tries), w)
  round_trip (suc fuel) tries w =
      let (r, w') = next w in
      let again = round_trip fuel (tries + 1) w' in
      if done w
      then ((context_error, tries), w)
      else (if is_final r
          then ((reply r, tries), w')
          else (if leb max_retries (tries + 1) then ((reply r, tries + 1), w') else again))

  -- The most tries: one at least, also where none are configured.
  abbrev pub most : ℕ
  most = if nat_beq max_retries 0 then 1 else max_retries

  abbrev pub Ended : Outcome → ℕ → Type 0
  Ended (reply r) tries =
      (((is_final r ≡ true) × (tries < most)) ⊎ ((is_final r ≡ false) × (tries ≡ most)))
  Ended context_error tries = tries < most
  Ended out_of_fuel tries = ⊥

  round_trip-Ended :
      (fuel tries : ℕ) (w : W)
      → tries < most
      → most ≤ tries + fuel
      → Ended (round_trip fuel tries w).0.0 (round_trip fuel tries w).0.1
  unfolding round_trip
  round_trip-Ended zero tries w t f = ground arith
  round_trip-Ended (suc fuel) tries w t f = elim (Bool-cases (done w)) [
    | inl y ↦ rw y t
    | inr n ↦ rw n (elim (Bool-cases (is_final (next w).0)) [
      | inl y ↦ rw y (inl (y, t))
      | inr m ↦ rw m (elim (Bool-cases (leb max_retries (tries + 1))) [
        | inl y ↦ rw y (inr (m, ground arith))
        | inr k ↦ rw k (round_trip-Ended fuel (tries + 1) (next w).1 (ground arith) (ground arith))
      ])
    ])
  ]

  -- A request ends, with `most` rounds for fuel: with the answer of a try that needs no other and
  -- comes before the last failure allowed, or with the answer that used up the tries, or with the
  -- context's error after fewer failures than that.
  pub round_trip_lem : (w : W) → Ended (round_trip most 0 w).0.0 (round_trip most 0 w).0.1
  round_trip_lem w = round_trip-Ended most 0 w (ground arith) (omega arith)
