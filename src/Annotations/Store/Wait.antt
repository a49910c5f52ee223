-- ===== src/Annotations/Store/Wait.antt =====
-- `waitForNew` of store.js: a long poll for records that match a filter.
use open_webbridge.Base.{
  ℕ, zero, suc, ◌+◌, ◌-◌, ◌*◌, ◌/◌, ◌≤◌, ◌<◌, ◌≡◌, ◌≢◌, ◌⊎◌, refl, inl, inr, leb, ltb, Bool, true,
  false, not, Option, none, some, List, [], ◌∷◌, Bool-cases, arith, if◌then◌else◌,
}
use open_webbridge.Annotations.Record.{Annotation, Filter}
use open_webbridge.Annotations.Store.{Store, list}

-- What the loop meets at its n-th round: the time in milliseconds, and the store as others have
-- left it by then.
pub record Poll (F : Type 0) : Type 0 where
  pub now : ℕ
  pub store : Store F

-- `Math.min(250, left)`, the pause before the next round.
abbrev pub pause : ℕ → ℕ → ℕ
pause deadline now = if ltb (deadline - now) 250 then deadline - now else 250

module _ {F : Type 0} where
  abbrev no_records : List (Annotation F) → Bool
  no_records [] = true
  no_records (_ ∷ _) = false

  -- The loop from round `i`, with fuel for the rounds; `none` means that the fuel ran out.
  unfoldable pub poll_loop : ℕ → Filter → ℕ → (ℕ → Poll F) → ℕ → Option (List (Annotation F))
  poll_loop zero f deadline rounds i = none
  poll_loop (suc fuel) f deadline rounds i =
      let rest = poll_loop fuel f deadline rounds (suc i) in
      if not (no_records (list f (rounds i).store))
      then some (list f (rounds i).store)
      else if leb deadline (rounds i).now
      then some []
      else rest

  unfoldable pub wait_for_new : ℕ → Filter → ℕ → (ℕ → Poll F) → ℕ → Option (List (Annotation F))
  unfolding poll_loop
  wait_for_new fuel f wait_ms rounds started = poll_loop fuel f (started + wait_ms) rounds 0

  -- A timer does not fire early: the next round is at least the pause later.
  abbrev pub Punctual : ℕ → (ℕ → Poll F) → Type 0
  Punctual deadline rounds =
      (i : ℕ) → (rounds i).now + pause deadline (rounds i).now ≤ (rounds (suc i)).now

  -- An answer: what the query finds at some round, or nothing at a round past the deadline at
  -- which the query finds nothing.
  abbrev pub Answers : Filter → ℕ → (ℕ → Poll F) → List (Annotation F) → Type 0
  Answers f deadline rounds found =
      (j : ℕ) × (found ≡ list f (rounds j).store) × ((found ≢ []) ⊎ (deadline ≤ (rounds j).now))

  no_records-eq : (xs : List (Annotation F)) → no_records xs ≡ true → [] ≡ xs
  no_records-eq [] h = refl
  no_records-eq (x ∷ xs) h = cc

  no_records-ne : (xs : List (Annotation F)) → no_records xs ≡ false → xs ≢ []
  no_records-ne [] h = cc
  no_records-ne (x ∷ xs) h = λ e. cc

  -- One round, given what the rounds after it answer where it does not end the loop.
  poll_loop-step :
      (fuel : ℕ) (f : Filter) (deadline : ℕ) (rounds : ℕ → Poll F) (i : ℕ)
      → ((rounds i).now < deadline
          → (found : List (Annotation F)) × (poll_loop fuel f deadline rounds (suc i) ≡ some found)
            × Answers f deadline rounds found)
      → (found : List (Annotation F)) × (poll_loop (suc fuel) f deadline rounds i ≡ some found)
        × Answers f deadline rounds found
  unfolding poll_loop
  poll_loop-step fuel f deadline rounds i later =
      elim (Bool-cases (no_records (list f (rounds i).store))) [
        | inr some_found ↦ (
          list f (rounds i).store,
          rw some_found,
          (i, refl, inl (no_records-ne (list f (rounds i).store) some_found)),
        )
        | inl nothing ↦ elim (Bool-cases (leb deadline (rounds i).now)) [
          | inl past ↦ (
            [],
            rw (nothing, past),
            (i, no_records-eq (list f (rounds i).store) nothing, inr (ground arith)),
          )
          | inr early ↦
              let (found, e, a) = later (ground arith) in (found, rw (nothing, early) e, a)
        ]
      ]

  poll_loop-Answers :
      (k : ℕ) (f : Filter) (deadline : ℕ) (rounds : ℕ → Poll F) (i : ℕ)
      → Punctual deadline rounds
      → deadline ≤ (rounds i).now + 250 * k
      → (found : List (Annotation F)) × (poll_loop (suc k) f deadline rounds i ≡ some found)
        × Answers f deadline rounds found
  poll_loop-Answers zero f deadline rounds i p near =
      poll_loop-step zero f deadline rounds i (λ early. absurd (omega arith))
  poll_loop-Answers (suc k) f deadline rounds i p near =
      poll_loop-step (suc k) f deadline rounds i
        (λ early. poll_loop-Answers k f deadline rounds (suc i) p (ground (arith, p i)))

  -- A wait ends: with a timer that does not fire early, one round for each quarter of a second of
  -- the wait and one more are enough, and the answer is what the query finds at some round, or is
  -- empty at a round past the deadline.
  pub wait_for_new-Answers :
      (f : Filter) (wait_ms : ℕ) (rounds : ℕ → Poll F)
      → Punctual ((rounds 0).now + wait_ms) rounds
      → (found : List (Annotation F)) × (wait_for_new
            (wait_ms / 250 + 2)
            f
            wait_ms
            rounds
            (rounds 0).now
          ≡ some found)
        × Answers f ((rounds 0).now + wait_ms) rounds found
  unfolding wait_for_new
  wait_for_new-Answers f wait_ms rounds p =
      let e : wait_ms / 250 + 2 ≡ suc (wait_ms / 250 + 1) = omega arith in
      rw e (
        poll_loop-Answers (wait_ms / 250 + 1) f ((rounds 0).now + wait_ms) rounds 0 p (omega arith))
