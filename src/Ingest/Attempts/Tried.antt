-- ===== src/Ingest/Attempts/Tried.antt =====
-- What the attempts at one source text end with (backend/src/home_compass/ingest/extraction.py).
use home_compass.Prelude.{
  ℕ, zero, suc, ◌+◌, ◌≤◌, String, ◌≡◌, refl, Option, none, some, List, [], ◌∷◌, arith, length,
  length-append,
}
use home_compass.Ingest.Quotes.{Code}
use home_compass.Ingest.Verify.{Draft, Verdict, verified_spans, refused, key_error, verify}
use home_compass.Ingest.Verify.Sound.{IsVerified, verify-IsVerified}
use home_compass.Ingest.Attempts.{
  Answer, unavailable, call_failed, malformed, envelope, Extraction, Round, given_up, again, passed,
  broken, of_verdict, round_of, Attempts, note, codes_of, try_out, begin,
}

module _ (call : ℕ → List Code → Answer) (policy_id : String) (text : List ℕ) where
  -- an extraction that is there has passed `verify`
  abbrev pub HasPassed : Option Extraction → Type 0
  HasPassed none = Unit
  HasPassed (some x) = IsVerified x.draft policy_id text (verified_spans x.spans)

  abbrev IsRound : Round → Type 0
  IsRound (passed x) = HasPassed (some x)
  IsRound broken = ⊥
  IsRound _ = Unit

  of_verdict-IsRound :
      (draft : Draft) (v : Verdict)
      → IsVerified draft policy_id text v
      → IsRound (of_verdict draft v)
  of_verdict-IsRound draft (verified_spans ss) h = h
  of_verdict-IsRound draft (refused codes) h = tt
  of_verdict-IsRound draft key_error h = h

  round_of-IsRound : (a : Answer) → IsRound (round_of policy_id text a)
  round_of-IsRound unavailable = tt
  round_of-IsRound call_failed = tt
  round_of-IsRound (malformed codes) = tt
  round_of-IsRound (envelope draft entries) =
      of_verdict-IsRound draft (verify draft entries policy_id text)
        (verify-IsVerified draft entries policy_id text)

  -- the codes of each attempt are kept, and the attempts are no more than `limit`
  abbrev pub AreTried : ℕ → Option Attempts → Type 0
  AreTried limit none = ⊥
  AreTried limit (some s) =
      (s.attempts ≤ limit) × (length s.attempt_codes ≡ s.attempts) × HasPassed s.verified

  AreTried-more : (n m : ℕ) (o : Option Attempts) → n ≤ m → AreTried n o → AreTried m o
  AreTried-more n m none le h = h
  AreTried-more n m (some s) le (within, h, k) = (omega arith, h, k)

  noted :
      (codes : List Code) (x : Option Extraction) (s : Attempts)
      → length s.attempt_codes ≡ s.attempts
      → length (note codes x s).attempt_codes ≡ s.attempts + 1
  noted codes x s h = omega (arith, h, length-append s.attempt_codes (codes_of [] codes ∷ []))

  try_out-AreTried :
      (left : ℕ) (repair : List Code) (s : Attempts)
      → length s.attempt_codes ≡ s.attempts
      → HasPassed s.verified
      → AreTried (s.attempts + left) (try_out call policy_id text left repair s)
  unfolding try_out
  try_out-AreTried zero repair s h k = (omega arith, h, k)
  try_out-AreTried (suc left) repair s h k =
      go (round_of policy_id text (call s.attempts repair))
        (round_of-IsRound (call s.attempts repair))
        (λ codes. try_out-AreTried left codes (note codes none s) (noted codes none s h) tt)
    where
      go :
          (r : Round)
          → IsRound r
          → ((codes : List Code)
              → AreTried
                  (s.attempts + 1 + left)
                  (try_out call policy_id text left codes (note codes none s)))
          → AreTried (s.attempts + suc left) (elim r [
            | given_up codes ↦ some (note codes none s)
            | again codes ↦ try_out call policy_id text left codes (note codes none s)
            | passed x ↦ some (note [] (some x) s)
            | broken ↦ none
          ])
      go (given_up codes) i more = (omega arith, noted codes none s h, tt)
      go (again codes) i more =
          AreTried-more (s.attempts + 1 + left) (s.attempts + suc left)
            (try_out call policy_id text left codes (note codes none s)) (omega arith) (more codes)
      go (passed x) i more = (omega arith, noted [] (some x) s h, i)
      go broken i more = i

  pub all_tried-AreTried : (limit : ℕ) → AreTried limit (try_out call policy_id text limit [] begin)
  all_tried-AreTried limit =
      AreTried-more (begin.attempts + limit) limit (try_out call policy_id text limit [] begin)
        (omega arith) (try_out-AreTried limit [] begin refl tt)
