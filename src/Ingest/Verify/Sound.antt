-- ===== src/Ingest/Verify/Sound.antt =====
-- What an extraction that passes `verify` is worth (backend/src/home_compass/ingest/extraction_verify.py).
use home_compass.Prelude.{
  ℕ, String, ◌≡◌, refl, ◌≢◌, inl, inr, true, false, ◌||◌, some, List, [], ◌∷◌, ◌++◌, ◌==◌, map,
  arith, eq_iff, is_member, is_some, if◌then◌else◌, All, Bool-cases, Option-cases,
}
use home_compass.Store.Json.{Json, Fields}
use home_compass.Ingest.Quotes.{
  Code, Entry, VerifiedSpan, is_empty, Checked, accepted, rejected, span_duplicate,
  span_unexpected_field, span_for_not_found_field, span_empty_quote, policy_id_mismatch,
}
use home_compass.Ingest.Quotes.Located.{IsLocated, IsChecked, search-IsChecked, offsets-IsChecked}
use home_compass.Ingest.Verify.{
  Draft, resolve_pointer, is_empty_value, not_found_code, not_found_codes, required_pointers,
  covered_by, Verified, span_at, Loop, reject, hold, after_check, check_quote, check_entry,
  check_entries, missing_codes, collect, placeholder, Verdict, verified_spans, refused, key_error,
  verdict, first_codes, verify,
}

both_empty {ℓ} : {A : Type ℓ} (xs ys : List A) → xs ++ ys ≡ [] → (xs ≡ []) × (ys ≡ [])
both_empty [] ys h = (refl, h)
both_empty (x ∷ xs) ys h = absurd (cc)

never_empty {ℓ} : {A : Type ℓ} (xs : List A) (x : A) → xs ++ x ∷ [] ≢ []
never_empty [] x h = cc
never_empty (y ∷ xs) x h = cc

module _ (text : List ℕ) where
  -- the span is for that field and stands in the text
  abbrev IsFor : String → VerifiedSpan → Type 0
  IsFor p s = (s.field_path ≡ p) × IsLocated text s

  abbrev AreFor : Verified → Type 0
  AreFor verified = (p : String) (s : VerifiedSpan) → span_at p verified ≡ some s → IsFor p s

  -- a placeholder never stands beside an empty list of rejections
  abbrev IsGood : Loop → Type 0
  IsGood loop = loop.rejections ≡ [] → AreFor loop.verified

  record Goes (before after : Loop) : Type 0 where
    good : IsGood before → IsGood after
    kept : after.rejections ≡ [] → before.rejections ≡ []

  reject-Goes : (c : Code) (loop : Loop) → Goes loop (reject c loop)
  reject-Goes c loop = record {
    good = λ g h. absurd (never_empty loop.rejections c h);
    kept = λ h. absurd (never_empty loop.rejections c h);
  }

  hold-reject-Goes :
      (p : String) (s : VerifiedSpan) (c : Code) (loop : Loop)
      → Goes loop (hold p s (reject c loop))
  hold-reject-Goes p s c loop = record {
    good = λ g h. absurd (never_empty loop.rejections c h);
    kept = λ h. absurd (never_empty loop.rejections c h);
  }

  after_check-Goes :
      (p : String) (quote : List ℕ) (loop : Loop) (r : Checked)
      → IsChecked p quote text r
      → Goes loop (after_check p loop r)
  unfolding span_at
  after_check-Goes p quote loop (rejected c) k = hold-reject-Goes p placeholder c loop
  after_check-Goes p quote loop (accepted s) (field, _, located) = record {
    good = λ g h q t. here g h q t;
    kept = λ h. h;
  }
    where
      here :
          IsGood loop
          → loop.rejections ≡ []
          → (q : String) (t : VerifiedSpan) → span_at q ((p, s) ∷ loop.verified) ≡ some t
          → IsFor q t
      here g h q t e = elim (Bool-cases (p == q)) [
        | inl b ↦
            let one : s ≡ t = ground arith in
            let named : p ≡ q = (eq_iff p q).0 b in rw (← one, ← named) (field, located)
        | inr b ↦ g h q t (ground arith)
      ]

  check_quote-IsChecked :
      (e : Entry)
      → is_empty e.quote ≡ false
      → IsChecked e.field_path e.quote text (check_quote text e)
  check_quote-IsChecked e full = elim (Bool-cases (is_some e.start || is_some e.stop)) [
    | inl b ↦ rw b (offsets-IsChecked e.field_path e.quote text e.start e.stop)
    | inr b ↦ rw b (search-IsChecked e.field_path e.quote text full)
  ]

  check_entry-Goes :
      (not_found required : List String) (e : Entry) (loop : Loop)
      → Goes loop (check_entry not_found required text e loop)
  unfolding check_entry
  check_entry-Goes not_found required e loop =
      elim (Bool-cases (is_some (span_at e.field_path loop.verified))) [
        | inl b ↦ rw b (reject-Goes span_duplicate loop)
        | inr b ↦ rw b (elim (Bool-cases (covered_by e.field_path not_found)) [
          | inl c ↦ rw c (hold-reject-Goes e.field_path placeholder span_for_not_found_field loop)
          | inr c ↦ rw c (elim (Bool-cases (is_member e.field_path required)) [
            | inr d ↦ rw d (hold-reject-Goes e.field_path placeholder span_unexpected_field loop)
            | inl d ↦ rw d (elim (Bool-cases (is_empty e.quote)) [
              | inl f ↦ rw f (hold-reject-Goes e.field_path placeholder span_empty_quote loop)
              | inr f ↦ rw f (
                  after_check-Goes e.field_path e.quote loop (check_quote text e)
                    (check_quote-IsChecked e f))
            ])
          ])
        ])
      ]

  check_entries-Goes :
      (not_found required : List String) (entries : List Entry) (loop : Loop)
      → Goes loop (check_entries not_found required text entries loop)
  unfolding check_entries
  check_entries-Goes not_found required [] loop = record { good = λ g. g; kept = λ h. h }
  check_entries-Goes not_found required (e ∷ es) loop =
      let one = check_entry-Goes not_found required e loop in
      let rest =
        check_entries-Goes not_found required es (check_entry not_found required text e loop) in
      record { good = λ g. rest.good (one.good g); kept = λ h. one.kept (rest.kept h) }

  abbrev Collected : List String → List VerifiedSpan → Type 0
  Collected ps ss = (map (λ s. VerifiedSpan.field_path s) ss ≡ ps) × All (IsLocated text) ss

  collect-Collected :
      (ps : List String) (verified : Verified)
      → AreFor verified
      → missing_codes ps verified ≡ []
      → (ss : List VerifiedSpan) × (collect ps verified ≡ some ss) × Collected ps ss
  unfolding collect missing_codes
  collect-Collected [] verified for h = ([], refl, (refl, tt))
  collect-Collected (p ∷ ps) verified for h = elim (Option-cases (span_at p verified)) [
    | inl e ↦ ground arith
    | inr (s, e) ↦
        let (ss, found, (named, located)) = collect-Collected ps verified for (ground arith) in
        let (field, here) = for p s e in (s ∷ ss, rw (e, found) refl, (cc, (here, located)))
  ]

-- an element of `not_found` names a place of the draft that holds nothing
abbrev IsAbsent : Fields → String → Type 0
IsAbsent document p = (v : Json) × (resolve_pointer document p ≡ some v) × (is_empty_value v ≡ true)

not_found_codes-IsAbsent :
    (document : Fields) (ps : List String)
    → not_found_codes document ps ≡ []
    → All (IsAbsent document) ps
unfolding not_found_codes
not_found_codes-IsAbsent document [] h = tt
not_found_codes-IsAbsent document (p ∷ ps) h =
    let (one, rest) =
      both_empty (not_found_code (resolve_pointer document p)) (not_found_codes document ps) h in
    (here one, not_found_codes-IsAbsent document ps rest)
  where
    here : not_found_code (resolve_pointer document p) ≡ [] → IsAbsent document p
    here one = elim (Option-cases (resolve_pointer document p)) [
      | inl e ↦ ground arith
      | inr (v, e) ↦ elim (Bool-cases (is_empty_value v)) [
        | inl b ↦ (v, e, b)
        | inr b ↦ ground arith
      ]
    ]

-- What `verify` says of the draft, of the spans that it gives out, and of a refusal.
abbrev pub IsVerified : Draft → String → List ℕ → Verdict → Type 0
IsVerified draft policy_id text (verified_spans ss) =
    (draft.policy_id ≡ policy_id)
    × All (IsAbsent draft.document) draft.not_found
    × Collected text (required_pointers draft) ss
IsVerified draft policy_id text (refused codes) = codes ≢ []
IsVerified draft policy_id text key_error = ⊥

verdict-IsVerified :
    (draft : Draft) (policy_id : String) (text : List ℕ) (end : Loop)
    → (end.rejections ≡ [] → AreFor text end.verified)
    → (end.rejections ≡ [] → first_codes draft policy_id ≡ [])
    → IsVerified draft policy_id text (
        verdict
          (end.rejections ++ missing_codes (required_pointers draft) end.verified)
          (required_pointers draft)
          end.verified)
verdict-IsVerified draft policy_id text end for first =
    go (end.rejections ++ missing_codes (required_pointers draft) end.verified) refl
  where
    named : first_codes draft policy_id ≡ [] → draft.policy_id ≡ policy_id
    named h = elim (Bool-cases (draft.policy_id == policy_id)) [
      | inl b ↦ (eq_iff draft.policy_id policy_id).0 b
      | inr b ↦ ground arith
    ]

    go :
        (codes : List Code)
        → end.rejections ++ missing_codes (required_pointers draft) end.verified ≡ codes
        → IsVerified draft policy_id text (verdict codes (required_pointers draft) end.verified)
    go (c ∷ cs) h = cc
    go [] h =
        let (none_before, none_missing) =
          both_empty end.rejections (missing_codes (required_pointers draft) end.verified) h in
        let (ss, found, collected) =
          collect-Collected text (required_pointers draft) end.verified (for none_before)
            none_missing in
        let (_, absent) =
          both_empty (if draft.policy_id == policy_id then [] else policy_id_mismatch ∷ [])
            (not_found_codes draft.document draft.not_found) (first none_before) in
        rw found (
          named (first none_before),
          not_found_codes-IsAbsent draft.document draft.not_found absent,
          collected,
        )

-- An extraction that passes `verify` names the policy that was asked for, each place that it reports
-- as not found is there and empty, and its spans are those for the required field paths, one for
-- each and in their order, each a part of the text that is not empty and reads as its quote. One that
-- is refused has a rejection, and no `KeyError` is raised.
pub verify-IsVerified :
    (draft : Draft) (entries : List Entry) (policy_id : String) (text : List ℕ)
    → IsVerified draft policy_id text (verify draft entries policy_id text)
unfolding verify span_at
verify-IsVerified draft entries policy_id text =
    let start : Loop = record { rejections = first_codes draft policy_id; verified = [] } in
    let goes = check_entries-Goes text draft.not_found (required_pointers draft) entries start in
    verdict-IsVerified draft policy_id text
      (check_entries draft.not_found (required_pointers draft) text entries start)
      (goes.good (no_spans start.rejections)) goes.kept
  where
    no_spans : (codes : List Code) → IsGood text (record { rejections = codes; verified = [] })
    no_spans codes h p s e = absurd (cc)
