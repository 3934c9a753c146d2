-- ===== src/Ingest/Quotes/First.antt =====
-- `locate_quote` finds the first place of a quote, if there is one
-- (backend/src/home_compass/ingest/extraction_verify.py).
use mathlib.Core.Option
use home_compass.Prelude.{
  ℕ, zero, suc, ◌+◌, ◌≤◌, ◌≡◌, refl, ◌⊎◌, inl, inr, true, false, Option, none, some, List, [], ◌∷◌,
  arith, Bool-cases, length, drop,
}
use home_compass.Ingest.Quotes.{is_empty, begins, find_in, locate_quote}

-- the quote begins at the place that was found, and at no place `j` before it
abbrev IsFirst : List ℕ → List ℕ → ℕ → Option ℕ → Type 0
IsFirst quote text j none = begins quote (drop j text) ≡ false
IsFirst quote text j (some i) =
    (begins quote (drop i text) ≡ true) × ((i ≤ j) ⊎ (begins quote (drop j text) ≡ false))

later_place :
    (quote : List ℕ) (c : ℕ) (text : List ℕ) (j : ℕ) (o : Option ℕ)
    → IsFirst quote text j o
    → IsFirst quote (c ∷ text) (suc j) (Option.map suc o)
later_place quote c text j none h = h
later_place quote c text j (some i) (here, inl le) = (here, inl (omega (arith, le)))
later_place quote c text j (some i) (here, inr not_at) = (here, inr not_at)

start_place :
    (quote : List ℕ) (c : ℕ) (text : List ℕ) (o : Option ℕ)
    → begins quote (c ∷ text) ≡ false
    → IsFirst quote text 0 o
    → IsFirst quote (c ∷ text) 0 (Option.map suc o)
start_place quote c text none b h = b
start_place quote c text (some i) b (here, _) = (here, inr b)

find_in-IsFirst : (quote text : List ℕ) (j : ℕ) → IsFirst quote text j (find_in quote text)
unfolding find_in
find_in-IsFirst quote [] j = elim (Bool-cases (begins quote [])) [
  | inl b ↦ rw b (b, inl (omega arith))
  | inr b ↦ rw b (past_end j b)
]
  where
    past_end : (n : ℕ) → begins quote [] ≡ false → begins quote (drop n []) ≡ false
    past_end zero b = b
    past_end (suc n) b = b
find_in-IsFirst quote (c ∷ text) zero = elim (Bool-cases (begins quote (c ∷ text))) [
  | inl b ↦ rw b (b, inl (omega arith))
  | inr b ↦ rw b (start_place quote c text (find_in quote text) b (find_in-IsFirst quote text 0))
]
find_in-IsFirst quote (c ∷ text) (suc j) = elim (Bool-cases (begins quote (c ∷ text))) [
  | inl b ↦ rw b (b, inl (omega arith))
  | inr b ↦ rw b (later_place quote c text j (find_in quote text) (find_in-IsFirst quote text j))
]

-- What `locate_quote` says of a place `j` of the text.
abbrev pub Locates : List ℕ → List ℕ → ℕ → Option (ℕ × ℕ) → Type 0
Locates quote text j none = begins quote (drop j text) ≡ false
Locates quote text j (some (i, end)) =
    (begins quote (drop i text) ≡ true)
    × (end ≡ i + length quote)
    × ((i ≤ j) ⊎ (begins quote (drop j text) ≡ false))

with_end :
    (quote text : List ℕ) (j : ℕ) (o : Option ℕ)
    → IsFirst quote text j o
    → Locates quote text j (Option.map (λ i. (i, i + length quote)) o)
with_end quote text j none h = h
with_end quote text j (some i) (here, first) = (here, refl, first)

-- For a quote that is not empty: where `locate_quote` answers, the quote begins there, the end is
-- behind its last character, and it begins at no earlier place; where it does not, the quote
-- begins at no place of the text.
pub locate_quote-Locates :
    (text quote : List ℕ) (j : ℕ)
    → is_empty quote ≡ false
    → Locates quote text j (locate_quote text quote)
unfolding locate_quote
locate_quote-Locates text quote j full =
    rw full (with_end quote text j (find_in quote text) (find_in-IsFirst quote text j))
