-- ===== src/Engines/Money/Nearest.antt =====
-- A formatted amount is the nearest one of its unit (backend/src/home_compass/common.py).
use home_compass.Prelude.{
  ℕ, ◌+◌, ◌*◌, ◌/◌, ◌%◌, ◌≤◌, ◌<◌, ◌≡◌, ◌⊎◌, refl, inl, inr, arith, eqb, leb, Bool-cases,
}
use home_compass.Engines.Money.{
  round_half_up, Shown, eok_and_man, only_eok, only_man, only_won, carried, shown_amount,
}

-- the amount that the numbers stand for
abbrev pub worth : Shown → ℕ
worth (eok_and_man eok man) = eok * 100_000_000 + man * 10_000
worth (only_eok eok) = eok * 100_000_000
worth (only_man man) = man * 10_000
worth (only_won won) = won

-- the numbers beside the units are in their range
abbrev pub IsProper : Shown → Type 0
IsProper (eok_and_man eok man) = (1 ≤ eok) × (1 ≤ man) × (man < 10_000)
IsProper (only_eok eok) = 1 ≤ eok
IsProper (only_man man) = (1 ≤ man) × (man ≤ 10_000)
IsProper (only_won won) = won < 10_000

-- half-up: no more than half a unit above, and less than half a unit below
abbrev pub IsNearest : ℕ → ℕ → Type 0
IsNearest amount shown = (shown ≤ amount + 5_000) × (amount < shown + 5_000)

round-IsNearest : (n : ℕ) → IsNearest n (round_half_up n 10_000 * 10_000)
round-IsNearest n = (omega arith, omega arith)

carried-worth :
    (eok man : ℕ) → man ≤ 10_000 → worth (carried eok man) ≡ eok * 100_000_000 + man * 10_000
unfolding carried
carried-worth eok man h = ground arith

carried-IsProper : (eok man : ℕ) → 1 ≤ eok → man ≤ 10_000 → IsProper (carried eok man)
unfolding carried
carried-IsProper eok man h k = elim (Bool-cases (leb 10_000 man)) [
  | inl b ↦ rw b (omega arith)
  | inr b ↦ elim (Bool-cases (eqb man 0)) [
    | inl c ↦ rw (b, c) h
    | inr c ↦ rw (b, c) (h, ground arith, ground arith)
  ]
]

-- The amount that `money` shows is proper, the man beside eok from 1 to 9,999, and it is the nearest
-- one in steps of 10,000, a half rounded up; an amount below 10,000 is shown as it is.
pub shown_amount-IsNearest :
    (n : ℕ)
    → IsProper (shown_amount n)
      × IsNearest n (worth (shown_amount n))
      × ((10_000 ≤ n) ⊎ (worth (shown_amount n) ≡ n))
unfolding shown_amount
shown_amount-IsNearest n = elim (Bool-cases (leb 100_000_000 n)) [
  | inl b ↦
      let eok = n / 100_000_000 in
      let man = round_half_up (n % 100_000_000) 10_000 in
      let big : 100_000_000 ≤ n = ground arith in
      let some_eok : 1 ≤ eok = omega (arith, big) in
      let within : man ≤ 10_000 = omega arith in
      let whole = carried-worth eok man within in
      rw b (
        carried-IsProper eok man some_eok within,
        (omega (arith, whole), omega (arith, whole)),
        inl (omega (arith, big)),
      )
  | inr b ↦ elim (Bool-cases (leb 10_000 n)) [
    | inl c ↦
        let over : 10_000 ≤ n = ground arith in
        let under : n < 100_000_000 = ground arith in
        rw (b, c) ((omega (arith, over), omega (arith, under)), round-IsNearest n, inl over)
    | inr c ↦
        let small : n < 10_000 = ground arith in
        rw (b, c) (small, (omega arith, omega arith), inr refl)
  ]
]
