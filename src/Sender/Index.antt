-- ===== src/Sender/Index.antt =====
-- The card that `reserveRvgpuIndex` takes.
use ucl_tools.Base.{
  ℕ, zero, suc, ◌+◌, ◌≤◌, ◌<◌, ◌≡◌, refl, ap, ◌∙◌, ◌⊎◌, inl, inr, Bool, true, false, not, ◌||◌,
  is_some, Option, none, some, arith, ◌==◌, Bool-cases, Text,
}
use ucl_tools.Sender.{IndexFile, index_string, cleared, write_index, reserve, reserve_rvgpu_index}

-- The first card, from `from` on and below `bound`, that has no device.
abbrev pub IsFirstFree : (ℕ → Bool) → ℕ → ℕ → ℕ → Type 0
IsFirstFree exists from bound card =
    (from ≤ card)
    × (card < bound)
    × (exists card ≡ false)
    × ((d : ℕ) → from ≤ d → d < card → exists d ≡ true)

-- An old index file is not in the way, and a new one is opened.
abbrev pub IsMade : IndexFile → Type 0
IsMade file = ((file.content ≡ none) ⊎ (file.removes ≡ true)) × (file.opens ≡ true)

-- The file holds the card's number and the card is the result; or the write fails; or the file is not made,
-- and one that cannot be removed stays as it was. In the last two cases the result is -1.
abbrev pub Indexed : IndexFile → ℕ → Option Text × Option ℕ → Type 0
Indexed file card result =
    (IsMade file × (file.writes ≡ true) × (result ≡ (some (index_string card), some card)))
    ⊎ ((IsMade file × (file.writes ≡ false) × (result ≡ (some file.partial, none)))
        ⊎ ((¬ IsMade file)
            × (result.1 ≡ none)
            × (file.removes ≡ true → result.0 ≡ none)
            × (file.removes ≡ false → result.0 ≡ file.content)))

write_index-Indexed : (file : IndexFile) (card : ℕ) → Indexed file card (write_index file card)
write_index-Indexed file card = elim (Bool-cases (is_some (cleared file) || not file.opens)) [
  | inl e ↦ rw e (inr (inr (not_made e, refl, λ h. rw h refl, λ h. rw h refl)))
  | inr e ↦ elim (Bool-cases file.writes) [
    | inl w ↦ rw (e, w) (inl (made e, refl, refl))
    | inr w ↦ rw (e, w) (inr (inl (made e, refl, refl)))
  ]
]
  where
    not_made : (is_some (cleared file) || not file.opens) ≡ true → ¬ IsMade file
    not_made e (inl c, o) = absurd (ground (arith, e, c, o))
    not_made e (inr r, o) = absurd (ground (arith, e, r, o))

    made : (is_some (cleared file) || not file.opens) ≡ false → IsMade file
    made e = elim (Bool-cases file.removes) [
      | inl r ↦ (inr r, ground (arith, e))
      | inr r ↦ (inl (ground (arith, e, r)), ground (arith, e))
    ]

-- Every card has a device, or one is the first that has none, and the index file is made for it.
abbrev pub Reserved : (ℕ → Bool) → ℕ → ℕ → IndexFile → Option Text × Option ℕ → Type 0
Reserved exists from bound file result =
    (((d : ℕ) → from ≤ d → d < bound → exists d ≡ true) × (result ≡ (file.content, none)))
    ⊎ ((card : ℕ) × IsFirstFree exists from bound card × Indexed file card result)

reserve-Reserved :
    (left from : ℕ) (exists : ℕ → Bool) (file : IndexFile)
    → Reserved exists from (from + left) file (reserve left from exists file)
unfolding reserve
reserve-Reserved zero from exists file = inl (λ d lo hi. absurd (omega (arith, lo, hi)), refl)
reserve-Reserved (suc left) from exists file = elim (Bool-cases (exists from)) [
  | inr e ↦ rw e (
      inr (
        from,
        (omega arith, omega arith, e, λ d lo hi. absurd (omega (arith, lo, hi))),
        write_index-Indexed file from,
      ))
  | inl e ↦ rw e (elim (reserve-Reserved left (suc from) exists file) [
    | inl p ↦
        inl (λ d lo hi. further (from + suc left) d (λ k. p.0 d k (omega (arith, hi))) e lo, p.1)
    | inr p ↦
        let (card, (lo, hi, free, below), r) = p in
        inr (
          card,
          (omega arith, omega arith, free, λ d l h. further card d (λ k. below d k h) e l),
          r,
        )
  ])
]
  where
    further :
        (bound d : ℕ)
        → (suc from ≤ d → exists d ≡ true)
        → exists from ≡ true
        → from ≤ d
        → exists d ≡ true
    further bound d rest e lo = elim (Bool-cases (d == from)) [
      | inl s ↦ let same : d ≡ from = ground (arith, s) in ap exists same ∙ e
      | inr s ↦ rest (ground (arith, s, lo))
    ]

-- The card that is reserved is the smallest one without a device. If no old index file is left, because
-- there was none or it was removed, and the new one is opened and written, it holds this card's number and
-- the number is the result. If the write fails, or the file is not made, the result is -1; an old file that
-- cannot be removed then stays as it was. If all 65 cards have devices, the result is -1 and the index file
-- is untouched.
pub reserve_rvgpu_index-Reserved :
    (exists : ℕ → Bool) (file : IndexFile)
    → Reserved exists 0 65 file (reserve_rvgpu_index exists file)
unfolding reserve_rvgpu_index
reserve_rvgpu_index-Reserved exists file = reserve-Reserved 65 0 exists file
