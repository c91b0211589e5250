-- ===== src/Sender/Found.antt =====
-- When the polling loops of wl-send succeed.
use ucl_tools.Base.{
  ℕ, zero, suc, ◌+◌, ◌≤◌, ◌<◌, ◌≡◌, sym, ap, ◌∙◌, ◌↔◌, inl, inr, Bool, true, arith, ◌==◌,
  Bool-cases,
}
use ucl_tools.Sender.{poll, wait_file_detection, wait_unix_socket_connectable}

-- In the round `n`, one of those from `count` on, it is there, and the process is alive in all rounds
-- up to it.
abbrev FoundAt : ℕ → (ℕ → Bool) → (ℕ → Bool) → ℕ → Type 0
FoundAt count alive there n =
    (count ≤ n) × (there n ≡ true) × ((m : ℕ) → count ≤ m → m ≤ n → alive m ≡ true)

poll-found :
    (left count : ℕ) (alive there : ℕ → Bool)
    → poll left count alive there ≡ true
    → (n : ℕ) × (n < count + left) × FoundAt count alive there n
unfolding poll
poll-found zero count alive there h = absurd (ground arith)
poll-found (suc left) count alive there h = elim (Bool-cases (alive count)) [
  | inr a ↦ absurd (ground (arith, a, h))
  | inl a ↦ elim (Bool-cases (there count)) [
    | inl t ↦ (
      count,
      omega arith,
      (
        omega arith,
        t,
        λ m lo hi. let same : m ≡ count = omega (arith, lo, hi) in ap alive same ∙ a,
      ),
    )
    | inr t ↦
        let (n, hi, (lo, e, all)) =
          poll-found left (suc count) alive there (ground (arith, a, t, h)) in
        (
          n,
          omega arith,
          (
            omega arith,
            e,
            λ m l k. elim (Bool-cases (m == count)) [
              | inl s ↦ let same : m ≡ count = ground (arith, s) in ap alive same ∙ a
              | inr s ↦ all m (ground (arith, s, l)) k
            ],
          ),
        )
  ]
]

found-poll :
    (left count : ℕ) (alive there : ℕ → Bool) (n : ℕ)
    → n < count + left
    → FoundAt count alive there n
    → poll left count alive there ≡ true
unfolding poll
found-poll zero count alive there n h (lo, t, a) = absurd (omega arith)
found-poll (suc left) count alive there n h (lo, t, a) =
    let now : alive count ≡ true = a count (omega arith) (omega arith) in
    elim (Bool-cases (there count)) [
      | inl e ↦ ground (arith, now, e)
      | inr e ↦ elim (Bool-cases (n == count)) [
        | inl s ↦
            let same : n ≡ count = ground (arith, s) in
            absurd (ground (arith, e, sym (ap there same) ∙ t))
        | inr s ↦
            let later : suc count ≤ n = ground (arith, s) in
            ground (
              arith,
              now,
              e,
              found-poll left (suc count) alive there n (omega arith)
                  (later, t, λ m l k. a m (omega arith) k),
            )
      ]
    ]

-- The process is alive, from the first round, up to one of the ten in which it is there.
abbrev pub Found : (ℕ → Bool) → (ℕ → Bool) → Type 0
Found alive there = (n : ℕ) × (n < 10) × (there n ≡ true) × ((m : ℕ) → m ≤ n → alive m ≡ true)

-- A wait for a file, or for a socket, succeeds if and only if in one of its ten rounds the file is there
-- and the process has been alive in every round up to that one.
pub wait-Found :
    (alive there : ℕ → Bool)
    → ((wait_file_detection alive there ≡ true) ↔ Found alive there)
      × ((wait_unix_socket_connectable alive there ≡ true) ↔ Found alive there)
unfolding wait_file_detection wait_unix_socket_connectable
wait-Found alive there = ((found, poll_of), (found, poll_of))
  where
    found : poll 10 0 alive there ≡ true → Found alive there
    found h =
        let (n, hi, (lo, t, a)) = poll-found 10 0 alive there h in
        (n, omega arith, t, λ m k. a m (omega arith) k)

    poll_of : Found alive there → poll 10 0 alive there ≡ true
    poll_of (n, hi, t, a) =
        found-poll 10 0 alive there n (omega arith) (omega arith, t, λ m lo k. a m k)
