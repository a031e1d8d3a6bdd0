-- ===== src/Net/Ping.antt =====
-- ping_overlay_node of SCMultipath/utils/connectivity_utils.c. Each round first looks for a packet
-- that has arrived and then sends an echo request.
use premium.Base.{
  ℕ, zero, suc, ◌+◌, ◌≤◌, ◌<◌, ℤ, pos, negsuc, Bool, true, false, ◌≡◌, ◌⊎◌, inl, inr, refl, arith,
  Bool-cases, if◌then◌else◌,
}

-- The rounds j, ..., j + n - 1: `arrived j` says whether recvfrom returns a packet in round j. The
-- result is that of the function and the number of requests that were sent.
unfoldable pub ping_rounds : ℕ → ℕ → (ℕ → Bool) → ℤ × ℕ
ping_rounds zero j arrived = (negsuc 0, j)
ping_rounds (suc n) j arrived =
    let rest = ping_rounds n (j + 1) arrived in if arrived j then (pos 1, j) else rest

-- The first argument says whether the raw socket could be created.
unfoldable pub ping_overlay_node : Bool → (ℕ → Bool) → ℤ × ℕ
unfolding ping_rounds
ping_overlay_node socket_created arrived =
    if socket_created then ping_rounds 10 0 arrived else (negsuc 0, 0)

-- The rounds either find a packet, in the first round in which one arrives, or find none in any.
abbrev pub Found : (ℕ → Bool) → ℕ → ℕ → ℤ × ℕ → Type 0
Found arrived from n r =
    ((r.0 ≡ pos 1)
      × (from ≤ r.1)
      × (r.1 < from + n)
      × (arrived r.1 ≡ true)
      × ((k : ℕ) → from ≤ k → k < r.1 → arrived k ≡ false))
    ⊎ ((r.0 ≡ negsuc 0)
        × (r.1 ≡ from + n)
        × ((k : ℕ) → from ≤ k → k < from + n → arrived k ≡ false))

rounds-Found : (n j : ℕ) (arrived : ℕ → Bool) → Found arrived j n (ping_rounds n j arrived)
unfolding ping_rounds
rounds-Found zero j arrived = inr (refl, omega arith, λ k le lt. absurd (omega arith))
rounds-Found (suc n) j arrived = elim (Bool-cases (arrived j)) [
  | inl hit ↦ rw hit (inl (refl, omega arith, omega arith, hit, λ k le lt. absurd (omega arith)))
  | inr miss ↦ rw miss (elim (rounds-Found n (j + 1) arrived) [
    | inl (one, above, below, hit, before) ↦
        inl (one, omega arith, omega arith, hit, λ k le lt. grind (arith, before, miss))
    | inr (fails, sent, silent) ↦ inr (fails, omega arith, λ k le lt. grind (arith, silent, miss))
  ])
]

-- With a socket, the ping answers 1 exactly if a packet arrives in one of its ten rounds, and has
-- then sent as many requests as rounds went before; otherwise it answers -1 after ten requests. It
-- looks before it sends, so a packet that arrives first is taken for a reply to a request that was
-- never sent. Without a socket it answers -1 and sends nothing.
pub ping_overlay_node-Found :
    (arrived : ℕ → Bool)
    → Found arrived 0 10 (ping_overlay_node true arrived)
      × (ping_overlay_node false arrived ≡ (negsuc 0, 0))
unfolding ping_overlay_node
ping_overlay_node-Found arrived = (rounds-Found 10 0 arrived, refl)
