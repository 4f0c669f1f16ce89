-- ===== src/Scheduler/Victims.antt =====
-- The choice of the victim in `worker_steal_task`.
use native.Mathlib.Nat.{div-add-mod'}
use inet_forth.Scheduler.{victim_index, victim_cursor, next_cursor}
use inet_forth.Base.{
  Bool-cases, ap, arith, inl, inr, ltb, sym, ℕ, ◌%◌, ◌*◌, ◌+◌, ◌-◌, ◌/◌, ◌<◌, ◌==◌, ◌^◌, ◌∙◌, ◌≡◌,
  ◌≢◌, ◌≤◌,
}

pub victim_index-lt : (n i c : ℕ) → i < n → victim_index n i c < n
unfolding victim_index
victim_index-lt n i c lt = omega arith

above_apart : (p d n : ℕ) → p * n + 1 ≡ (p + 1 + d) * n → 1 < n → ⊥
above_apart p d n e two = omega arith

below_apart : (q d n : ℕ) → (q + d) * n + 1 ≡ q * n → ⊥
below_apart q d n e = omega arith

-- Two multiples of a number above one do not differ by one.
multiples_apart : (p q n : ℕ) → p * n + 1 ≡ q * n → 1 < n → ⊥
multiples_apart p q n e two = elim (Bool-cases (ltb p q)) [
  | inl less ↦
      let split : q ≡ p + 1 + (q - (p + 1)) = ground arith in
      above_apart p (q - (p + 1)) n (e ∙ ap (λ (x : ℕ). x * n) split) two
  | inr more ↦
      let split : p ≡ q + (p - q) = ground arith in
      below_apart q (p - q) n (ap (λ (x : ℕ). x * n + 1) (sym split) ∙ e)
]

next-mod-ne : (c n : ℕ) → 1 < n → (c + 1) % n ≢ c % n
next-mod-ne c n two e =
    multiples_apart (c / n) ((c + 1) / n) n
      (omega (arith, div-add-mod' c n, div-add-mod' (c + 1) n)) two

-- With two or more workers, before the cursor wraps, `worker_steal_task` always picks one of the
-- workers and never itself, and the cursor moves on by one or two.
pub victim_index_bounds :
    (n i c : ℕ)
    → 1 < n
    → i < n
    → c + 2 < 2 ^ 64
    → (victim_index n i c < n)
      × (victim_index n i c ≢ i)
      × (c < victim_cursor n i c)
      × (victim_cursor n i c ≤ c + 2)
unfolding victim_index
victim_index_bounds n i c two lt room = (
  victim_index-lt n i c lt,
  elim (Bool-cases (next_cursor c % n == i)) [
    | inl own ↦ λ e. next-mod-ne (c + 1) n two (ground arith)
    | inr other ↦ λ e. ground arith
  ],
  ground arith,
  ground arith,
)
