-- ===== src/Start/Count.antt =====
-- The count of grcache-shared/src/health.rs once no more endpoints are added.
use Prim.Native.Nat.{◌≤◌}
use grcache.Prelude.{
  ℕ, zero, suc, ◌+◌, ◌-◌, ◌%◌, ◌^◌, ◌<◌, ◌≡◌, ◌⊎◌, refl, Bool, true, false, List, [], ◌∷◌, arith,
  inl, inr, Bool-cases, nat_beq,
}
use grcache.Health.{State, flag, clear, swap, fetch_sub, send}
use grcache.Health.Invariant.{blocking, blocking-clear}

pub flag-clear : (bs : List Bool) (i j : ℕ) → flag (clear bs i) j ≡ true → flag bs j ≡ true
flag-clear [] i j h = h
flag-clear (b ∷ bs) zero zero h = absurd (ground arith)
flag-clear (b ∷ bs) zero (suc j) h = h
flag-clear (b ∷ bs) (suc i) zero h = h
flag-clear (b ∷ bs) (suc i) (suc j) h = flag-clear bs i j h

-- Another flag than the one that is cleared.
pub flag-clear_other :
    (bs : List Bool) (i j : ℕ) → nat_beq i j ≡ false → flag (clear bs i) j ≡ flag bs j
flag-clear_other [] i j h = refl
flag-clear_other (b ∷ bs) zero zero h = absurd (ground arith)
flag-clear_other (b ∷ bs) zero (suc j) h = refl
flag-clear_other (b ∷ bs) (suc i) zero h = refl
flag-clear_other (b ∷ bs) (suc i) (suc j) h = flag-clear_other bs i j (ground (arith, h))

pub flag_of_blocking : (bs : List Bool) (j : ℕ) → blocking bs ≡ 0 → flag bs j ≡ false
flag_of_blocking [] j h = refl
flag_of_blocking (true ∷ bs) j h = absurd (omega (arith, h))
flag_of_blocking (false ∷ bs) zero h = refl
flag_of_blocking (false ∷ bs) (suc j) h = flag_of_blocking bs j (omega (arith, h))

-- The count is what blocks, with the calls under way; it is zero once readiness is signalled or about
-- to be, and only then.
pub record Counts (s : State) : Type 0 where
  pub counted : s.ready_blocks ≡ blocking s.can_indicate_ready + s.subtracting
  pub few : s.ready_blocks ≤ 3
  pub early : s.ready ≡ true → s.ready_blocks ≡ 0
  pub pending : 0 < s.sending → s.ready_blocks ≡ 0
  pub late : s.ready_blocks ≡ 0 → (s.ready ≡ true) ⊎ (0 < s.sending)

pub Counts-swap : {s : State} → Counts s → (i : ℕ) → Counts (swap i s)
unfolding swap
Counts-swap {s = s} c i = elim (Bool-cases (flag s.can_indicate_ready i)) [
  | inr e ↦ rw (e, swap) c
  | inl e ↦
      rw (e, swap)
        (record {
          counted = omega (arith, c.counted, blocking-clear s.can_indicate_ready i e);
          few = c.few;
          early = c.early;
          pending = c.pending;
          late = c.late;
        })
]

pub Counts-fetch_sub : {s : State} → Counts s → 0 < s.subtracting → Counts (fetch_sub s)
unfolding fetch_sub
Counts-fetch_sub {s = s} c pos =
    let less : (s.ready_blocks + 2 ^ 64 - 1) % 2 ^ 64 + 1 ≡ s.ready_blocks =
      omega (arith, c.counted, c.few, pos) in
    record {
      counted = omega (arith, c.counted, less, pos);
      few = omega (arith, c.few, less);
      early = λ e. absurd (omega (arith, c.counted, c.early e, pos));
      pending = λ p. ground (arith, less, c.pending, c.counted, pos);
      late = λ zero_left. inr (ground (arith, less));
    }

pub Counts-send : {s : State} → Counts s → 0 < s.sending → Counts (send s)
unfolding send
Counts-send {s = s} c pos = record {
  counted = c.counted;
  few = c.few;
  early = λ e. c.pending pos;
  pending = λ p. c.pending pos;
  late = λ e. inl refl;
}
