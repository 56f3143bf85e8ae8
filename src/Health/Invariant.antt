-- ===== src/Health/Invariant.antt =====
-- What holds of grcache-shared/src/health.rs under every interleaving.
use grcache.Prelude.{
  ℕ, zero, suc, ◌+◌, ◌^◌, ◌<◌, ◌≡◌, ◌&&◌, ◌⊎◌, refl, Bool, true, false, List, [], ◌∷◌, arith, inl,
  inr, if◌then◌else◌, Bool-cases, length,
}
use Prim.Native.Nat.{◌≤◌}
use grcache.Health.{
  State, new, add, flag, clear, swap, fetch_sub, send, Step, add_endpoint, call_ready, subtract,
  signal, Reach, start, later,
}

-- How many endpoints still block.
abbrev pub blocking : List Bool → ℕ
blocking [] = 0
blocking (b ∷ bs) = (if b then 1 else 0) + blocking bs

-- The flag of the root endpoint, which is the oldest.
abbrev pub root : List Bool → Bool
root [] = false
root (b ∷ []) = b
root (b ∷ c ∷ bs) = root (c ∷ bs)

pub blocking-clear :
    (bs : List Bool) (i : ℕ) → flag bs i ≡ true → blocking (clear bs i) + 1 ≡ blocking bs
blocking-clear [] i h = absurd (ground arith)
blocking-clear (true ∷ bs) zero h = omega arith
blocking-clear (false ∷ bs) zero h = absurd (ground arith)
blocking-clear (b ∷ bs) (suc i) h = omega (arith, blocking-clear bs i h)

root-clear : (bs : List Bool) (i : ℕ) → root (clear bs i) ≡ true → root bs ≡ true
root-clear [] i h = h
root-clear (b ∷ []) zero h = absurd (ground arith)
root-clear (b ∷ []) (suc i) h = h
root-clear (b ∷ c ∷ bs) zero h = h
root-clear (b ∷ c ∷ bs) (suc zero) h = root-clear (c ∷ bs) zero h
root-clear (b ∷ c ∷ bs) (suc (suc i)) h = root-clear (c ∷ bs) (suc i) h

blocking_of_root : (bs : List Bool) → root bs ≡ true → 0 < blocking bs
blocking_of_root [] h = absurd (ground arith)
blocking_of_root (b ∷ []) h = ground arith
blocking_of_root (b ∷ c ∷ bs) h = omega (arith, blocking_of_root (c ∷ bs) h)

pub record Inv (n : ℕ) (s : State) : Type 0 where
  -- the count is what blocks, with the calls that have yet to subtract
  pub counted : s.ready_blocks ≡ blocking s.can_indicate_ready + s.subtracting
  pub small : s.ready_blocks ≤ n + 1
  pub rooted : 0 < length s.can_indicate_ready
  -- a count of zero is signalled, or about to be
  pub signalled : s.ready_blocks ≡ 0 → (s.ready ≡ true) ⊎ (0 < s.sending)
  -- nothing is signalled while the root endpoint blocks
  pub waits : root s.can_indicate_ready ≡ true → (s.ready ≡ false) × (s.sending ≡ 0)

root-cons : (b : Bool) (bs : List Bool) → 0 < length bs → root (b ∷ bs) ≡ root bs
root-cons b [] h = absurd (omega arith)
root-cons b (c ∷ bs) h = refl

pub length-clear : (bs : List Bool) (i : ℕ) → length (clear bs i) ≡ length bs
length-clear [] i = refl
length-clear (b ∷ bs) zero = refl
length-clear (b ∷ bs) (suc i) = omega (arith, length-clear bs i)

module _ {n : ℕ} {s : State} (small : n + 2 < 2 ^ 64) (inv : Inv n s) where
  add-Inv : (b : Bool) → Inv (suc n) (add b s)
  unfolding add
  add-Inv true = record {
    counted = omega (arith, inv.counted, inv.small);
    small = omega (arith, inv.small);
    rooted = omega (arith, inv.rooted);
    signalled = λ e. absurd (omega (arith, inv.small));
    waits = λ e. inv.waits (rw (← root-cons true s.can_indicate_ready inv.rooted) e);
  }
  add-Inv false = record {
    counted = omega (arith, inv.counted);
    small = omega (arith, inv.small);
    rooted = omega (arith, inv.rooted);
    signalled = inv.signalled;
    waits = λ e. inv.waits (rw (← root-cons false s.can_indicate_ready inv.rooted) e);
  }

  swap-Inv : (i : ℕ) → Inv (suc n) (swap i s)
  unfolding swap
  swap-Inv i = elim (Bool-cases (flag s.can_indicate_ready i)) [
    | inl armed ↦
        rw (armed, swap)
          (record {
            counted = omega (arith, inv.counted, blocking-clear s.can_indicate_ready i armed);
            small = omega (arith, inv.small);
            rooted = omega (arith, inv.rooted, length-clear s.can_indicate_ready i);
            signalled = inv.signalled;
            waits = λ e. inv.waits (root-clear s.can_indicate_ready i e);
          })
    | inr idle ↦
        rw (idle, swap)
          (record {
            counted = inv.counted;
            small = omega (arith, inv.small);
            rooted = inv.rooted;
            signalled = inv.signalled;
            waits = inv.waits;
          })
  ]

  fetch_sub-Inv : 0 < s.subtracting → Inv (suc n) (fetch_sub s)
  unfolding fetch_sub
  fetch_sub-Inv h = record {
    counted = omega (arith, inv.counted, inv.small);
    small = omega (arith, inv.counted, inv.small);
    rooted = inv.rooted;
    signalled = λ e. ground (arith, inv.counted, inv.small);
    waits = λ e. ground (arith, inv.counted, inv.waits e, blocking_of_root s.can_indicate_ready e);
  }

  send-Inv : 0 < s.sending → Inv (suc n) (send s)
  unfolding send
  send-Inv h = record {
    counted = inv.counted;
    small = omega (arith, inv.small);
    rooted = inv.rooted;
    signalled = λ e. inl refl;
    waits = λ e. absurd (omega (arith, inv.waits e));
  }

Step-Inv : {n : ℕ} {s t : State} → n + 2 < 2 ^ 64 → Step s t → Inv n s → Inv (suc n) t
Step-Inv small (add_endpoint b) inv = add-Inv small inv b
Step-Inv small (call_ready i) inv = swap-Inv small inv i
Step-Inv small (subtract h) inv = fetch_sub-Inv small inv h
Step-Inv small (signal h) inv = send-Inv small inv h

Inv-new : Inv 0 new
Inv-new = record {
  counted = refl;
  small = omega arith;
  rooted = omega arith;
  signalled = λ e. absurd (omega arith);
  waits = λ e. (refl, refl);
}

Reach-Inv : {n : ℕ} {s : State} → n + 1 < 2 ^ 64 → Reach n s → Inv n s
Reach-Inv small start = Inv-new
Reach-Inv small (later r st) = Step-Inv (omega arith) st (Reach-Inv (omega arith) r)

-- Within 2^64 - 2 steps of the start, in every interleaving of threads that add endpoints and call
-- `ready`: the count is the number of endpoints that still block, plus the calls of `ready` that have
-- yet to subtract, so it never wraps; and while the root endpoint has not called `ready`, readiness
-- is not signalled.
pub ready-waits_for_root :
    {n : ℕ} {s : State}
    → n + 1 < 2 ^ 64
    → Reach n s
    → (s.ready_blocks ≡ blocking s.can_indicate_ready + s.subtracting)
      × ((root s.can_indicate_ready && s.ready) ≡ false)
ready-waits_for_root {s = s} small r =
    let inv = Reach-Inv small r in
    (
      inv.counted,
      elim (Bool-cases (root s.can_indicate_ready)) [
        | inl e ↦ rw (e, (inv.waits e).0)
        | inr e ↦ rw e
      ],
    )

-- Within 2^64 - 2 steps of the start: when every endpoint has called `ready` or was dropped, and no
-- call is under way, readiness has been signalled.
pub ready_at_rest :
    {n : ℕ} {s : State}
    → n + 1 < 2 ^ 64
    → Reach n s
    → blocking s.can_indicate_ready ≡ 0
    → s.subtracting ≡ 0
    → s.sending ≡ 0
    → s.ready ≡ true
ready_at_rest small r none_blocks none_subtract none_send =
    let inv = Reach-Inv small r in ground (arith, inv.counted, inv.signalled)

-- Once signalled, readiness is never taken back by any step.
pub Step-ready : {s t : State} → Step s t → s.ready ≡ true → t.ready ≡ true
unfolding add swap fetch_sub send
Step-ready (add_endpoint true) h = h
Step-ready (add_endpoint false) h = h
Step-ready {s = s} (call_ready i) h = ground arith
Step-ready (subtract pending) h = h
Step-ready (signal pending) h = refl
