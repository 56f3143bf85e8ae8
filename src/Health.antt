-- ===== src/Health.antt =====
-- grcache-shared/src/health.rs: the count of endpoints that block readiness, one atomic access at a
-- time, with any number of threads that call `ready`, `add` or drop an endpoint.
pub mod Invariant
use grcache.Prelude.{
  ℕ, zero, suc, ◌+◌, ◌-◌, ◌%◌, ◌^◌, ◌<◌, ◌≡◌, Bool, true, false, List, [], ◌∷◌, if◌then◌else◌,
  nat_beq,
}

-- `State`, the `can_indicate_ready` of every endpoint, newest first, and how many calls of `ready`
-- stand between two of its accesses.
pub record State : Type 0 where
  pub ready_blocks : ℕ  -- AtomicU64
  pub ready : Bool
  pub can_indicate_ready : List Bool  -- of every endpoint, the oldest last
  pub subtracting : ℕ  -- calls that have swapped `true` out, before `fetch_sub`
  pub sending : ℕ  -- calls that have read a count of 1, before `send_if_modified`

-- `Health::new`: the root endpoint blocks.
abbrev pub new : State
new = record {
  ready_blocks = 1;
  ready = false;
  can_indicate_ready = true ∷ [];
  subtracting = 0;
  sending = 0;
}

-- `Health::add`
unfoldable pub add : Bool → State → State
add true s = record s {
  ready_blocks = (s.ready_blocks + 1) % 2 ^ 64;
  can_indicate_ready = true ∷ s.can_indicate_ready;
}
add false s = record s { can_indicate_ready = false ∷ s.can_indicate_ready }

-- The flag at a place in the list, `false` where there is none.
abbrev pub flag : List Bool → ℕ → Bool
flag [] i = false
flag (b ∷ bs) zero = b
flag (b ∷ bs) (suc i) = flag bs i

abbrev pub clear : List Bool → ℕ → List Bool
clear [] i = []
clear (b ∷ bs) zero = false ∷ bs
clear (b ∷ bs) (suc i) = b ∷ clear bs i

-- `can_indicate_ready.swap(false)` at the start of `ready`, which `drop` calls too.
unfoldable pub swap : ℕ → State → State
swap i s =
    if flag s.can_indicate_ready i
    then record s {
      can_indicate_ready = clear s.can_indicate_ready i;
      subtracting = s.subtracting + 1;
    }
    else s

-- `ready_blocks.fetch_sub(1)`, and the test of the count before.
unfoldable pub fetch_sub : State → State
fetch_sub s = record s {
  ready_blocks = (s.ready_blocks + 2 ^ 64 - 1) % 2 ^ 64;
  subtracting = s.subtracting - 1;
  sending = if nat_beq s.ready_blocks 1 then s.sending + 1 else s.sending;
}

-- `send_if_modified`: whatever the value was, it is `true` after.
unfoldable pub send : State → State
send s = record s { ready = true; sending = s.sending - 1 }

-- A step of any thread.
pub data Step (s : State) : State → Type 0 where
  add_endpoint : (blocks_ready : Bool) → Step s (add blocks_ready s)
  call_ready : (i : ℕ) → Step s (swap i s)
  subtract : 0 < s.subtracting → Step s (fetch_sub s)
  signal : 0 < s.sending → Step s (send s)

-- The states that `new` reaches in `n` steps.
pub data Reach : ℕ → State → Type 0 where
  start : Reach 0 new
  later : {n : ℕ} {s t : State} → Reach n s → Step s t → Reach (suc n) t
