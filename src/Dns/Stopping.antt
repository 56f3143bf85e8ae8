-- ===== src/Dns/Stopping.antt =====
-- The end of the loops of grcache-proxy/src/discovery/dns.rs.
use mathlib.Core.Option.{some-injective}
use mathlib.Core.Path.{subst}
use Prim.Native.Nat.{◌≤◌}
use grcache.Prelude.{
  ℕ, ◌+◌, ◌-◌, ◌<◌, ◌≡◌, refl, sym, ◌∙◌, Bool, true, false, Option, none, some, List, [], ◌∷◌,
  if◌then◌else◌, arith, Option-cases, Bool-cases, inl, inr, nat_eq, nat_beq, nat_beq_iff, Text,
}
use grcache.Prelude.Map.{lookup, lookup-insert}
use grcache.Dns.{
  Handle, Phase, starting, looking, changed, updating, checking, Loop, State, is_live, HostPort,
  host_port_eq, strong_count, create, upgraded, backends_for_hostname, new, receive, Response,
  advance,
}
use grcache.Dns.Cells.{lookup-snoc}
use grcache.Dns.Step.{Step, call, copy, release, accept, turn, Steps, here, next}
use grcache.Dns.Invariant.{weak}
use grcache.Dns.Queue.{absent-IsQueue}
use grcache.Dns.Invariant.Moves.{Inv-new}
use grcache.Dns.Runs.{Inv-Steps}
use grcache.Dns.Kept.{Keeps-Step}
use grcache.Dns.Countdown.{left, LeftOf, After, Apart, After-advance_loop, Apart-advance_loop}

-- How many turns of a run are those of one loop.
unfoldable pub turns : ℕ → {s t : State} → Steps s t → ℕ
turns sender here = 0
turns sender (next run (call hostname port)) = turns sender run
turns sender (next run (copy id live)) = turns sender run
turns sender (next run (release id live)) = turns sender run
turns sender (next run accept) = turns sender run
turns sender (next run (turn r i e)) =
    let before = turns sender run in if nat_beq i sender then before + 1 else before

-- The loop has stopped, or has at most `n` turns left, and cannot start again.
record Ends (sender id n : ℕ) (s : State) : Type 0 where
  known : id < s.next
  created : sender < s.next
  dead : is_live id s ≡ false
  not_queued : lookup sender s.commands ≡ none
  ends : LeftOf id n (lookup sender s.loops)

true-ne-false : ◌≡◌ {A = Bool} true false → ⊥
true-ne-false e = cc

module _ {sender id n : ℕ} where
  -- Any step keeps what has ended so far.
  Ends-Step :
      {s t : State}
      → Ends sender id n s
      → Step s t
      → (m : ℕ) → lookup sender t.commands ≡ none
      → LeftOf id m (lookup sender t.loops)
      → Ends sender id m t
  Ends-Step {s = s} {t = t} e step m queue ends =
      let k = Keeps-Step step in
      record {
        known = omega (arith, e.known, k.grows);
        created = omega (arith, e.created, k.grows);
        dead = elim (Bool-cases (is_live id t)) [
          | inl live ↦ absurd (true-ne-false (sym (k.dies id e.known live) ∙ e.dead))
          | inr d ↦ d
        ];
        not_queued = queue;
        ends = ends;
      }

  Ends-call :
      {s : State} (hostname : Text) (port : ℕ)
      → Ends sender id n s
      → Ends sender id n (backends_for_hostname hostname port s).0
  unfolding backends_for_hostname create
  Ends-call {s = s} hostname port e =
      let step : Step s (backends_for_hostname hostname port s).0 = call hostname port in
      elim (Option-cases (upgraded (hostname, port) s)) [
        | inr (j, found) ↦
            Ends-Step e step n (rw (found, backends_for_hostname) e.not_queued)
              (rw (found, backends_for_hostname) e.ends)
        | inl gone ↦
            Ends-Step e step n
              (rw (gone, backends_for_hostname)
                (ground (
                  arith,
                  lookup-snoc s.next sender (hostname, port) s.commands,
                  e.created,
                  e.not_queued,
                )))
              (rw (gone, backends_for_hostname) e.ends)
      ]

  Ends-receive :
      {s : State} (l : List (ℕ × HostPort))
      → s.commands ≡ l
      → Ends sender id n s
      → Ends sender id n (receive s)
  unfolding receive lookup
  Ends-receive {s = s} [] c e = simp (c, receive) e
  Ends-receive {s = s} ((i, host_port) ∷ rest) c e =
      let apart : lookup sender ((i, host_port) ∷ rest) ≡ none =
        subst (λ x. lookup sender x ≡ none) c e.not_queued in
      Ends-Step e accept n (simp (c, receive) (ground arith)) (
        simp (c, receive)
          (ground (
            arith,
            lookup-insert i sender (record { host_port = host_port; phase = starting }) s.loops,
            e.ends,
          )))

  Ends-turn :
      {s t : State} (r : Response) (i : ℕ)
      → advance r i s ≡ some t
      → nat_beq i sender ≡ false
      → Ends sender id n s
      → Ends sender id n t
  unfolding advance Apart
  Ends-turn {s = s} {t = t} r i e other before = elim (Option-cases (lookup i s.loops)) [
    | inl none_runs ↦
        subst (Ends sender id n) (some-injective _ _ (rw (none_runs, advance) at e)) before
    | inr (l, running) ↦
        let (commands, apart) =
          subst (Apart sender i s) (rw (running, advance) at e)
            (Apart-advance_loop sender i s r l.host_port l.phase) in
        Ends-Step before (turn r i e) n (rw commands before.not_queued)
          (rw (apart other) before.ends)
  ]

none_left : (phase : Phase) → left phase ≤ 0 → ⊥
none_left starting few = omega (arith, few)
none_left (looking id) few = omega (arith, few)
none_left (changed id) few = omega (arith, few)
none_left (updating id) few = omega (arith, few)
none_left (checking id) few = omega (arith, few)

-- A turn of the loop itself.
Ends-own_turn :
    {sender id n : ℕ} {s t : State} (r : Response)
    → advance r sender s ≡ some t
    → Ends sender id (n + 1) s
    → Ends sender id n t
unfolding advance Apart After
Ends-own_turn {sender = sender} {id = id} {n = n} {s = s} {t = t} r e before =
    elim (Option-cases (lookup sender s.loops)) [
      | inl none_runs ↦
          let same : s ≡ t = some-injective _ _ (rw (none_runs, advance) at e) in
          Ends-Step before (turn r sender e) n (rw (← same) before.not_queued)
            (rw (← same, none_runs) tt)
      | inr (l, running) ↦
          let (commands, _) =
            subst (Apart sender sender s) (rw (running, advance) at e)
              (Apart-advance_loop sender sender s r l.host_port l.phase) in
          let (watched, few) = subst (LeftOf id (n + 1)) running before.ends in
          Ends-Step before (turn r sender e) n (rw commands before.not_queued) (
            subst (After sender id n s before.dead) (rw (running, advance) at e)
              (After-advance_loop sender id n s before.dead r l.host_port l.phase watched few))
    ]

-- None left, it has stopped.
Ends-zero : {sender id : ℕ} {s : State} → Ends sender id 0 s → lookup sender s.loops ≡ none
Ends-zero {sender = sender} {id = id} {s = s} e = elim (Option-cases (lookup sender s.loops)) [
  | inl n ↦ n
  | inr (l, running) ↦
      let (watched, few) = subst (LeftOf id 0) running e.ends in absurd (none_left l.phase few)
]

Ends-weaken :
    {sender id m : ℕ} {s : State} (n : ℕ) → m ≤ n → Ends sender id m s → Ends sender id n s
Ends-weaken {sender = sender} {id = id} {m = m} {s = s} n more e = record {
  known = e.known;
  created = e.created;
  dead = e.dead;
  not_queued = e.not_queued;
  ends = weaken (lookup sender s.loops) e.ends;
}
  where
    weaken : (o : Option Loop) → LeftOf id m o → LeftOf id n o
    weaken none few = tt
    weaken (some l) (watched, few) = (watched, omega (arith, few, more))

Ends-Steps :
    {sender id n : ℕ} {s t : State}
    → Ends sender id n s
    → (run : Steps s t) → Ends sender id (n - turns sender run) t
unfolding turns
Ends-Steps {n = n} e here = Ends-weaken (n - 0) (omega arith) e
Ends-Steps e (next run (call hostname port)) = Ends-call hostname port (Ends-Steps e run)
Ends-Steps e (next run (copy id live)) =
    let before = Ends-Steps e run in Ends-Step before (copy id live) _ before.not_queued before.ends
Ends-Steps e (next run (release id live)) =
    let before = Ends-Steps e run in
    Ends-Step before (release id live) _ before.not_queued before.ends
Ends-Steps e (next {t = t} run accept) = Ends-receive t.commands refl (Ends-Steps e run)
Ends-Steps {sender = sender} {n = n} e (next run (turn r i a)) =
    elim (Bool-cases (nat_beq i sender)) [
      | inr other ↦ rw (other) (Ends-turn r i a other (Ends-Steps e run))
      | inl own ↦ rw (own) (
          Ends-own_turn r (rw ((nat_beq_iff i sender).0 own) at a)
            (Ends-weaken (n - (turns sender run + 1) + 1) (omega arith) (Ends-Steps e run)))
    ]

-- In every state that a run leads to from the empty service: a loop whose weak reference is to a handle
-- without an owner has stopped in every state that any further run leads to in which the loop has had
-- three turns or more, whatever else happens and whatever is looked up.
pub lookup-Steps :
    {s t : State} (sender id : ℕ) (l : Loop) (h : Handle)
    → Steps new s
    → lookup sender s.loops ≡ some l
    → weak l.phase ≡ some id
    → lookup id s.handles ≡ some h
    → h.strong ≡ 0
    → (run : Steps s t) → 3 ≤ turns sender run
    → lookup sender t.loops ≡ none
unfolding strong_count
lookup-Steps {s = s} sender id l h reached running watched e none_owns run enough =
    let inv = Inv-Steps Inv-new reached in
    let start : Ends sender id 3 s = record {
      known = inv.fresh id h e;
      created = (inv.loops sender l running).0;
      dead = ground arith;
      not_queued =
          absent-IsQueue s.next sender s.service_backends s.loops l s.commands running inv.queue;
      ends = subst (LeftOf id 3) (sym running) (watched, at_most l.phase id watched);
    } in
    Ends-zero (Ends-weaken 0 (omega (arith, enough)) (Ends-Steps start run))
  where
    at_most : (phase : Phase) (id : ℕ) → weak phase ≡ some id → left phase ≤ 3
    at_most starting id w = absurd (ground arith)
    at_most (looking j) id w = omega arith
    at_most (changed j) id w = omega arith
    at_most (updating j) id w = omega arith
    at_most (checking j) id w = omega arith
