-- ===== src/Store/Generation.antt =====
-- Generations in grcache-proxy/src/service_store.rs: the order in which descriptor sets finish
-- loading does not matter, and what is newer is never overwritten by what is older.
use Prim.Native.Nat.{◌≤◌}
use mathlib.Core.Path.{subst, ap₂}
use mathlib.Core.List.{Permᴰ}
use grcache.Prelude.{
  ℕ, ◌+◌, ◌^◌, ◌<◌, ◌≡◌, refl, sym, ap, ◌∙◌, Option, none, some, List, [], ◌∷◌, Text, arith, All,
  text_eq, ◌==◌, if◌then◌else◌, Option-cases, inl, inr, eq_iff, ltb,
}
use grcache.Prelude.Map.{Map, lookup, insert, lookup-insert}
use grcache.Store.{
  ServiceData, Task, update_service_if_newer, finish_task, finish_tasks, loaded_data, usize_succ,
}

-- The map of services, and a task with what it ends in.
abbrev pub Services : Type 0 → Type 0 → Type 0
Services Spec Handle = Map Text (ServiceData Spec Handle)

abbrev pub Ended : Type 0 → Type 0 → Type 0
Ended Spec Handle = Task Handle × Option Spec

module _ {Spec Handle : Type 0} where
  -- The newer of two entries; on a tie the first.
  abbrev pub newer :
      Option (ServiceData Spec Handle) → ServiceData Spec Handle → ServiceData Spec Handle
  newer none b = b
  newer (some a) b = if ltb a.generation b.generation then b else a

  pub lookup-update_service_if_newer :
      (n name : Text) (new : ServiceData Spec Handle) (services : Services Spec Handle)
      → lookup name (update_service_if_newer n new services)
        ≡ (if n == name then some (newer (lookup name services) new) else lookup name services)
  unfolding update_service_if_newer
  lookup-update_service_if_newer n name new services = elim (Option-cases (lookup n services)) [
    | inl e ↦
        rw (e, update_service_if_newer)
          (ground (arith, lookup-insert n name new services, eq_iff n name))
    | inr (old, e) ↦
        rw (e, update_service_if_newer)
          (ground (arith, lookup-insert n name new services, eq_iff n name))
  ]

  -- What one ended task makes of the entry of a service.
  abbrev entry_after :
      Text → Ended Spec Handle → Option (ServiceData Spec Handle) → Option (ServiceData Spec Handle)
  entry_after name (t, none) entry = entry
  entry_after name (t, some spec) entry =
      if t.service_name == name then some (newer entry (loaded_data t spec)) else entry

  abbrev entry_after_all :
      Text
      → List (Ended Spec Handle)
      → Option (ServiceData Spec Handle)
      → Option (ServiceData Spec Handle)
  entry_after_all name [] entry = entry
  entry_after_all name (e ∷ es) entry = entry_after_all name es (entry_after name e entry)

  lookup-finish_task :
      (name : Text) (e : Ended Spec Handle) (services : Services Spec Handle)
      → lookup name (finish_task e services) ≡ entry_after name e (lookup name services)
  unfolding finish_task
  lookup-finish_task name (t, none) services = refl
  lookup-finish_task name (t, some spec) services =
      lookup-update_service_if_newer t.service_name name (loaded_data t spec) services

  lookup-finish_tasks :
      (name : Text) (es : List (Ended Spec Handle)) (services : Services Spec Handle)
      → lookup name (finish_tasks es services) ≡ entry_after_all name es (lookup name services)
  unfolding finish_tasks
  lookup-finish_tasks name [] services = refl
  lookup-finish_tasks name (e ∷ es) services =
      lookup-finish_tasks name es (finish_task e services)
      ∙ ap (entry_after_all name es) (lookup-finish_task name e services)

  -- Two tasks of different generations may end in either order.
  entry_after_swap :
      (name : Text) (x y : Ended Spec Handle) (entry : Option (ServiceData Spec Handle))
      → (x.0.generation ≡ y.0.generation → x ≡ y)
      → entry_after name y (entry_after name x entry)
        ≡ entry_after name x (entry_after name y entry)
  entry_after_swap name (t, none) (u, none) entry h = refl
  entry_after_swap name (t, none) (u, some b) entry h = refl
  entry_after_swap name (t, some a) (u, none) entry h = refl
  entry_after_swap name (t, some a) (u, some b) none h =
      ground (arith, eq_iff t.service_name name, eq_iff u.service_name name)
  entry_after_swap name (t, some a) (u, some b) (some e) h =
      ground (arith, eq_iff t.service_name name, eq_iff u.service_name name)

  -- No generation belongs to two tasks.
  abbrev pub Issued : (ℕ → Ended Spec Handle) → List (Ended Spec Handle) → Type 0
  Issued issued = All (λ e. e ≡ issued e.0.generation)

  Issued-entry_after_all :
      (name : Text) (issued : ℕ → Ended Spec Handle) (us vs : List (Ended Spec Handle))
      → Issued issued us
      → Permᴰ us vs
      → Issued issued vs
        × ((entry : Option (ServiceData Spec Handle))
            → entry_after_all name us entry ≡ entry_after_all name vs entry)
  Issued-entry_after_all name issued us vs h Permᴰ.nil = (tt, λ entry. refl)
  Issued-entry_after_all name issued us vs h (Permᴰ.cons {a} {b} {l₁} {l₂} e p) =
      let (k, same) = Issued-entry_after_all name issued l₁ l₂ h.1 p in
      (
        (subst (λ (u : Ended Spec Handle). u ≡ issued u.0.generation) e h.0, k),
        λ entry.
            same (entry_after name a entry)
            ∙ ap (λ (u : Ended Spec Handle). entry_after_all name (u ∷ l₂) entry) e,
      )
  Issued-entry_after_all name issued us vs h (Permᴰ.swap {a} {b} {a'} {b'} {l} e f) = (
    (
      subst (λ (u : Ended Spec Handle). u ≡ issued u.0.generation) f h.1.0,
      (subst (λ (u : Ended Spec Handle). u ≡ issued u.0.generation) e h.0, h.1.1),
    ),
    λ entry.
        ap (entry_after_all name l)
          (entry_after_swap name a b entry (λ q. h.0 ∙ ap issued q ∙ sym h.1.0))
        ∙ ap₂ (λ (u v : Ended Spec Handle). entry_after_all name (u ∷ v ∷ l) entry) f e,
  )
  Issued-entry_after_all name issued us vs h (Permᴰ.trans {l₂ = mid} p q) =
      let (k, same) = Issued-entry_after_all name issued us mid h p in
      let (k', same') = Issued-entry_after_all name issued mid vs k q in
      (k', λ entry. same entry ∙ same' entry)

  -- Where each generation was issued to one task, tasks may end in any order, some of them in a
  -- panic: every service ends with the same entry.
  pub finish_tasks-perm :
      (issued : ℕ → Ended Spec Handle) (us vs : List (Ended Spec Handle))
      (services : Services Spec Handle)
      → Issued issued us
      → Permᴰ us vs
      → (name : Text)
      → lookup name (finish_tasks us services) ≡ lookup name (finish_tasks vs services)
  finish_tasks-perm issued us vs services h p name =
      lookup-finish_tasks name us services
      ∙ (Issued-entry_after_all name issued us vs h p).1 (lookup name services)
      ∙ sym (lookup-finish_tasks name vs services)

  -- Older tasks leave an entry alone.
  entry_after_all_older :
      (name : Text) (es : List (Ended Spec Handle)) (entry : ServiceData Spec Handle)
      → All (λ e. e.0.generation < entry.generation) es
      → entry_after_all name es (some entry) ≡ some entry
  entry_after_all_older name [] entry h = refl
  entry_after_all_older name ((t, none) ∷ es) entry h = entry_after_all_older name es entry h.1
  entry_after_all_older name ((t, some spec) ∷ es) entry h =
      ap (entry_after_all name es) (ground (arith, h.0)) ∙ entry_after_all_older name es entry h.1

  -- However many tasks end, and in which order: an entry that is newer than all of them stays.
  pub finish_tasks_older :
      (name : Text) (es : List (Ended Spec Handle)) (services : Services Spec Handle)
      (entry : ServiceData Spec Handle)
      → lookup name services ≡ some entry
      → All (λ e. e.0.generation < entry.generation) es
      → lookup name (finish_tasks es services) ≡ some entry
  finish_tasks_older name es services entry e h =
      lookup-finish_tasks name es services
      ∙ ap (entry_after_all name es) e
      ∙ entry_after_all_older name es entry h

-- The counter grows where it does not wrap.
pub lt-usize_succ : (x g : ℕ) → x ≤ g → g + 1 < 2 ^ 64 → x < usize_succ g
lt-usize_succ x g h k = omega arith

module _ {Spec Handle : Type 0} where
  -- All generations of the entries are below `g`.
  abbrev pub Below : ℕ → Services Spec Handle → Type 0
  Below g services =
      (n : Text) (entry : ServiceData Spec Handle)
      → lookup n services ≡ some entry
      → entry.generation < g

  pub Below-insert :
      (g : ℕ) (name : Text) (new : ServiceData Spec Handle) (services : Services Spec Handle)
      → Below g services
      → new.generation ≡ g
      → g + 1 < 2 ^ 64
      → Below (usize_succ g) (insert name new services)
  Below-insert g name new services h e k n entry q =
      lt-usize_succ entry.generation g
        (elim (Option-cases (lookup n services)) [
          | inl absent ↦ ground (arith, lookup-insert name n new services)
          | inr (old, found) ↦ ground (arith, lookup-insert name n new services, h n old found)
        ])
        k

  pub Below-update_service_if_newer :
      (g : ℕ) (name : Text) (new : ServiceData Spec Handle) (services : Services Spec Handle)
      → Below g services
      → new.generation ≡ g
      → g + 1 < 2 ^ 64
      → Below (usize_succ g) (update_service_if_newer name new services)
  Below-update_service_if_newer g name new services h e k n entry q =
      lt-usize_succ entry.generation g
        (elim (Option-cases (lookup n services)) [
          | inl absent ↦
              ground (arith, lookup-update_service_if_newer name n new services, eq_iff name n)
          | inr (old, found) ↦ ground (
            arith,
            lookup-update_service_if_newer name n new services,
            eq_iff name n,
            h n old found,
          )
        ])
        k
