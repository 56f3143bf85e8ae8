-- ===== src/Start/Owners.antt =====
-- Which handles of the discovery the loader of grcache-proxy/src/service_store.rs holds: those of the
-- published entries and of the tasks.
use Prim.Native.Nat.{◌≤◌}
use grcache.Prelude.{
  ℕ, ◌+◌, ◌≡◌, Option, none, some, List, [], ◌∷◌, ◌++◌, Text, text_eq, arith, if◌then◌else◌,
  nat_beq, Option-cases, Bool-cases, inl, inr, ltb,
}
use grcache.Prelude.Map.{Map, lookup, insert, total, total-insert}
use grcache.Store.{ServiceData, Task, update_service_if_newer, finish_task, loaded_data}

abbrev pub is_held : ℕ → ℕ → ℕ
is_held id handle = if nat_beq handle id then 1 else 0

abbrev pub held_by : ℕ → Option ℕ → ℕ
held_by id none = 0
held_by id (some handle) = is_held id handle

abbrev pub entry_owns : {Spec : Type 0} → ℕ → ServiceData Spec ℕ → ℕ
entry_owns id entry = held_by id entry.load_balancer

abbrev pub tasks_own : ℕ → List (Task ℕ) → ℕ
tasks_own id [] = 0
tasks_own id (task ∷ tasks) = is_held id task.load_balancer + tasks_own id tasks

pub tasks_own-append :
    (id : ℕ) (xs ys : List (Task ℕ)) → tasks_own id (xs ++ ys) ≡ tasks_own id xs + tasks_own id ys
tasks_own-append id [] ys = omega arith
tasks_own-append id (x ∷ xs) ys = omega (arith, tasks_own-append id xs ys)

module _ {Spec : Type 0} (id : ℕ) where
  abbrev pub entries_own : Map Text (ServiceData Spec ℕ) → ℕ
  entries_own services = total (entry_owns id) services

  pub entries_own-insert :
      (name : Text) (new : ServiceData Spec ℕ) (services : Map Text (ServiceData Spec ℕ))
      → entries_own (insert name new services) ≤ entries_own services + entry_owns id new
  entries_own-insert name new services =
      omega (arith, total-insert (entry_owns id) name new services)

  pub entries_own-update_service_if_newer :
      (name : Text) (new : ServiceData Spec ℕ) (services : Map Text (ServiceData Spec ℕ))
      → entries_own (update_service_if_newer name new services)
        ≤ entries_own services + entry_owns id new
  unfolding update_service_if_newer
  entries_own-update_service_if_newer name new services =
      elim (Option-cases (lookup name services)) [
        | inl n ↦ rw (n, update_service_if_newer) (entries_own-insert name new services)
        | inr (value, e) ↦ elim (Bool-cases (ltb value.generation new.generation)) [
          | inl newer ↦
              rw (e, update_service_if_newer, newer) (entries_own-insert name new services)
          | inr older ↦ rw (e, update_service_if_newer, older) (omega arith)
        ]
      ]

  -- A task that ends leaves its handle to the entry that it publishes, if it publishes one.
  pub entries_own-finish_task :
      (task : Task ℕ) (spec : Option Spec) (services : Map Text (ServiceData Spec ℕ))
      → entries_own (finish_task (task, spec) services)
        ≤ entries_own services + is_held id task.load_balancer
  unfolding finish_task
  entries_own-finish_task task none services = omega arith
  entries_own-finish_task task (some spec) services =
      entries_own-update_service_if_newer task.service_name (loaded_data task spec) services
