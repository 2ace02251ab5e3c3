-- ===== src/Examples/Overlaps.antt =====
-- The theorems about overlapping calls of the warm pool and the start of the metrics, each applied at concrete data.
use aws_virtual_kubelet.Base.{
  ◌≡◌, refl, sym, subst, lookup, remove, eq_iff, String, Bool, true, false, ◌||◌, List, [], ◌∷◌,
  Option, none, some, str_eq, ℕ, arith, Bool-cases, inl, inr, if◌then◌else◌,
}
use aws_virtual_kubelet.Cloud.{ok, Env}
use aws_virtual_kubelet.Process.{Process, after, update}
use aws_virtual_kubelet.Metrics.{Metric, declared, registered}
use aws_virtual_kubelet.Metrics.Registration.{
  Prometheus, Registries, initialize, has_name, initialize-Registered,
}
use aws_virtual_kubelet.WarmPool.Depth.{pop}
use aws_virtual_kubelet.WarmPool.Race.{one_page}
use aws_virtual_kubelet.WarmPool.Refresh.{
  pop_ready, refresh_warm_pool_from_ec2, check_ec2_tags_for_state, import_pages, import_page,
  import_reservations, import_instances, import_tags, import_tag,
}
use aws_virtual_kubelet.WarmPool.Mutex.{
  Program, stop, unlock, System, Steps, start, later, acquire, release, perform, IsFatal,
}
use aws_virtual_kubelet.WarmPool.Mutex.Programs.{
  Result, Method, take, body, program, at_once, refresh_program,
}
use aws_virtual_kubelet.WarmPool.Mutex.Serialization.{idle}
use aws_virtual_kubelet.WarmPool.Mutex.Turns.{Explained, Steps-InTurn}
use aws_virtual_kubelet.WarmPool.Mutex.Progress.{AllReturn, Ended, can_end}
use aws_virtual_kubelet.WarmPool.Allocation.{pop_ready-returns}
use aws_virtual_kubelet.WarmPool.Mutex.Overlap.{refresh-overlap}
use aws_virtual_kubelet.Scenario.{
  World, small_env, small_env-IsFair, process, full_process, ready_instance,
}

-- All goroutines take an instance.
abbrev takers : ℕ → Method
takers i = take

abbrev programs : ℕ → Program World Result
programs i = program take

abbrev taken : Option (String × String)
taken = some ("i-2", "10.0.0.3")

-- The first goroutine has gone through its section.
abbrev one_taken : System World Result
one_taken = record {
  locked = false;
  process = after (pop_ready full_process);
  goroutines =
      update (update (update programs 0 (body take)) 0 (unlock (stop taken))) 0 (stop taken);
}

one_taken-Steps : Steps (idle full_process programs) one_taken
unfolding body pop_ready pop lookup remove
one_taken-Steps =
    later 0
      (later 0 (later 0 start (acquire (body take) refl refl)) (
        perform (pop_ready ⦃env = small_env⦄) (λ r. unlock (stop r)) taken
          (after (pop_ready full_process)) refl refl))
      (release (stop taken) refl refl)

Steps-InTurn_example :
    (IsFatal one_taken → ⊥)
    × (one_taken.locked ≡ false
        → Explained takers full_process one_taken.process one_taken.goroutines)
Steps-InTurn_example = Steps-InTurn takers full_process one_taken one_taken-Steps

takers_return : AllReturn World takers
unfolding at_once
takers_return j t = pop_ready-returns small_env-IsFair t

can_end_example : Ended one_taken 1
can_end_example = can_end takers full_process takers_return one_taken 1 one_taken-Steps

abbrev refreshers : ℕ → Program World Result
refreshers i = refresh_program (stop none)

refresh-overlap_example :
    (sys : System World Result) × Steps (idle (process 1) refreshers) sys × IsFatal sys
unfolding refresh_warm_pool_from_ec2 check_ec2_tags_for_state import_pages import_page
    import_reservations import_instances import_tags import_tag
refresh-overlap_example =
    refresh-overlap (process 1) (after (refresh_warm_pool_from_ec2 (process 1))) 0 1 refreshers
      (stop none) (stop none) refl refl refl refl

-- A registry that is the list of its names.
abbrev is_listed : List String → String → Bool
is_listed [] n = false
is_listed (name ∷ names) n = str_eq name n || is_listed names n

abbrev list_name : Metric → List String → Option (List String)
list_name m names = if is_listed names m.name then none else some (m.name ∷ names)

list_name-fresh :
    (m : Metric) (names : List String)
    → is_listed names m.name ≡ false
    → list_name m names ≡ some (m.name ∷ names)
list_name-fresh m names h = ground (arith, h)

abbrev listing : Prometheus (List String)
listing = record {
  knows = is_listed;
  register = list_name;
  register-fresh =
      λ m names valid fresh. (m.name ∷ names, list_name-fresh m names fresh, λ n. refl);
}

-- The collector of Go itself is there before.
abbrev before : Registries (List String)
before = record { default_registerer = "go_goroutines" ∷ []; registry = [] }

unlisted : (n : String) → has_name n declared ≡ true → (str_eq "go_goroutines" n || false) ≡ false
unlisted n h = elim (Bool-cases (str_eq "go_goroutines" n)) [
  | inl same ↦
      absurd
        (cc (subst (λ k. has_name k declared ≡ true) (sym ((eq_iff "go_goroutines" n).0 same)) h))
  | inr other ↦ ground (arith, other)
]

initialize-Registered_example :
    (out : Registries (List String)) × (initialize listing before ≡ some out)
    × ((n : String)
        → is_listed out.default_registerer n
          ≡ (has_name n declared || is_listed ("go_goroutines" ∷ []) n))
    × ((n : String) → is_listed out.registry n ≡ (has_name n registered || is_listed [] n))
initialize-Registered_example = initialize-Registered listing before unlisted (λ n h. refl)

-- EC2 describes one instance, in every world.
abbrev steady_env : Env World
steady_env = record small_env { describe_instances = λ _ w. (ok (one_page ready_instance none), w) }
