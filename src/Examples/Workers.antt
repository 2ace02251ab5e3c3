-- ===== src/Examples/Workers.antt =====
-- The theorems about goroutines that call the provider at the same time, each applied at a concrete
-- process.
use aws_virtual_kubelet.Base.{
  ℕ, zero, suc, ◌≡◌, ◌≢◌, refl, subst, String, Bool, true, false, List, [], ◌∷◌, Option, none, some,
  lookup, str_eq, ◌==◌, if◌then◌else◌, arith, eq_iff,
}
use aws_virtual_kubelet.Cloud.{ok}
use aws_virtual_kubelet.Process.{Process, MetaPod, after}
use aws_virtual_kubelet.Health.PodMonitor.{new_pod_monitor, started}
use aws_virtual_kubelet.Provider.{delete_pod}
use aws_virtual_kubelet.Provider.Goroutines.{
  ended, Workers, Request, create_pod_request, update_pod_request, delete_pod_request, no_request,
  begin, begun, key_of, interleave, turn, advance,
}
use aws_virtual_kubelet.Provider.Goroutines.Owners.{IsOwned, MayBelong}
use aws_virtual_kubelet.Provider.Goroutines.Reached.{Started}
use aws_virtual_kubelet.Provider.Goroutines.Ownership.{interleave-IsOwned}
use aws_virtual_kubelet.Provider.Goroutines.Revival.{between, both, update_pod-revives}
use aws_virtual_kubelet.Provider.Goroutines.Isolation.{interleave-Started, interleave-Emptied}
use aws_virtual_kubelet.Utils.{get_pod_cache_key}
use aws_virtual_kubelet.Examples.{creation}
use aws_virtual_kubelet.Examples.Deletions.{deletion}
use aws_virtual_kubelet.Examples.Lifecycles.{two_pods, db_entry}
use aws_virtual_kubelet.Scenario.{World, process, placed_pod, web_pod, entry, small_env}

-- Two pods in the cache and one that is not.
abbrev crowd : Process World
crowd = record two_pods {
  world = (process 3).world;
  pods = λ n.
      if n == 0
      then placed_pod
      else if n == 1
      then record placed_pod { name = "db" }
      else record web_pod { name = "api" };
}

abbrev requests : ℕ → Request
requests zero = delete_pod_request 0
requests (suc zero) = create_pod_request 2
requests (suc (suc zero)) = update_pod_request 1
requests (suc (suc (suc n))) = no_request

abbrev order : List ℕ
order = 0 ∷ 1 ∷ 1 ∷ 2 ∷ 0 ∷ 1 ∷ 1 ∷ 0 ∷ 1 ∷ 0 ∷ 1 ∷ 0 ∷ 1 ∷ 1 ∷ 2 ∷ 0 ∷ 1 ∷ 1 ∷ 1 ∷ 0 ∷ []

crowd-MayBelong :
    (key : String) (e : MetaPod) (web db : Bool)
    → str_eq "default-web" key ≡ web
    → str_eq "default-db" key ≡ db
    → (if web then some entry else if db then some db_entry else none) ≡ some e
    → MayBelong crowd key e.monitor
unfolding get_pod_cache_key started new_pod_monitor
crowd-MayBelong key e true db is_web is_db at =
    let it : entry ≡ e = cc at in
    subst (λ (x : MetaPod). MayBelong crowd key x.monitor) it
      (omega arith, (eq_iff "default-web" key).0 is_web)
crowd-MayBelong key e false true is_web is_db at =
    let it : db_entry ≡ e = cc at in
    subst (λ (x : MetaPod). MayBelong crowd key x.monitor) it
      (omega arith, (eq_iff "default-db" key).0 is_db)
crowd-MayBelong key e false false is_web is_db at = absurd (cc at)

crowd-IsOwned : IsOwned crowd
unfolding lookup
crowd-IsOwned = record {
  table = (((cc), tt), (tt, tt));
  monitors = λ key e at.
      crowd-MayBelong key e (str_eq "default-web" key) (str_eq "default-db" key) refl refl at;
}

abbrev ended_at : Option (Workers World) → Workers World
ended_at none = begun crowd requests
ended_at (some v) = v

runs :
    interleave order (begun crowd requests)
    ≡ some (ended_at (interleave order (begun crowd requests)))
unfolding interleave turn advance begin creation deletion started
runs = refl

abbrev last : Workers World
last = ended_at (interleave order (begun crowd requests))

interleave-IsOwned_example :
    IsOwned last.process
    × ((key other : String) (e f : MetaPod) (m : ℕ)
        → lookup key last.process.cache ≡ some e
        → lookup other last.process.cache ≡ some f
        → e.monitor ≡ some m
        → f.monitor ≡ some m
        → key ≡ other)
interleave-IsOwned_example = interleave-IsOwned order crowd requests last crowd-IsOwned runs

apart_from_api : (j : ℕ) → j ≢ 1 → str_eq (key_of crowd (requests j)) "default-api" ≡ false
unfolding get_pod_cache_key
apart_from_api zero other = refl
apart_from_api (suc zero) other = absurd (other refl)
apart_from_api (suc (suc zero)) other = refl
apart_from_api (suc (suc (suc j))) other = refl

apart_from_web : (j : ℕ) → j ≢ 0 → str_eq (key_of crowd (requests j)) "default-web" ≡ false
unfolding get_pod_cache_key
apart_from_web zero other = absurd (other refl)
apart_from_web (suc zero) other = refl
apart_from_web (suc (suc zero)) other = refl
apart_from_web (suc (suc (suc j))) other = refl

interleave-Started_example : Started "default-api" 2 last.process
unfolding interleave turn advance begin creation deletion started
interleave-Started_example =
    interleave-Started order crowd requests last crowd-IsOwned 1 2 apart_from_api refl runs refl

interleave-Emptied_example : lookup "default-web" last.process.cache ≡ none
unfolding interleave turn advance begin creation deletion started
interleave-Emptied_example =
    interleave-Emptied order crowd requests last crowd-IsOwned 0 0 apart_from_web refl runs refl

update_pod-revives_example :
    (v : Workers World) × (interleave between (begun crowd (both 0 0)) ≡ some v)
    × (v.goroutines 0 ≡ ended (ok tt))
    × (v.goroutines 1 ≡ ended (ok tt))
    × (lookup "default-web" v.process.cache ≡ some entry)
unfolding deletion started
update_pod-revives_example =
    update_pod-revives crowd (after (delete_pod 0 crowd)) 0 0 entry refl refl refl
