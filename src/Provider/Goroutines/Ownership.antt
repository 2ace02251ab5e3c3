-- ===== src/Provider/Goroutines/Ownership.antt =====
-- The calls of CreatePod, UpdatePod and DeletePod in any interleaving, and the owners of monitors.
use aws_virtual_kubelet.Base.{
  ℕ, ◌≡◌, refl, sym, ◌∙◌, String, List, [], ◌∷◌, Option, none, some, lookup, subst, ==_iff, inl,
  inr, ◌==◌, Bool-cases,
}
use aws_virtual_kubelet.Cloud.{Env}
use aws_virtual_kubelet.Process.{Process, MetaPod, Outcome, done, crash, update}
use aws_virtual_kubelet.Provider.Goroutines.Sharing.{refreshed-Holds}
use aws_virtual_kubelet.Provider.Goroutines.{
  Goroutine, advance, refreshed, noted, Workers, turn, interleave, Request, create_pod_request,
  update_pod_request, delete_pod_request, no_request, begin, begun, key_of,
}
use aws_virtual_kubelet.Provider.Goroutines.Owners.{MayBelong, IsOwned, Moves}
use aws_virtual_kubelet.Provider.Goroutines.Points.{IsAt, Stepped, Goes, Moves-IsAt}
use aws_virtual_kubelet.Provider.Goroutines.Steps.{advance-Goes}

begin-IsAt : {W : Type 0} (s : Process W) (r : Request) → IsAt (key_of s r) s (begin r)
unfolding begin
begin-IsAt s (create_pod_request pod) = refl
begin-IsAt s (update_pod_request pod) = refl
begin-IsAt s (delete_pod_request pod) = refl
begin-IsAt s no_request = tt

module _ {W : Type 0} ⦃env : Env W⦄ where
  pub record Inv (keys : ℕ → String) (w : Workers W) : Type 0 where
    pub owned : IsOwned w.process
    pub at : (i : ℕ) → IsAt (keys i) w.process (w.goroutines i)

  pub begun-Inv :
      (s : Process W) (requests : ℕ → Request)
      → IsOwned s
      → Inv (λ i. key_of s (requests i)) (begun s requests)
  begun-Inv s requests h = record { owned = h; at = λ i. begin-IsAt s (requests i) }

  -- The goroutines after a step of one of them.
  pub moved-IsAt :
      (keys : ℕ → String) (w : Workers W) (i : ℕ) (g : Goroutine) (t : Process W)
      → Inv keys w
      → Stepped (keys i) w.process g t
      → (j : ℕ) → IsAt (keys j) t (update w.goroutines i g j)
  moved-IsAt keys w i g t inv st j = elim (Bool-cases (i == j)) [
    | inl same ↦ rw same (subst (λ k. IsAt (keys k) t g) ((==_iff i j).0 same) st.at)
    | inr other ↦ rw other (Moves-IsAt (keys j) (w.goroutines j) st.moves (inv.at j))
  ]

  pub turn-Inv :
      (keys : ℕ → String) (i : ℕ) (w v : Workers W)
      → turn i w ≡ some v
      → Inv keys w
      → Inv keys v × Moves (keys i) w.process v.process
  unfolding turn
  turn-Inv keys i w v e inv =
      let g = refreshed w.written (w.goroutines i) in
      go (advance g w.process)
        (advance-Goes (keys i) g w.process inv.owned (
          refreshed-Holds (IsAt (keys i) w.process) w.written (λ pod k e f h. h) (w.goroutines i)
            (inv.at i)))
        e
    where
      go :
          (o : Outcome W Goroutine)
          → Goes (keys i) w.process o
          → (elim o [
            | done g s ↦ some (record {
              process = s;
              goroutines = update w.goroutines i g;
              written = noted (w.goroutines i) w.written;
            })
            | crash e s ↦ none
          ])
            ≡ some v
          → Inv keys v × Moves (keys i) w.process v.process
      go (done g t) st same =
          let same' : record {
            process = t;
            goroutines = update w.goroutines i g;
            written = noted (w.goroutines i) w.written;
          }
              ≡ v =
            cc same in
          subst (λ (x : Workers W). Inv keys x × Moves (keys i) w.process x.process) same'
            (record { owned = st.owned; at = moved-IsAt keys w i g t inv st }, st.moves)
      go (crash e t) st same = absurd (cc same)

  pub interleave-Inv :
      (keys : ℕ → String) (order : List ℕ) (w v : Workers W)
      → interleave order w ≡ some v
      → Inv keys w
      → Inv keys v
  unfolding interleave
  interleave-Inv keys [] w v e inv = subst (Inv keys) (cc e) inv
  interleave-Inv keys (i ∷ order) w v e inv =
      go (turn i w) (turn-Inv keys i w) (λ u. interleave-Inv keys order u v) e
    where
      go :
          (o : Option (Workers W))
          → ((u : Workers W)
              → o ≡ some u
              → Inv keys w
              → Inv keys u × Moves (keys i) w.process u.process)
          → ((u : Workers W) → interleave order u ≡ some v → Inv keys u → Inv keys v)
          → (elim o [ none ↦ none | some u ↦ interleave order u ]) ≡ some v
          → Inv keys v
      go none one more e = absurd (cc e)
      go (some u) one more e = more u e (one u refl inv).0

  -- In a process in which the monitor of each cache entry watches a pod with the key of the entry, let
  -- any calls of CreatePod, UpdatePod and DeletePod be made by several goroutines, of different pods or
  -- of the same one. After any interleaving of their steps in which none panics, a key has at most one
  -- entry, the monitor of an entry watches a pod with its key, and no two entries have one monitor.
  pub interleave-IsOwned :
      (order : List ℕ) (s : Process W) (requests : ℕ → Request) (v : Workers W)
      → IsOwned s
      → interleave order (begun s requests) ≡ some v
      → IsOwned v.process
        × ((key other : String) (e f : MetaPod) (m : ℕ)
            → lookup key v.process.cache ≡ some e
            → lookup other v.process.cache ≡ some f
            → e.monitor ≡ some m
            → f.monitor ≡ some m
            → key ≡ other)
  interleave-IsOwned order s requests v h e =
      let keys : ℕ → String = λ i. key_of s (requests i) in
      let inv : Inv keys v =
        interleave-Inv keys order (begun s requests) v e (begun-Inv s requests h) in
      (
        inv.owned,
        λ key other e f m at_key at_other has its.
            sym (subst (MayBelong v.process key) has (inv.owned.monitors key e at_key)).1
            ∙ (subst (MayBelong v.process other) its (inv.owned.monitors other f at_other)).1,
      )
