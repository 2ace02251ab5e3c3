-- ===== src/Provider/Goroutines/Among.antt =====
-- What holds of one goroutine, whatever the others do.
use aws_virtual_kubelet.Base.{
  ℕ, ◌≡◌, ◌≢◌, refl, String, List, [], ◌∷◌, Option, none, some, subst, sym, true, false, ==_iff,
  inl, inr, ◌==◌, Bool-cases,
}
use aws_virtual_kubelet.Cloud.{Env}
use aws_virtual_kubelet.Process.{Process, MetaPod, Outcome, done, crash, update}
use aws_virtual_kubelet.Provider.Goroutines.{
  Goroutine, terminating, advance, refreshed, noted, Workers, turn, interleave,
}
use aws_virtual_kubelet.Provider.Goroutines.Sharing.{refreshed-Holds}
use aws_virtual_kubelet.Provider.Goroutines.Owners.{IsOwned, Moves}
use aws_virtual_kubelet.Provider.Goroutines.Points.{IsAt, Goes, Holds}
use aws_virtual_kubelet.Provider.Goroutines.Steps.{advance-Goes}
use aws_virtual_kubelet.Provider.Goroutines.Ownership.{Inv, turn-Inv}

module _ {W : Type 0} ⦃env : Env W⦄ (keys : ℕ → String) (i : ℕ) (P : Goroutine → Process W → Type 0)
    (others : (j : ℕ) (g : Goroutine) (s t : Process W)
      → j ≢ i
      → Moves (keys j) s t
      → P g s
      → P g t)
    (any : (pod : ℕ) (k : String) (e f : MetaPod) (s : Process W)
      → P (terminating pod k e) s
      → P (terminating pod k f) s)
    (own : (g : Goroutine) (s : Process W)
      → IsOwned s
      → IsAt (keys i) s g
      → P g s
      → Holds P (advance g s)) where
  abbrev Of : Workers W → Type 0
  Of w = P (w.goroutines i) w.process

  turn-Of : (j : ℕ) (w v : Workers W) → turn j w ≡ some v → Inv keys w → Of w → Of v
  unfolding turn
  turn-Of j w v e inv h = elim (Bool-cases (j == i)) [
    | inl same ↦
        let it = (==_iff j i).0 same in
        let g = refreshed w.written (w.goroutines i) in
        mine (advance (refreshed w.written (w.goroutines j)) w.process)
          (subst (λ k. Holds P (advance (refreshed w.written (w.goroutines k)) w.process)) (sym it)
            (own g w.process inv.owned
              (refreshed-Holds (IsAt (keys i) w.process) w.written (λ pod k e f a. a)
                (w.goroutines i) (inv.at i))
              (refreshed-Holds (λ g'. P g' w.process) w.written
                (λ pod k e f. any pod k e f w.process) (w.goroutines i) h)))
          e same
    | inr other ↦
        let g = refreshed w.written (w.goroutines j) in
        yours (advance g w.process)
          (advance-Goes (keys j) g w.process inv.owned (
            refreshed-Holds (IsAt (keys j) w.process) w.written (λ pod k e f a. a) (w.goroutines j)
              (inv.at j)))
          e other
  ]
    where
      mine :
          (o : Outcome W Goroutine)
          → Holds P o
          → (elim o [
            | done g s ↦ some (record {
              process = s;
              goroutines = update w.goroutines j g;
              written = noted (w.goroutines j) w.written;
            })
            | crash e s ↦ none
          ])
            ≡ some v
          → (j == i) ≡ true
          → Of v
      mine (done g t) p is same =
          let it : record {
            process = t;
            goroutines = update w.goroutines j g;
            written = noted (w.goroutines j) w.written;
          }
              ≡ v =
            cc is in
          subst Of it (rw same p)
      mine (crash e t) p is same = absurd (cc is)

      yours :
          (o : Outcome W Goroutine)
          → Goes (keys j) w.process o
          → (elim o [
            | done g s ↦ some (record {
              process = s;
              goroutines = update w.goroutines j g;
              written = noted (w.goroutines j) w.written;
            })
            | crash e s ↦ none
          ])
            ≡ some v
          → (j == i) ≡ false
          → Of v
      yours (done g t) st is other =
          let it : record {
            process = t;
            goroutines = update w.goroutines j g;
            written = noted (w.goroutines j) w.written;
          }
              ≡ v =
            cc is in
          subst Of it (
            rw other (
              others j (w.goroutines i) w.process t (λ same. cc (other, (==_iff j i).1 same))
                st.moves h))
      yours (crash e t) st is other = absurd (cc is)

  pub interleave-Of :
      (order : List ℕ) (w v : Workers W) → interleave order w ≡ some v → Inv keys w → Of w → Of v
  unfolding interleave
  interleave-Of [] w v e inv h = let it : w ≡ v = cc e in subst Of it h
  interleave-Of (j ∷ order) w v e inv h =
      go (turn j w) (λ u is. ((turn-Inv keys j w u is inv).0, turn-Of j w u is inv h))
        (λ u. interleave-Of order u v) e
    where
      go :
          (o : Option (Workers W))
          → ((u : Workers W) → o ≡ some u → Inv keys u × Of u)
          → ((u : Workers W) → interleave order u ≡ some v → Inv keys u → Of u → Of v)
          → (elim o [ none ↦ none | some u ↦ interleave order u ]) ≡ some v
          → Of v
      go none one more e = absurd (cc e)
      go (some u) one more e = more u e (one u refl).0 (one u refl).1
