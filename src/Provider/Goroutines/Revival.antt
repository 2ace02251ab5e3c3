-- ===== src/Provider/Goroutines/Revival.antt =====
-- An UpdatePod beside a DeletePod of the same key.
use aws_virtual_kubelet.Base.{
  none, inl, inr, ◌⊎◌, ap, ℕ, zero, suc, ◌≡◌, ◌≢◌, refl, sym, ◌∙◌, subst, List, [], ◌∷◌, some,
  lookup, lookup-insert, ==_iff, eq_iff, arith,
}
use aws_virtual_kubelet.Cloud.{Env, Result, ok}
use aws_virtual_kubelet.Process.{Process, MetaPod, Outcome, done, crash, update}
use aws_virtual_kubelet.Cache.{cache_get, cache_set}
use aws_virtual_kubelet.Provider.{pod_key, delete_pod}
use aws_virtual_kubelet.Provider.Goroutines.Sharing.{refreshed-none, noted-same}
use aws_virtual_kubelet.Provider.Goroutines.{
  Goroutine, updating, replacing, ended, advance, refreshed, noted, Workers, turn, interleave,
  Request, update_pod_request, delete_pod_request, no_request, begin, begun,
}
use aws_virtual_kubelet.Provider.Goroutines.Alone.{work, work-at_once}

-- A goroutine moves a number of times.
abbrev pub again : ℕ → ℕ → List ℕ → List ℕ
again zero i rest = rest
again (suc n) i rest = i ∷ again n i rest

module _ {W : Type 0} ⦃env : Env W⦄ where
  -- The goroutines after some of them have moved, of which one has come from `w` to a point.
  record Moved (i : ℕ) (order rest : List ℕ) (g : Goroutine) (t : Process W) (w : Workers W)
      : Type 0 where
    now : Workers W
    runs : interleave order w ≡ interleave rest now
    process : now.process ≡ t
    here : now.goroutines i ≡ g
    elsewhere : (j : ℕ) → j ≢ i → now.goroutines j ≡ w.goroutines j

  -- One move of a goroutine, before others.
  interleave-done :
      (i : ℕ) (order : List ℕ) (w : Workers W) (g : Goroutine) (u : Process W)
      → advance (refreshed w.written (w.goroutines i)) w.process ≡ done g u
      → interleave (i ∷ order) w
        ≡ interleave order (record {
          process = u;
          goroutines = update w.goroutines i g;
          written = noted (w.goroutines i) w.written;
        })
  unfolding interleave turn
  interleave-done i order w g u is = ground (arith, is)

  -- A goroutine that finds what it has looked up: nothing is written, or it is over.
  abbrev Unaware : ℕ → Workers W → Type 0
  Unaware i w = (w.written ≡ (λ _. none)) ⊎ ((r : Result (Unit {0})) × (w.goroutines i ≡ ended r))

  Unaware-refreshed :
      (i : ℕ) (w : Workers W) → Unaware i w → refreshed w.written (w.goroutines i) ≡ w.goroutines i
  unfolding refreshed
  Unaware-refreshed i w (inl e) = rw e (refreshed-none (w.goroutines i))
  Unaware-refreshed i w (inr (r, e)) = rw e refl

  Unaware-next :
      (i : ℕ) (w : Workers W) (next : Goroutine) (u : Process W)
      → advance (w.goroutines i) w.process ≡ done next u
      → Unaware i w
      → (noted (w.goroutines i) w.written ≡ (λ _. none))
        ⊎ ((r : Result (Unit {0})) × (next ≡ ended r))
  unfolding advance
  Unaware-next i w next u is (inr (r, e)) =
      let over : advance (ended r) w.process ≡ done next u =
        subst (λ g. advance g w.process ≡ done next u) e is in
      inr (r, cc over)
  Unaware-next i w next u is (inl e) = elim (noted-same (w.goroutines i) w.written) [
    | inl same ↦ inl (same ∙ e)
    | inr (pod, k, m, at) ↦
        let over : advance (replacing pod k m) w.process ≡ done next u =
          subst (λ g. advance g w.process ≡ done next u) at is in
        inr (ok tt, cc over)
  ]

  -- While one goroutine works the others wait.
  work-Moved :
      (n i : ℕ) (rest : List ℕ) (g : Goroutine) (t : Process W) (w : Workers W)
      → Unaware i w
      → work n (w.goroutines i) w.process ≡ done g t
      → Moved i (again n i rest) rest g t w
  unfolding work interleave turn
  work-Moved zero i rest g t w un e = record {
    now = w;
    runs = refl;
    process = cc e;
    here = cc e;
    elsewhere = λ j other. refl;
  }
  work-Moved (suc n) i rest g t w un e =
      go (λ v. work-Moved n i rest g t v) (advance (w.goroutines i) w.process) refl e
    where
      go :
          ((v : Workers W)
            → Unaware i v
            → work n (v.goroutines i) v.process ≡ done g t
            → Moved i (again n i rest) rest g t v)
          → (o : Outcome W Goroutine) → advance (w.goroutines i) w.process ≡ o
          → (elim o [ done next u ↦ work n next u | crash x u ↦ crash x u ]) ≡ done g t
          → Moved i (again (suc n) i rest) rest g t w
      go more (crash x u) is e = absurd (cc e)
      go more (done next u) is e =
          let v : Workers W = record {
            process = u;
            goroutines = update w.goroutines i next;
            written = noted (w.goroutines i) w.written;
          } in
          let at : v.goroutines i ≡ next = ground (arith, ==_iff i i) in
          let after : Unaware i v = elim (Unaware-next i w next u is un) [
            | inl none_written ↦ inl none_written
            | inr (r, over) ↦ inr (r, at ∙ over)
          ] in
          let m = more v after (subst (λ h. work n h u ≡ done g t) (sym at) e) in
          record {
            now = m.now;
            runs =
                interleave-done i (again n i rest) w next u
                  (ap (λ h. advance h w.process) (Unaware-refreshed i w un) ∙ is)
                ∙ m.runs;
            process = m.process;
            here = m.here;
            elsewhere = λ j other. m.elsewhere j other ∙ (ground (arith, ==_iff i j, other));
          }

-- The first goroutine updates, the second deletes.
abbrev pub both : (new old : ℕ) → ℕ → Request
both new old zero = update_pod_request new
both new old (suc zero) = delete_pod_request old
both new old (suc (suc n)) = no_request

abbrev pub between : List ℕ
between = 0 ∷ again 11 1 (0 ∷ [])

module _ {W : Type 0} ⦃env : Env W⦄ (s t : Process W) (old new : ℕ) (e : MetaPod)
    (found : cache_get (pod_key (s.pods old)) s ≡ some e)
    (same : pod_key (s.pods new) ≡ pod_key (s.pods old))
    (deleted : delete_pod old s ≡ done (ok tt) t) where
  -- the goroutines once the UpdatePod has looked up the entry
  abbrev looked_up : Workers W
  looked_up = record {
    process = s;
    goroutines =
        update (begun s (both new old)).goroutines 0 (replacing new (pod_key (s.pods new)) e);
    written = λ _. none;
  }

  looks_up : advance (updating new) s ≡ done (replacing new (pod_key (s.pods new)) e) s
  unfolding advance
  looks_up =
      let at : cache_get (pod_key (s.pods new)) s ≡ some e = rw same found in ground (arith, at)

  deletes : Moved 1 (again 11 1 (0 ∷ [])) (0 ∷ []) (ended (ok tt)) t looked_up
  unfolding begin
  deletes =
      work-Moved 11 1 (0 ∷ []) (ended (ok tt)) t looked_up (inl refl)
        ((work-at_once old s).2 ∙ (ground (arith, deleted)))

  waits : deletes.now.goroutines 0 ≡ replacing new (pod_key (s.pods new)) e
  waits = deletes.elsewhere 0 (cc)

  -- the process in the end
  abbrev revived : Process W
  revived = cache_set (pod_key (s.pods new)) (record e { pod = new }) deletes.now.process

  puts_back :
      advance (refreshed deletes.now.written (deletes.now.goroutines 0)) deletes.now.process
      ≡ done (ended (ok tt)) revived
  unfolding advance refreshed
  puts_back = rw waits

  -- Of a pod that is in the cache, let a DeletePod be made and an UpdatePod beside it, and let the
  -- DeletePod by itself return no error. If it runs between the two accesses of the cache that the
  -- UpdatePod makes, both return no error, and the pod is in the cache.
  pub update_pod-revives :
      (v : Workers W) × (interleave between (begun s (both new old)) ≡ some v)
      × (v.goroutines 0 ≡ ended (ok tt))
      × (v.goroutines 1 ≡ ended (ok tt))
      × (lookup (pod_key (s.pods old)) v.process.cache ≡ some (record e { pod = new }))
  unfolding begin cache_set interleave refreshed noted
  update_pod-revives = (
    record {
      process = revived;
      goroutines = update deletes.now.goroutines 0 (ended (ok tt));
      written = noted (deletes.now.goroutines 0) deletes.now.written;
    },
    interleave-done 0 (again 11 1 (0 ∷ [])) (begun s (both new old)) _ s looks_up
        ∙ deletes.runs
        ∙ interleave-done 0 [] deletes.now _ revived puts_back,
    refl,
    deletes.here,
    ground (
      arith,
      same,
      eq_iff (pod_key (s.pods old)) (pod_key (s.pods old)),
      lookup-insert (pod_key (s.pods old)) (pod_key (s.pods old)) (record e { pod = new })
          deletes.now.process.cache,
    ),
  )
