-- ===== src/WarmPool/Mutex/Bodies.antt =====
-- The methods of the warm pool that lock `VKState`: their sections, and the mutex.
use aws_virtual_kubelet.Base.{
  pos, int_ltb, rounds, [], ℕ, zero, suc, ◌≡◌, refl, sym, ◌∙◌, inl, inr, String, List, ◌++◌, none,
  true, false, Bool-cases, arith,
}
use aws_virtual_kubelet.Config.{WarmPoolConfig}
use aws_virtual_kubelet.Cloud.{Env}
use aws_virtual_kubelet.Process.{Process, Outcome, done, crash, Go, ◌>>=◌, get}
use aws_virtual_kubelet.WarmPool.State.{cumulative_warm_ec2}
use aws_virtual_kubelet.WarmPool.Launch.{create_warm_ec2}
use aws_virtual_kubelet.WarmPool.Depth.{
  create_missing, take_all_excess, take_excess, terminate_excess, check_warm_pool_depth,
}
use aws_virtual_kubelet.WarmPool.Mutex.{Program, stop, act, Section, left, failed, section}
use aws_virtual_kubelet.WarmPool.Mutex.Programs.{
  Result, Method, check, take, remove_everywhere, remove_ready, remove_unhealthy, fill, shrink,
  decide, body, program, at_once,
}
use aws_virtual_kubelet.WarmPool.Mutex.Serialization.{IsGuarded}

module _ {W : Type 0} ⦃env : Env W⦄ where
  -- What a section leads to whose method has the given outcome.
  abbrev pub leads_to : Outcome W Result → Section W Result
  leads_to (done r t) = left (stop r) t
  leads_to (crash e t) = failed e t

  abbrev nothing : Outcome W (Unit {0}) → Outcome W Result
  nothing (done _ t) = done none t
  nothing (crash e t) = crash e t

  -- A step and what follows it, if crashes are passed on.
  section-act :
      {A B : Type 0} (post : Outcome W B → Section W Result) (k : A → Program W Result)
      (f : A → Go W B)
      → ((e : String) (t : Process W) → post (crash e t) ≡ failed e t)
      → ((a : A) (t : Process W) → section (k a) t ≡ post (f a t))
      → (m : Go W A) (s : Process W) → section (act m k) s ≡ post ((m >>= f) s)
  unfolding section
  section-act {A = A} {B = B} post k f crashes h m s = go (m s)
    where
      go :
          (o : Outcome W A)
          → (elim o [ done a t ↦ section (k a) t | crash e t ↦ failed e t ])
            ≡ post (elim o [ done a t ↦ f a t | crash e t ↦ crash e t ])
      go (done a t) = h a t
      go (crash e t) = sym (crashes e t)

  section-fill :
      (n : ℕ) (wpc : WarmPoolConfig) (s : Process W)
      → section (fill n wpc) s ≡ leads_to (nothing (create_missing n wpc s))
  unfolding fill create_missing
  section-fill zero wpc = λ _. unfold section in refl
  section-fill (suc n) wpc =
      section-act (λ o. leads_to (nothing o)) (λ _. fill n wpc) (λ _. create_missing n wpc)
        (λ _ _. refl) (λ _. section-fill n wpc) (create_warm_ec2 wpc)

  abbrev terminated : Outcome W (List String) → Outcome W (Unit {0})
  terminated (done ids t) = terminate_excess ids t
  terminated (crash e t) = crash e t

  section-shrink :
      (n : ℕ) (ids : List String) (s : Process W)
      → section (shrink n ids) s ≡ leads_to (nothing (terminated (take_all_excess n ids s)))
  unfolding shrink take_all_excess
  section-shrink zero ids = λ s. unfold section in (ground arith)
  section-shrink (suc n) ids =
      section-act (λ o. leads_to (nothing (terminated o))) (λ more. shrink n (ids ++ more))
        (λ more. take_all_excess n (ids ++ more)) (λ _ _. refl)
        (λ more. section-shrink n (ids ++ more)) take_excess

  section-decide :
      (wpc : WarmPoolConfig) (s : Process W)
      → section (decide wpc (cumulative_warm_ec2 s.vk_state)) s
        ≡ leads_to (nothing (check_warm_pool_depth wpc s))
  unfolding check_warm_pool_depth
  section-decide wpc s =
      let cumulative = cumulative_warm_ec2 s.vk_state in
      elim (Bool-cases (int_ltb (pos cumulative) wpc.desired_count)) [
        | inl low ↦ rw low (section-fill (rounds wpc.desired_count (pos cumulative)) wpc s)
        | inr enough ↦ elim (Bool-cases (int_ltb wpc.desired_count (pos cumulative))) [
          | inl high ↦
              rw (enough, high)
                (section-shrink (rounds (pos cumulative) wpc.desired_count) [] s ∙ (ground arith))
          | inr right ↦ rw (enough, right) (unfold section in refl)
        ]
      ]

  section-get :
      (k : Process W → Program W Result) (s : Process W) → section (act get k) s ≡ section (k s) s
  unfolding section
  section-get k s = refl

  -- A method that is stepped through in its section does what it does at once.
  pub section-body : (m : Method) (s : Process W) → section (body m) s ≡ leads_to (at_once m s)
  unfolding body at_once
  section-body (check wpc) s =
      section-get (λ t. decide wpc (cumulative_warm_ec2 t.vk_state)) s
      ∙ section-decide wpc s
      ∙ (ground arith)
  section-body take s = unfold section in (ground arith)
  section-body (remove_everywhere ec2) s = unfold section in refl
  section-body (remove_ready ec2) s = unfold section in refl
  section-body (remove_unhealthy ec2) s = unfold section in refl

module _ (W : Type 0) ⦃env : Env W⦄ where
  fill-IsGuarded : (n : ℕ) (wpc : WarmPoolConfig) → IsGuarded {W = W} true (fill n wpc)
  unfolding fill
  fill-IsGuarded zero wpc = tt
  fill-IsGuarded (suc n) wpc = λ _. fill-IsGuarded n wpc

  shrink-IsGuarded : (n : ℕ) (ids : List String) → IsGuarded {W = W} true (shrink n ids)
  unfolding shrink
  shrink-IsGuarded zero ids = λ _. tt
  shrink-IsGuarded (suc n) ids = λ more. shrink-IsGuarded n (ids ++ more)

  decide-IsGuarded : (wpc : WarmPoolConfig) (n : ℕ) → IsGuarded {W = W} true (decide wpc n)
  decide-IsGuarded wpc n = elim (Bool-cases (int_ltb (pos n) wpc.desired_count)) [
    | inl low ↦ rw low (fill-IsGuarded (rounds wpc.desired_count (pos n)) wpc)
    | inr enough ↦ elim (Bool-cases (int_ltb wpc.desired_count (pos n))) [
      | inl high ↦ rw (enough, high) (shrink-IsGuarded (rounds (pos n) wpc.desired_count) [])
      | inr right ↦ rw (enough, right) tt
    ]
  ]

  pub program-IsGuarded : (m : Method) → IsGuarded {W = W} false (program m)
  unfolding body
  program-IsGuarded (check wpc) = λ s. decide-IsGuarded wpc (cumulative_warm_ec2 s.vk_state)
  program-IsGuarded take = λ _. tt
  program-IsGuarded (remove_everywhere ec2) = λ _. tt
  program-IsGuarded (remove_ready ec2) = λ _. tt
  program-IsGuarded (remove_unhealthy ec2) = λ _. tt
