-- ===== src/WarmPool/Grow.antt =====
-- CheckWarmPoolDepth below the desired count, and over all pools of a configuration.
use aws_virtual_kubelet.Base.{
  pos, int_ltb, rounds, to_nat, int_ltb-to_nat, rounds-to_nat, to_nat-le, Bool-cases, false, ℕ,
  zero, suc, ◌+◌, ◌≤◌, ◌<◌, ◌≡◌, String, List, [], ◌∷◌, ◌++◌, order_cases, length,
  length-insert_bounds, inl, inr, arith,
}
use aws_virtual_kubelet.Config.{WarmPoolConfig}
use aws_virtual_kubelet.Cloud.{Env, IsFair, TagSpecification, Result}
use aws_virtual_kubelet.Process.{Process, Outcome, done, crash, after}
use aws_virtual_kubelet.Process.Frame.{Returns}
use aws_virtual_kubelet.Awsutils.UserData.{generate_vkvm_user_data, ec2_run_instances_util}
use aws_virtual_kubelet.WarmPool.State.{cumulative_warm_ec2}
use aws_virtual_kubelet.WarmPool.Launch.{create_warm_ec2_instance, create_warm_ec2}
use aws_virtual_kubelet.WarmPool.Depth.{create_missing, check_warm_pool_depth, check_pools}
use aws_virtual_kubelet.WarmPool.Shrink.{Shrunk, check_warm_pool_depth-Shrunk}

module _ {W : Type 0} ⦃env : Env W⦄ where
  generate_vkvm_user_data-vk_state :
      (a b c d : String) (s : Process W)
      → (after (generate_vkvm_user_data a b c d s)).vk_state ≡ s.vk_state
  unfolding generate_vkvm_user_data
  generate_vkvm_user_data-vk_state a b c d s = ground arith

  create_warm_ec2_instance-vk_state :
      (wpc : WarmPoolConfig) (tags : List TagSpecification) (s : Process W)
      → (after (create_warm_ec2_instance wpc tags s)).vk_state ≡ s.vk_state
  unfolding create_warm_ec2_instance ec2_run_instances_util
  create_warm_ec2_instance-vk_state wpc tags s = grind (arith, generate_vkvm_user_data-vk_state)

  -- The ready instances stay, and there is at most one more that is provisioning.
  abbrev Grown : ℕ → Process W → Process W → Type 0
  Grown n s t =
      (t.vk_state.ready_ec2 ≡ s.vk_state.ready_ec2)
      × (length s.vk_state.provisioning_ec2 ≤ length t.vk_state.provisioning_ec2)
      × (length t.vk_state.provisioning_ec2 ≤ length s.vk_state.provisioning_ec2 + n)

  create_warm_ec2-Grown :
      (wpc : WarmPoolConfig) (s : Process W) → Grown 1 s (after (create_warm_ec2 wpc s))
  unfolding create_warm_ec2
  create_warm_ec2-Grown wpc s =
      grind (arith, create_warm_ec2_instance-vk_state, length-insert_bounds)

  create_missing-Grown :
      (n : ℕ) (wpc : WarmPoolConfig) (s : Process W) → Grown n s (after (create_missing n wpc s))
  unfolding create_missing
  create_missing-Grown zero wpc s = ground arith
  create_missing-Grown (suc n) wpc s =
      go (create_warm_ec2 wpc s) (create_warm_ec2-Grown wpc s) (λ t. create_missing-Grown n wpc t)
    where
      go :
          (o : Outcome W (Result (Unit {0})))
          → Grown 1 s (after o)
          → ((t : Process W) → Grown n t (after (create_missing n wpc t)))
          → Grown (suc n) s (
              after {A = Unit {0}}
                (elim o [ done _ t ↦ create_missing n wpc t | crash e t ↦ crash e t ]))
      go (done _ t) h rest = ground (arith, rest t)
      go (crash e t) h rest = ground arith

  pub check_warm_pool_depth-grow :
      (wpc : WarmPoolConfig) (s : Process W)
      → cumulative_warm_ec2 s.vk_state < to_nat wpc.desired_count
      → let t = after (check_warm_pool_depth wpc s) in
        (t.vk_state.ready_ec2 ≡ s.vk_state.ready_ec2)
        × (cumulative_warm_ec2 s.vk_state ≤ cumulative_warm_ec2 t.vk_state)
        × (cumulative_warm_ec2 t.vk_state ≤ to_nat wpc.desired_count)
  unfolding check_warm_pool_depth
  check_warm_pool_depth-grow wpc s h = ground (
    arith,
    int_ltb-to_nat (cumulative_warm_ec2 s.vk_state) wpc.desired_count,
    rounds-to_nat (cumulative_warm_ec2 s.vk_state) wpc.desired_count,
    create_missing-Grown (rounds wpc.desired_count (pos (cumulative_warm_ec2 s.vk_state))) wpc s,
  )

  level :
      (wpc : WarmPoolConfig) (s : Process W)
      → let n = cumulative_warm_ec2 s.vk_state in
        int_ltb wpc.desired_count (pos n) ≡ false
        → n ≡ to_nat wpc.desired_count
        → cumulative_warm_ec2 (after (check_warm_pool_depth wpc s)).vk_state
          ≤ to_nat wpc.desired_count
  unfolding check_warm_pool_depth
  level wpc s right e =
      ground (arith, int_ltb-to_nat (cumulative_warm_ec2 s.vk_state) wpc.desired_count)

  module _ (fair : IsFair env) where
    check_warm_pool_depth-le :
        (wpc : WarmPoolConfig) (s : Process W)
        → cumulative_warm_ec2 (after (check_warm_pool_depth wpc s)).vk_state
          ≤ to_nat wpc.desired_count
    check_warm_pool_depth-le wpc s =
        let n = cumulative_warm_ec2 s.vk_state in
        elim (Bool-cases (int_ltb wpc.desired_count (pos n))) [
          | inl above ↦ shrunk (check_warm_pool_depth-Shrunk fair wpc s above)
          | inr right ↦ elim (order_cases n (to_nat wpc.desired_count)) [
            | inl below ↦ (check_warm_pool_depth-grow wpc s below).2
            | inr (inl equal) ↦ level wpc s right equal
            | inr (inr above) ↦ absurd (omega (arith, above, to_nat-le n wpc.desired_count right))
          ]
        ]
      where
        shrunk :
            ((t : Process W) × (check_warm_pool_depth wpc s ≡ done tt t) × Shrunk fair wpc s t)
            → cumulative_warm_ec2 (after (check_warm_pool_depth wpc s)).vk_state
              ≤ to_nat wpc.desired_count
        shrunk (t, e, r) = rw e (omega (arith, r.depth))

    -- A round of checks over several pools ends with at most as many instances as the last pool
    -- wants, if it returns: the pools share one state, and do not add up.
    pub check_pools-last :
        (wpcs : List WarmPoolConfig) (last : WarmPoolConfig) (s : Process W)
        → Returns
            (λ t. cumulative_warm_ec2 t.vk_state ≤ to_nat last.desired_count)
            (check_pools (wpcs ++ last ∷ []) s)
    unfolding check_pools
    check_pools-last [] last s = go (check_warm_pool_depth last s) (check_warm_pool_depth-le last s)
      where
        go :
            (o : Outcome W (Unit {0}))
            → cumulative_warm_ec2 (after o).vk_state ≤ to_nat last.desired_count
            → Returns
                (λ t. cumulative_warm_ec2 t.vk_state ≤ to_nat last.desired_count)
                (elim o [ done _ t ↦ done tt t | crash e t ↦ crash e t ])
        go (done _ t) h = h
        go (crash e t) h = tt
    check_pools-last (wpc ∷ wpcs) last s =
        go (check_warm_pool_depth wpc s) (λ t. check_pools-last wpcs last t)
      where
        go :
            (o : Outcome W (Unit {0}))
            → ((t : Process W)
                → Returns
                    (λ t. cumulative_warm_ec2 t.vk_state ≤ to_nat last.desired_count)
                    (check_pools (wpcs ++ last ∷ []) t))
            → Returns
                (λ t. cumulative_warm_ec2 t.vk_state ≤ to_nat last.desired_count)
                (elim o [ done _ t ↦ check_pools (wpcs ++ last ∷ []) t | crash e t ↦ crash e t ])
        go (done _ t) rest = rest t
        go (crash e t) rest = tt
