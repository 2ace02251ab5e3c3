-- ===== src/WarmPool/Rounds.antt =====
-- What the rounds of the warm pool's maintenance leave alone.
use aws_virtual_kubelet.Base.{pos, rounds, zero, suc, ℕ, String, List, [], ◌∷◌, ◌++◌, arith}
use aws_virtual_kubelet.Config.{WarmPoolConfig}
use aws_virtual_kubelet.Cloud.{Env, ok, err}
use aws_virtual_kubelet.Process.{Process, panic, after, ◌>>=◌}
use aws_virtual_kubelet.Process.Frame.{Keeps, Keeps-refl, >>=-Keeps}
use aws_virtual_kubelet.WarmPool.State.{cumulative_warm_ec2}
use aws_virtual_kubelet.WarmPool.Launch.{create_warm_ec2}
use aws_virtual_kubelet.WarmPool.Depth.{
  take_excess, take_all_excess, create_missing, terminate_excess, check_warm_pool_depth,
  check_pools, create_initial, create_pools,
}
use aws_virtual_kubelet.WarmPool.Refresh.{
  refresh_warm_pool_from_ec2, refresh_pools, check_ec2_tags_for_state, initial_warm_pool_creation,
  all_instances,
}
use aws_virtual_kubelet.WarmPool.Frame.{
  create_warm_ec2-Keeps, take_excess-Keeps, refresh_warm_pool_from_ec2-Keeps,
}

module _ {W : Type 0} ⦃env : Env W⦄ (q : ℕ) where
  create_missing-Keeps :
      (n : ℕ) (wpc : WarmPoolConfig) (s : Process W) → Keeps q s (after (create_missing n wpc s))
  unfolding create_missing
  create_missing-Keeps zero wpc s = Keeps-refl q s
  create_missing-Keeps (suc n) wpc s =
      >>=-Keeps (create_warm_ec2 wpc) (λ _. create_missing n wpc) s (create_warm_ec2-Keeps q wpc s)
        (λ _ t. create_missing-Keeps n wpc t)

  take_all_excess-Keeps :
      (n : ℕ) (ids : List String) (s : Process W) → Keeps q s (after (take_all_excess n ids s))
  unfolding take_all_excess
  take_all_excess-Keeps zero ids s = Keeps-refl q s
  take_all_excess-Keeps (suc n) ids s =
      >>=-Keeps take_excess (λ more. take_all_excess n (ids ++ more)) s (take_excess-Keeps q s)
        (λ more t. take_all_excess-Keeps n (ids ++ more) t)

  terminate_excess-Keeps :
      (ids : List String) (s : Process W) → Keeps q s (after (terminate_excess ids s))
  unfolding terminate_excess
  terminate_excess-Keeps ids s = ground arith

  check_warm_pool_depth-Keeps :
      (wpc : WarmPoolConfig) (s : Process W) → Keeps q s (after (check_warm_pool_depth wpc s))
  unfolding check_warm_pool_depth
  check_warm_pool_depth-Keeps wpc s =
      let n = cumulative_warm_ec2 s.vk_state in
      let shrinking : Keeps q s
          (after ((take_all_excess (rounds (pos n) wpc.desired_count) [] >>= terminate_excess) s)) =
        >>=-Keeps (take_all_excess (rounds (pos n) wpc.desired_count) []) terminate_excess s
          (take_all_excess-Keeps (rounds (pos n) wpc.desired_count) [] s) terminate_excess-Keeps in
      ground (arith, create_missing-Keeps (rounds wpc.desired_count (pos n)) wpc s, shrinking)

  pub check_pools-Keeps :
      (wpcs : List WarmPoolConfig) (s : Process W) → Keeps q s (after (check_pools wpcs s))
  unfolding check_pools
  check_pools-Keeps [] s = Keeps-refl q s
  check_pools-Keeps (wpc ∷ wpcs) s =
      >>=-Keeps (check_warm_pool_depth wpc) (λ _. check_pools wpcs) s
        (check_warm_pool_depth-Keeps wpc s) (λ _ t. check_pools-Keeps wpcs t)

  pub refresh_pools-Keeps :
      (wpcs : List WarmPoolConfig) (s : Process W) → Keeps q s (after (refresh_pools wpcs s))
  unfolding refresh_pools
  refresh_pools-Keeps [] s = Keeps-refl q s
  refresh_pools-Keeps (wpc ∷ wpcs) s =
      >>=-Keeps refresh_warm_pool_from_ec2 (λ _. refresh_pools wpcs) s
        (refresh_warm_pool_from_ec2-Keeps q s) (λ _ t. refresh_pools-Keeps wpcs t)

  create_initial-Keeps :
      (n : ℕ) (wpc : WarmPoolConfig) (s : Process W) → Keeps q s (after (create_initial n wpc s))
  unfolding create_initial
  create_initial-Keeps zero wpc s = Keeps-refl q s
  create_initial-Keeps (suc n) wpc s =
      >>=-Keeps (create_warm_ec2 wpc)
        (elim [
          | ok _ ↦ create_initial n wpc
          | err _ ↦
              panic "This createWarmEC2 error wasn't originally handled...determine what to do here"
        ])
        s (create_warm_ec2-Keeps q wpc s)
        (elim [ ok _ ↦ λ t. create_initial-Keeps n wpc t | err _ ↦ λ t. Keeps-refl q t ])

  create_pools-Keeps :
      (wpcs : List WarmPoolConfig) (s : Process W) → Keeps q s (after (create_pools wpcs s))
  unfolding create_pools
  create_pools-Keeps [] s = Keeps-refl q s
  create_pools-Keeps (wpc ∷ wpcs) s =
      >>=-Keeps
        (create_initial (rounds wpc.desired_count (pos (cumulative_warm_ec2 s.vk_state))) wpc)
        (λ _. create_pools wpcs) s
        (create_initial-Keeps (rounds wpc.desired_count (pos (cumulative_warm_ec2 s.vk_state))) wpc
          s)
        (λ _ t. create_pools-Keeps wpcs t)

  check_ec2_tags_for_state-Keeps :
      (s : Process W) → Keeps q s (after (check_ec2_tags_for_state all_instances s))
  unfolding refresh_warm_pool_from_ec2
  check_ec2_tags_for_state-Keeps s = refresh_warm_pool_from_ec2-Keeps q s

  pub initial_warm_pool_creation-Keeps :
      (s : Process W) → Keeps q s (after (initial_warm_pool_creation s))
  unfolding initial_warm_pool_creation
  initial_warm_pool_creation-Keeps s =
      >>=-Keeps (check_ec2_tags_for_state all_instances)
        (λ _ t. create_pools t.config.warm_pool_config t) s (check_ec2_tags_for_state-Keeps s)
        (λ _ t. create_pools-Keeps t.config.warm_pool_config t)
