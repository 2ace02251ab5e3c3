-- ===== src/WarmPool/Allocation.antt =====
-- GetWarmPoolInstanceIfExist, once the state is refreshed: which instance it hands out.
use aws_virtual_kubelet.Base.{
  ◌≡◌, ◌<◌, Option, Bool-cases, inl, inr, remove, ltb, String, str_eq, none, some, IsTable, length,
  lookup, lookup-remove, if◌then◌else◌, arith,
}
use aws_virtual_kubelet.Cloud.{Env, IsFair}
use aws_virtual_kubelet.Process.{Process, done, after}
use aws_virtual_kubelet.WarmPool.State.{Ec2Info}
use aws_virtual_kubelet.WarmPool.Depth.{set_ready_ec2}
use aws_virtual_kubelet.WarmPool.Refresh.{pop_ready}
use aws_virtual_kubelet.WarmPool.Shrink.{Popped, pop-Popped}

module _ {W : Type 0} ⦃env : Env W⦄ where
  -- An instance is handed out and is not ready any more; all others stay as they are.
  pub record Allocated (s : Process W) : Type 0 where
    pub key : String
    pub info : Ec2Info
    pub found : lookup key s.vk_state.ready_ec2 ≡ some info
    pub result : pop_ready s ≡ done (some (info.instance_id, info.private_ip)) (after (pop_ready s))
    pub ready :
        (k : String)
        → lookup k (after (pop_ready s)).vk_state.ready_ec2
          ≡ (if str_eq key k then none else lookup k s.vk_state.ready_ec2)
    pub provisioning : (after (pop_ready s)).vk_state.provisioning_ec2 ≡ s.vk_state.provisioning_ec2
    pub unhealthy : (after (pop_ready s)).vk_state.unhealthy_ec2 ≡ s.vk_state.unhealthy_ec2
    pub allocated : (after (pop_ready s)).vk_state.allocated_ec2 ≡ s.vk_state.allocated_ec2

  -- With a ready instance in the state, GetWarmPoolInstanceIfExist returns the id and the address of
  -- one of the ready ones, whichever the range over the map yields. That one is not ready any more, so
  -- that no other pod gets it from this state, and no other map changes.
  pub pop_ready-Allocated :
      (fair : IsFair env) (s : Process W)
      → IsTable s.vk_state.ready_ec2
      → 0 < length s.vk_state.ready_ec2
      → Allocated s
  unfolding pop_ready
  pop_ready-Allocated fair s table some_ready =
      go (pop-Popped fair s.vk_state.ready_ec2 s some_ready)
    where
      go : Popped fair s.vk_state.ready_ec2 s → Allocated s
      go p = record {
        key = p.key;
        info = p.info;
        found = p.found;
        result = ground (arith, p.result);
        ready = λ k. ground (arith, p.result, lookup-remove p.key k s.vk_state.ready_ec2 table);
        provisioning = ground (arith, p.result);
        unhealthy = ground (arith, p.result);
        allocated = ground (arith, p.result);
      }

  -- With the choices that Go documents, taking an instance never panics.
  pub pop_ready-returns :
      (fair : IsFair env) (s : Process W)
      → (r : Option (String × String)) × (t : Process W) × (pop_ready s ≡ done r t)
  unfolding pop_ready
  pop_ready-returns fair s = elim (Bool-cases (ltb 0 (length s.vk_state.ready_ec2))) [
    | inl some_ready ↦
        let p = pop-Popped fair s.vk_state.ready_ec2 s (ground (arith, some_ready)) in
        (
          some (p.info.instance_id, p.info.private_ip),
          set_ready_ec2 (remove p.key s.vk_state.ready_ec2) (record s { world = p.world }),
          ground (arith, some_ready, p.result),
        )
    | inr none_ready ↦ (none, s, ground (arith, none_ready))
  ]
