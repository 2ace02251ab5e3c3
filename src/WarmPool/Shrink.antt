-- ===== src/WarmPool/Shrink.antt =====
-- CheckWarmPoolDepth above the desired count: what it takes out of the pool.
use aws_virtual_kubelet.Base.{
  subst, pos, int_ltb, rounds, to_nat, int_ltb-to_nat, minus-rounds, length-append, ℕ, zero, suc,
  ◌+◌, ◌-◌, ◌<◌, ◌≡◌, refl, ap, String, List, [], ◌∷◌, ◌++◌, some, Table, length, lookup, remove,
  length-remove, get_elem?-keys, get_elem?, keys, ltb, Bool-cases, inl, inr, true, false, arith,
  append_assoc, append-nil, ◌∙◌,
}
use aws_virtual_kubelet.Config.{WarmPoolConfig}
use aws_virtual_kubelet.Cloud.{Env, IsFair}
use aws_virtual_kubelet.Process
use aws_virtual_kubelet.Process.{Process, done, ◌>>=◌}
use aws_virtual_kubelet.WarmPool.State.{Ec2Info, cumulative_warm_ec2}
use aws_virtual_kubelet.WarmPool.Depth.{
  pop, take_excess, take_all_excess, terminate_excess, set_ready_ec2, set_provisioning_ec2,
  check_warm_pool_depth,
}

module _ {W : Type 0} ⦃env : Env W⦄ (fair : IsFair env) where
  -- The result of taking one entry out of a map.
  pub record Popped (m : Table Ec2Info) (s : Process W) : Type 0 where
    pub key : String
    pub info : Ec2Info
    pub world : W
    pub moved : world ≡ (env.first_key (length m) s.world).1
    pub found : lookup key m ≡ some info
    pub result : pop m s ≡ done (info, remove key m) (record s { world = world })

  -- `pop` takes an entry of the map out of it, whichever the range yields.
  pub pop-Popped : (m : Table Ec2Info) (s : Process W) → 0 < length m → Popped m s
  unfolding pop
  pop-Popped m s h = go (get_elem?-keys m choice (fair.first_key-lt (length m) s.world h))
    where
      choice : ℕ
      choice = (env.first_key (length m) s.world).0

      go :
          (k : String) × (info : Ec2Info) × (get_elem? (keys m) choice ≡ some k)
            × (lookup k m ≡ some info)
          → Popped m s
      go (k, info, at, found) = record {
        key = k;
        info = info;
        world = (env.first_key (length m) s.world).1;
        moved = refl;
        found = found;
        result = ground (arith, at, found);
      }

  -- Entries taken one after the other, with their ids in this order: any of the ready ones while
  -- there are some, then any of the provisioning ones. Between them only the order of a range is
  -- chosen. `ready`, `provisioning` and `last` are what remains.
  pub data Picked (ready provisioning : Table Ec2Info) (last : W)
      : Table Ec2Info → Table Ec2Info → W → List String → Type 0 where
    none_picked : Picked ready provisioning last ready provisioning last []
    ready_picked :
        {m n : Table Ec2Info} {w : W} {ids : List String} (key : String) (info : Ec2Info)
        → lookup key m ≡ some info
        → Picked ready provisioning last (remove key m) n (env.first_key (length m) w).1 ids
        → Picked ready provisioning last m n w (info.instance_id ∷ ids)
    provisioning_picked :
        {m n : Table Ec2Info} {w : W} {ids : List String} (key : String) (info : Ec2Info)
        → length m ≡ 0
        → lookup key n ≡ some info
        → Picked ready provisioning last m (remove key n) (env.first_key (length n) w).1 ids
        → Picked ready provisioning last m n w (info.instance_id ∷ ids)

  abbrev PickedBetween : Process W → Process W → List String → Type 0
  PickedBetween s t ids =
      Picked t.vk_state.ready_ec2 t.vk_state.provisioning_ec2 t.world s.vk_state.ready_ec2
        s.vk_state.provisioning_ec2 s.world ids

  -- How many ready and provisioning instances there are after `n` rounds.
  abbrev Left : ℕ → Process W → Process W → Type 0
  Left n s t =
      (length t.vk_state.ready_ec2 ≡ length s.vk_state.ready_ec2 - n)
      × (length t.vk_state.provisioning_ec2
          ≡ length s.vk_state.provisioning_ec2 - (n - length s.vk_state.ready_ec2))

  -- One round, before any others.
  record Taken (s : Process W) : Type 0 where
    ids : List String
    after : Process W
    result : take_excess s ≡ done ids after
    count : length ids + (cumulative_warm_ec2 s.vk_state - 1) ≡ cumulative_warm_ec2 s.vk_state
    left : Left 1 s after
    picked :
        (t : Process W) (more : List String)
        → PickedBetween after t more
        → PickedBetween s t (ids ++ more)

  take_excess-Taken : (s : Process W) → Taken s
  unfolding take_excess
  take_excess-Taken s = elim (Bool-cases (ltb 0 (length s.vk_state.ready_ec2))) [
    | inl some_ready ↦ from_ready some_ready (pop-Popped s.vk_state.ready_ec2 s (ground arith))
    | inr none_ready ↦ elim (Bool-cases (ltb 0 (length s.vk_state.provisioning_ec2))) [
      | inl some_left ↦
          from_provisioning none_ready some_left
            (pop-Popped s.vk_state.provisioning_ec2 s (ground arith))
      | inr none_left ↦ record {
        ids = [];
        after = s;
        result = ground arith;
        count = ground arith;
        left = ground arith;
        picked = λ t more h. h;
      }
    ]
  ]
    where
      from_ready :
          ltb 0 (length s.vk_state.ready_ec2) ≡ true → Popped s.vk_state.ready_ec2 s → Taken s
      from_ready some_ready p = record {
        ids = p.info.instance_id ∷ [];
        after = set_ready_ec2 (remove p.key s.vk_state.ready_ec2) (record s { world = p.world });
        result = ground (arith, p.result);
        count = ground arith;
        left = ground (arith, length-remove p.key p.info s.vk_state.ready_ec2 p.found);
        picked = λ t more h. ready_picked p.key p.info p.found (
            subst
              (λ (w : W).
                Picked t.vk_state.ready_ec2 t.vk_state.provisioning_ec2 t.world
                  (remove p.key s.vk_state.ready_ec2) s.vk_state.provisioning_ec2 w more)
              p.moved h);
      }

      from_provisioning :
          ltb 0 (length s.vk_state.ready_ec2) ≡ false
          → ltb 0 (length s.vk_state.provisioning_ec2) ≡ true
          → Popped s.vk_state.provisioning_ec2 s
          → Taken s
      from_provisioning none_ready some_left p = record {
        ids = p.info.instance_id ∷ [];
        after =
            set_provisioning_ec2 (remove p.key s.vk_state.provisioning_ec2)
              (record s { world = p.world });
        result = ground (arith, p.result);
        count = ground arith;
        left = ground (arith, length-remove p.key p.info s.vk_state.provisioning_ec2 p.found);
        picked = λ t more h. provisioning_picked p.key p.info (ground arith) p.found (
            subst
              (λ (w : W).
                Picked t.vk_state.ready_ec2 t.vk_state.provisioning_ec2 t.world s.vk_state.ready_ec2
                  (remove p.key s.vk_state.provisioning_ec2) w more)
              p.moved h);
      }

  record AllTaken (n : ℕ) (ids : List String) (s : Process W) : Type 0 where
    more : List String
    after : Process W
    result : take_all_excess n ids s ≡ done (ids ++ more) after
    count : length more + (cumulative_warm_ec2 s.vk_state - n) ≡ cumulative_warm_ec2 s.vk_state
    left : Left n s after
    picked : PickedBetween s after more

  take_all_excess-AllTaken : (n : ℕ) (ids : List String) (s : Process W) → AllTaken n ids s
  unfolding take_all_excess
  take_all_excess-AllTaken zero ids s = record {
    more = [];
    after = s;
    result = rw append-nil;
    count = omega arith;
    left = omega arith;
    picked = none_picked;
  }
  take_all_excess-AllTaken (suc n) ids s =
      let one = take_excess-Taken s in
      go one (take_all_excess-AllTaken n (ids ++ one.ids) one.after)
    where
      go : (one : Taken s) → AllTaken n (ids ++ one.ids) one.after → AllTaken (suc n) ids s
      go one rest = record {
        more = one.ids ++ rest.more;
        after = rest.after;
        result =
            rw (one.result, ◌>>=◌)
              (rest.result
                ∙ ap (λ (l : List String). done l rest.after) (append_assoc ids one.ids rest.more));
        count = omega (arith, one.count, rest.count, one.left, length-append one.ids rest.more);
        left = omega (arith, one.left, rest.left);
        picked = one.picked rest.after rest.more rest.picked;
      }

  -- What CheckWarmPoolDepth has done with a pool that is too deep: the instances that it counts are
  -- down to the wish (to none, if that is negative), ready ones went first. One call of
  -- TerminateInstances has got the ids of the instances that were taken out, and no others; before it
  -- the world has seen nothing but the orders of ranges, and nothing after it.
  pub record Shrunk (wpc : WarmPoolConfig) (s t : Process W) : Type 0 where
    pub depth : cumulative_warm_ec2 t.vk_state ≡ to_nat wpc.desired_count
    pub ready :
        length t.vk_state.ready_ec2
        ≡ length s.vk_state.ready_ec2 - (cumulative_warm_ec2 s.vk_state - to_nat wpc.desired_count)
    pub ids : List String
    pub count : length ids + to_nat wpc.desired_count ≡ cumulative_warm_ec2 s.vk_state
    pub before : W
    pub picked :
        Picked t.vk_state.ready_ec2 t.vk_state.provisioning_ec2 before s.vk_state.ready_ec2
          s.vk_state.provisioning_ec2 s.world ids
    pub terminated : t.world ≡ (env.terminate_instances ids before).1

  -- A pool deeper than the desired count, which may be negative, is brought down to it, or to none, by
  -- CheckWarmPoolDepth, which always returns, whichever instances the map iteration picks and whether
  -- EC2 terminates them or not. The ids of just the instances that it has taken out of the pool, ready
  -- ones first, go to TerminateInstances, in one call and no other.
  pub check_warm_pool_depth-Shrunk :
      (wpc : WarmPoolConfig) (s : Process W)
      → int_ltb wpc.desired_count (pos (cumulative_warm_ec2 s.vk_state)) ≡ true
      → (t : Process W) × (check_warm_pool_depth wpc s ≡ done tt t) × Shrunk wpc s t
  unfolding check_warm_pool_depth
  check_warm_pool_depth-Shrunk wpc s h = go (take_all_excess-AllTaken excess [] s)
    where
      excess : ℕ
      excess = rounds (pos (cumulative_warm_ec2 s.vk_state)) wpc.desired_count

      down : cumulative_warm_ec2 s.vk_state - excess ≡ to_nat wpc.desired_count
      down = minus-rounds (cumulative_warm_ec2 s.vk_state) wpc.desired_count h

      not_low : int_ltb (pos (cumulative_warm_ec2 s.vk_state)) wpc.desired_count ≡ false
      not_low =
          int_ltb-to_nat (cumulative_warm_ec2 s.vk_state) wpc.desired_count ∙ (ground (arith, down))

      go :
          AllTaken excess [] s
          → (t : Process W) × (check_warm_pool_depth wpc s ≡ done tt t) × Shrunk wpc s t
      go a = (
        Process.after (terminate_excess a.more a.after),
        ground (arith, not_low, h, a.result),
        record {
          depth = ground (arith, a.left, down);
          ready = ground (arith, a.left, down);
          ids = a.more;
          count = omega (arith, a.count, down);
          before = a.after.world;
          picked = ground (arith, a.picked);
          terminated = ground arith;
        },
      )
