-- ===== src/WarmPool/Disjoint.antt =====
-- The state that is read back from EC2: in how many of its maps an instance stands.
use aws_virtual_kubelet.Base.{
  ℕ, ◌+◌, ◌≤◌, ◌≡◌, String, str_eq, List, [], ◌∷◌, Option, none, some, Table, lookup, lookup-insert,
  arith, refl, if◌then◌else◌,
}
use aws_virtual_kubelet.Cloud.{
  Env, Tag, Instance, DescribeInstancesInput, DescribeInstancesOutput, Result, ok, err,
}
use aws_virtual_kubelet.Process.{Process, Outcome, Go, done, crash, after, ◌>>=◌, ◌>>◌, pure}
use aws_virtual_kubelet.Kube.{Pod}
use aws_virtual_kubelet.WarmPool.Launch.{empty_pod}
use aws_virtual_kubelet.WarmPool.State.{Ec2Info, State, empty_state}
use aws_virtual_kubelet.WarmPool.Tags.{warmpool_status, set_ready, update_ec2_tags}
use aws_virtual_kubelet.WarmPool.Refresh.{
  Slot, enter, put, import_tag, import_tags, import_instances, import_reservations, import_page,
  reset_state, check_ec2_tags_for_state, refresh_warm_pool_from_ec2, pool_filters, all_instances,
}
use aws_virtual_kubelet.WarmPool.Pages.{import_pages-first}

abbrev pub known : String → Table Ec2Info → ℕ
known id m = elim (lookup id m) [ none ↦ 0 | some _ ↦ 1 ]

-- The maps that know an instance.
unfoldable pub maps_with : String → State → ℕ
maps_with id s =
    known id s.ready_ec2
    + known id s.provisioning_ec2
    + known id s.unhealthy_ec2
    + known id s.allocated_ec2

-- The status tags of an instance, in a list of tags and in what EC2 describes.
abbrev pub status_tags : List Tag → ℕ
status_tags [] = 0
status_tags (t ∷ ts) = (if str_eq t.key warmpool_status then 1 else 0) + status_tags ts

abbrev pub described : String → List Instance → ℕ
described id [] = 0
described id (i ∷ is) =
    (if str_eq i.instance_id id then status_tags i.tags else 0) + described id is

abbrev pub described_in : String → List (List Instance) → ℕ
described_in id [] = 0
described_in id (r ∷ rs) = described id r + described_in id rs

module _ (id : String) where
  put-maps_with :
      (slot : Slot) (i : String) (info : Ec2Info) (s : State)
      → maps_with id (put slot i info s) ≤ maps_with id s + (if str_eq i id then 1 else 0)
  unfolding maps_with
  put-maps_with Slot.ready i info s = ground (arith, lookup-insert i id info s.ready_ec2)
  put-maps_with Slot.provisioning i info s =
      ground (arith, lookup-insert i id info s.provisioning_ec2)
  put-maps_with Slot.unhealthy i info s = ground (arith, lookup-insert i id info s.unhealthy_ec2)
  put-maps_with Slot.allocated i info s = ground (arith, lookup-insert i id info s.allocated_ec2)

  empty-maps_with : maps_with id empty_state ≡ 0
  unfolding maps_with lookup
  empty-maps_with = refl

  -- What a tag of an instance may add.
  abbrev tag_share : Instance → Tag → ℕ
  tag_share i t =
      if str_eq i.instance_id id then (if str_eq t.key warmpool_status then 1 else 0) else 0

  abbrev tags_share : Instance → List Tag → ℕ
  tags_share i ts = if str_eq i.instance_id id then status_tags ts else 0

-- The same in an answer of DescribeInstances.
abbrev pub answered : String → Result DescribeInstancesOutput → ℕ
answered id (err _) = 0
answered id (ok output) = described_in id output.reservations

-- What RefreshWarmPoolFromEC2 asks EC2 for.
abbrev pub pool_input : {W : Type 0} → Process W → DescribeInstancesInput
pool_input s = record all_instances { filters = pool_filters s.node_name s.config.cluster_name }

module _ {W : Type 0} ⦃env : Env W⦄ (id : String) where
  -- At most `n` more maps know the instance in `t` than in `s`.
  abbrev Within : ℕ → Process W → Process W → Type 0
  Within n s t = maps_with id t.vk_state ≤ maps_with id s.vk_state + n

  >>=-Within :
      {A B : Type 0} (n k : ℕ) (m : Go W A) (f : A → Go W B) (s : Process W)
      → Within n s (after (m s))
      → ((a : A) (t : Process W) → Within k t (after (f a t)))
      → Within (n + k) s (after ((m >>= f) s))
  >>=-Within {A} {B} n k m f s h rest = go (m s) h
    where
      go :
          (o : Outcome W A)
          → Within n s (after o)
          → Within (n + k) s (after {A = B} (elim o [ done a t ↦ f a t | crash e t ↦ crash e t ]))
      go (done a t) h = omega (arith, rest a t)
      go (crash e t) h = omega arith

  pub update_ec2_tags-vk_state :
      (i reason : String) (pod : Pod) (s : Process W)
      → (after (update_ec2_tags i reason pod s)).vk_state ≡ s.vk_state
  unfolding update_ec2_tags
  update_ec2_tags-vk_state i reason pod s = ground arith

  enter-Within :
      (slot : Slot) (i : Instance) (s : Process W)
      → Within (if str_eq i.instance_id id then 1 else 0) s (after (enter slot i s))
  enter-Within slot i s = grind (arith, put-maps_with id slot i.instance_id)

  enter_ready :
      (i : Instance) (s : Process W)
      → let o : Outcome W (Unit {0}) =
          (do
            r ← update_ec2_tags i.instance_id set_ready empty_pod
            elim r [ err _ ↦ pure tt | ok _ ↦ enter Slot.ready i ])
            s in
        Within (if str_eq i.instance_id id then 1 else 0) s (after o)
  enter_ready i s = ground (
    arith,
    update_ec2_tags-vk_state i.instance_id set_ready empty_pod s,
    enter-Within Slot.ready i (after (update_ec2_tags i.instance_id set_ready empty_pod s)),
  )

  import_tag-Within :
      (i : Instance) (t : Tag) (s : Process W)
      → Within (tag_share id i t) s (after (import_tag i t s))
  unfolding import_tag
  import_tag-Within i t s = ground (
    arith,
    enter_ready i s,
    enter-Within Slot.ready i s,
    enter-Within Slot.provisioning i s,
    enter-Within Slot.unhealthy i s,
    enter-Within Slot.allocated i s,
  )

  import_tags-Within :
      (i : Instance) (ts : List Tag) (s : Process W)
      → Within (tags_share id i ts) s (after (import_tags i ts s))
  unfolding import_tags
  import_tags-Within i [] s = ground arith
  import_tags-Within i (t ∷ ts) s =
      let both =
        >>=-Within (tag_share id i t) (tags_share id i ts) (import_tag i t) (λ _. import_tags i ts)
          s (import_tag-Within i t s) (λ _ u. import_tags-Within i ts u) in
      ground arith

  import_instances-Within :
      (is : List Instance) (s : Process W)
      → Within (described id is) s (after (import_instances is s))
  unfolding import_instances
  import_instances-Within [] s = omega arith
  import_instances-Within (i ∷ is) s =
      >>=-Within (tags_share id i i.tags) (described id is) (import_tags i i.tags)
        (λ _. import_instances is) s (import_tags-Within i i.tags s)
        (λ _ u. import_instances-Within is u)

  import_reservations-Within :
      (rs : List (List Instance)) (s : Process W)
      → Within (described_in id rs) s (after (import_reservations rs s))
  unfolding import_reservations
  import_reservations-Within [] s = omega arith
  import_reservations-Within (r ∷ rs) s =
      >>=-Within (described id r) (described_in id rs) (import_instances r)
        (λ _. import_reservations rs) s (import_instances-Within r s)
        (λ _ u. import_reservations-Within rs u)

  import_page-Within :
      (input : DescribeInstancesInput) (s : Process W)
      → Within
          (answered id (env.describe_instances input s.world).0)
          s
          (after (import_page input s))
  unfolding import_page
  import_page-Within input s = go (env.describe_instances input s.world).0
    where
      u : Process W
      u = record s { world = (env.describe_instances input s.world).1 }

      go :
          (r : Result DescribeInstancesOutput)
          → Within (answered id r) s (
              after {A = Option (Option String)} (
                elim r as (λ _. Go W (Option (Option String))) [
                  | err _ ↦ pure none
                  | ok output ↦ do
                    import_reservations output.reservations
                    pure (some output.next_token)
                ]
                  u))
      go (err e) = omega arith
      go (ok output) = ground (arith, import_reservations-Within output.reservations u)

  -- After a refresh an instance stands in at most as many of the four maps as it has status tags in
  -- the first page that EC2 describes, and in none if DescribeInstances fails: the maps know no
  -- instance twice if none of them is tagged or described twice.
  pub refresh_warm_pool_from_ec2-maps_with :
      (s : Process W)
      → maps_with id (after (refresh_warm_pool_from_ec2 s)).vk_state
        ≤ answered id (env.describe_instances (pool_input s) s.world).0
  unfolding refresh_warm_pool_from_ec2 check_ec2_tags_for_state
  refresh_warm_pool_from_ec2-maps_with s =
      rw (import_pages-first 0 (pool_input s) (reset_state s)) (
        let w =
          >>=-Within (answered id (env.describe_instances (pool_input s) s.world).0) 0
            (import_page (pool_input s)) (λ _. pure {A = Unit {0}} tt) (reset_state s)
            (import_page-Within (pool_input s) (reset_state s)) (λ _ t. omega arith) in
        omega (arith, empty-maps_with id))
