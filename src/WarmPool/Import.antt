-- ===== src/WarmPool/Import.antt =====
-- The state that is read back from EC2: an instance that is ready in it stays so.
use aws_virtual_kubelet.Base.{
  ◌≡◌, String, Bool, true, false, List, [], ◌∷◌, Option, none, some, lookup, lookup-insert, arith,
}
use aws_virtual_kubelet.Cloud.{Env, Tag, Instance, Result, ok, err}
use aws_virtual_kubelet.Process.{
  Process, Outcome, Go, done, crash, after, ◌>>=◌, pure, deref, modify,
}
use aws_virtual_kubelet.Process.Frame.{Returns, >>=-Returns}
use aws_virtual_kubelet.WarmPool.State.{Ec2Info, State}
use aws_virtual_kubelet.WarmPool.Tags.{set_ready, update_ec2_tags}
use aws_virtual_kubelet.WarmPool.Launch.{empty_pod}
use aws_virtual_kubelet.WarmPool.Refresh.{
  Slot, enter, put, info_of, import_tag, import_tags, import_instances, import_reservations,
}
use aws_virtual_kubelet.WarmPool.Disjoint.{update_ec2_tags-vk_state}

-- The state knows the instance as ready.
abbrev pub is_ready_in : String → State → Bool
is_ready_in id s = elim (lookup id s.ready_ec2) [ none ↦ false | some _ ↦ true ]

module _ (id : String) where
  put-ready :
      (slot : Slot) (i : String) (info : Ec2Info) (s : State)
      → is_ready_in id s ≡ true
      → is_ready_in id (put slot i info s) ≡ true
  put-ready Slot.ready i info s h = ground (arith, lookup-insert i id info s.ready_ec2)
  put-ready Slot.provisioning i info s h = h
  put-ready Slot.unhealthy i info s h = h
  put-ready Slot.allocated i info s h = h

module _ {W : Type 0} ⦃env : Env W⦄ (id : String) where
  -- The state of the process knows it as ready.
  abbrev pub IsReady : Process W → Type 0
  IsReady s = is_ready_in id s.vk_state ≡ true

  enter-IsReady :
      (slot : Slot) (i : Instance) (s : Process W) → IsReady s → Returns IsReady (enter slot i s)
  enter-IsReady slot i s h = go i.private_ip_address
    where
      go :
          (o : Option String)
          → Returns IsReady (
              (do
                ip ← deref o
                modify λ t. record t {
                  vk_state = put slot i.instance_id (info_of i.instance_id ip) t.vk_state;
                })
                s)
      go none = tt
      go (some ip) = put-ready id slot i.instance_id (info_of i.instance_id ip) s.vk_state h

  tagged-IsReady :
      (i : Instance) (s : Process W)
      → IsReady s
      → Returns {A = Unit {0}} IsReady (
          (do
            r ← update_ec2_tags i.instance_id set_ready empty_pod
            elim r [ err _ ↦ pure tt | ok _ ↦ enter Slot.ready i ])
            s)
  tagged-IsReady i s h =
      go (update_ec2_tags i.instance_id set_ready empty_pod s)
        (rw (update_ec2_tags-vk_state id i.instance_id set_ready empty_pod s) h)
    where
      go :
          (o : Outcome W (Result (Unit {0})))
          → IsReady (after o)
          → Returns {A = Unit {0}} IsReady (elim o [
            | done r t ↦
                (elim r as (λ _. Go W (Unit {0})) [ err _ ↦ pure tt | ok _ ↦ enter Slot.ready i ]) t
            | crash e t ↦ crash e t
          ])
      go (done (ok _) t) k = enter-IsReady Slot.ready i t k
      go (done (err _) t) k = k
      go (crash e t) k = tt

  pub import_tag-IsReady :
      (i : Instance) (t : Tag) (s : Process W) → IsReady s → Returns IsReady (import_tag i t s)
  unfolding import_tag
  import_tag-IsReady i t s h = ground (
    arith,
    tagged-IsReady i s h,
    enter-IsReady Slot.ready i s h,
    enter-IsReady Slot.provisioning i s h,
    enter-IsReady Slot.unhealthy i s h,
    enter-IsReady Slot.allocated i s h,
  )

  pub import_tags-IsReady :
      (i : Instance) (ts : List Tag) (s : Process W)
      → IsReady s
      → Returns IsReady (import_tags i ts s)
  unfolding import_tags
  import_tags-IsReady i [] s h = h
  import_tags-IsReady i (t ∷ ts) s h =
      >>=-Returns IsReady IsReady (import_tag i t) (λ _. import_tags i ts) s
        (import_tag-IsReady i t s h) (λ _ u. import_tags-IsReady i ts u)

  pub import_instances-IsReady :
      (is : List Instance) (s : Process W) → IsReady s → Returns IsReady (import_instances is s)
  unfolding import_instances
  import_instances-IsReady [] s h = h
  import_instances-IsReady (i ∷ is) s h =
      >>=-Returns IsReady IsReady (import_tags i i.tags) (λ _. import_instances is) s
        (import_tags-IsReady i i.tags s h) (λ _ u. import_instances-IsReady is u)

  pub import_reservations-IsReady :
      (rs : List (List Instance)) (s : Process W)
      → IsReady s
      → Returns IsReady (import_reservations rs s)
  unfolding import_reservations
  import_reservations-IsReady [] s h = h
  import_reservations-IsReady (r ∷ rs) s h =
      >>=-Returns IsReady IsReady (import_instances r) (λ _. import_reservations rs) s
        (import_instances-IsReady r s h) (λ _ u. import_reservations-IsReady rs u)
