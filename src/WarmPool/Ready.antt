-- ===== src/WarmPool/Ready.antt =====
-- The state that is read back from EC2: which instances are ready in it.
use aws_virtual_kubelet.Base.{
  ◌≡◌, ◌∙◌, sym, inl, inr, Bool-cases, String, str_eq, Bool, true, false, ◌&&◌, ◌||◌, List, [], ◌∷◌,
  Option, none, some, lookup-insert, arith, eq_iff,
}
use aws_virtual_kubelet.Cloud.{
  Env, Tag, Instance, DescribeInstancesInput, DescribeInstancesOutput, ok,
}
use aws_virtual_kubelet.Process.{Process, Outcome, done, crash, ◌>>=◌, pure, deref, modify}
use aws_virtual_kubelet.Process.Frame.{Returns, Returns-done, >>=-Returns}
use aws_virtual_kubelet.WarmPool.State.{Ec2Info, State}
use aws_virtual_kubelet.WarmPool.Tags.{warmpool_status, operation_ready, operation_pending_warmpool}
use aws_virtual_kubelet.WarmPool.Refresh.{
  Slot, enter, put, info_of, import_tag, import_tags, import_instances, import_reservations,
  import_page, reset_state, check_ec2_tags_for_state, refresh_warm_pool_from_ec2,
}
use aws_virtual_kubelet.WarmPool.Pages.{import_pages-first}
use aws_virtual_kubelet.WarmPool.Disjoint.{pool_input}
use aws_virtual_kubelet.WarmPool.Import.{
  is_ready_in, IsReady, import_tags-IsReady, import_instances-IsReady, import_reservations-IsReady,
}

-- An instance with the id is described with the tag of a ready one.
abbrev pub has_ready_tag : List Tag → Bool
has_ready_tag [] = false
has_ready_tag (t ∷ ts) =
    (str_eq t.key warmpool_status && str_eq t.value operation_ready) || has_ready_tag ts

abbrev pub described_ready : String → List Instance → Bool
described_ready id [] = false
described_ready id (i ∷ is) =
    (str_eq i.instance_id id && has_ready_tag i.tags) || described_ready id is

abbrev pub described_ready_in : String → List (List Instance) → Bool
described_ready_in id [] = false
described_ready_in id (r ∷ rs) = described_ready id r || described_ready_in id rs

module _ (id : String) where
  put-becomes_ready :
      (i : String) (info : Ec2Info) (s : State)
      → str_eq i id ≡ true
      → is_ready_in id (put Slot.ready i info s) ≡ true
  put-becomes_ready i info s h = ground (arith, lookup-insert i id info s.ready_ec2)

module _ {W : Type 0} ⦃env : Env W⦄ (id : String) where
  abbrev Knows : Process W → Type 0
  Knows = IsReady id

  enter-becomes_IsReady :
      (i : Instance) (s : Process W)
      → str_eq i.instance_id id ≡ true
      → Returns Knows (enter Slot.ready i s)
  enter-becomes_IsReady i s h = go i.private_ip_address
    where
      go :
          (o : Option String)
          → Returns Knows (
              (do
                ip ← deref o
                modify λ t. record t {
                  vk_state = put Slot.ready i.instance_id (info_of i.instance_id ip) t.vk_state;
                })
                s)
      go none = tt
      go (some ip) = put-becomes_ready id i.instance_id (info_of i.instance_id ip) s.vk_state h

  -- A call that returns, whatever it leaves.
  abbrev Any : Process W → Type 0
  Any s = Unit {0}

  any : {A : Type 0} (o : Outcome W A) → Returns Any o
  any (done a t) = tt
  any (crash e t) = tt

  import_tag-becomes_IsReady :
      (i : Instance) (t : Tag) (s : Process W)
      → str_eq i.instance_id id ≡ true
      → (str_eq t.key warmpool_status && str_eq t.value operation_ready) ≡ true
      → Returns Knows (import_tag i t s)
  unfolding import_tag
  import_tag-becomes_IsReady i t s named tagged = ground (
    arith,
    enter-becomes_IsReady i s named,
    eq_iff t.value operation_ready,
    eq_iff t.value operation_pending_warmpool,
    eq_iff operation_ready operation_pending_warmpool,
  )

  import_tags-becomes_IsReady :
      (i : Instance) (ts : List Tag) (s : Process W)
      → str_eq i.instance_id id ≡ true
      → has_ready_tag ts ≡ true
      → Returns Knows (import_tags i ts s)
  unfolding import_tags
  import_tags-becomes_IsReady i [] s named tagged = absurd (cc)
  import_tags-becomes_IsReady i (t ∷ ts) s named tagged =
      elim (Bool-cases (str_eq t.key warmpool_status && str_eq t.value operation_ready)) [
        | inl here ↦
            >>=-Returns Knows Knows (import_tag i t) (λ _. import_tags i ts) s
              (import_tag-becomes_IsReady i t s named here) (λ _ u. import_tags-IsReady id i ts u)
        | inr elsewhere ↦
            >>=-Returns Any Knows (import_tag i t) (λ _. import_tags i ts) s
              (any (import_tag i t s))
              (λ _ u _. import_tags-becomes_IsReady i ts u named (ground arith))
      ]

  import_instances-becomes_IsReady :
      (is : List Instance) (s : Process W)
      → described_ready id is ≡ true
      → Returns Knows (import_instances is s)
  unfolding import_instances
  import_instances-becomes_IsReady [] s h = absurd (cc)
  import_instances-becomes_IsReady (i ∷ is) s h =
      elim (Bool-cases (str_eq i.instance_id id && has_ready_tag i.tags)) [
        | inl here ↦
            >>=-Returns Knows Knows (import_tags i i.tags) (λ _. import_instances is) s
              (import_tags-becomes_IsReady i i.tags s (ground arith) (ground arith))
              (λ _ u. import_instances-IsReady id is u)
        | inr elsewhere ↦
            >>=-Returns Any Knows (import_tags i i.tags) (λ _. import_instances is) s
              (any (import_tags i i.tags s))
              (λ _ u _. import_instances-becomes_IsReady is u (ground arith))
      ]

  import_reservations-becomes_IsReady :
      (rs : List (List Instance)) (s : Process W)
      → described_ready_in id rs ≡ true
      → Returns Knows (import_reservations rs s)
  unfolding import_reservations
  import_reservations-becomes_IsReady [] s h = absurd (cc)
  import_reservations-becomes_IsReady (r ∷ rs) s h = elim (Bool-cases (described_ready id r)) [
    | inl here ↦
        >>=-Returns Knows Knows (import_instances r) (λ _. import_reservations rs) s
          (import_instances-becomes_IsReady r s here) (λ _ u. import_reservations-IsReady id rs u)
    | inr elsewhere ↦
        >>=-Returns Any Knows (import_instances r) (λ _. import_reservations rs) s
          (any (import_instances r s))
          (λ _ u _. import_reservations-becomes_IsReady rs u (ground arith))
  ]

  import_page-becomes_IsReady :
      (input : DescribeInstancesInput) (s : Process W) (output : DescribeInstancesOutput)
      → (env.describe_instances input s.world).0 ≡ ok output
      → described_ready_in id output.reservations ≡ true
      → Returns Knows (import_page input s)
  unfolding import_page
  import_page-becomes_IsReady input s output answer h =
      let u : Process W = record s { world = (env.describe_instances input s.world).1 } in
      rw answer (
        >>=-Returns Knows Knows (import_reservations output.reservations)
          (λ _. pure (some output.next_token)) u
          (import_reservations-becomes_IsReady output.reservations u h) (λ _ t k. k))

  -- A refresh that returns knows every instance as ready that the first page of DescribeInstances
  -- describes with the tag of a ready one.
  pub refresh_warm_pool_from_ec2-ready :
      (s t : Process W) (output : DescribeInstancesOutput)
      → (env.describe_instances (pool_input s) s.world).0 ≡ ok output
      → described_ready_in id output.reservations ≡ true
      → refresh_warm_pool_from_ec2 s ≡ done tt t
      → is_ready_in id t.vk_state ≡ true
  unfolding refresh_warm_pool_from_ec2 check_ec2_tags_for_state
  refresh_warm_pool_from_ec2-ready s t output answer h e =
      Returns-done Knows
        (>>=-Returns Knows Knows (import_page (pool_input s)) (λ _. pure tt) (reset_state s)
          (import_page-becomes_IsReady (pool_input s) (reset_state s) output answer h) (λ _ u k. k))
        (sym (import_pages-first 0 (pool_input s) (reset_state s)) ∙ e)
