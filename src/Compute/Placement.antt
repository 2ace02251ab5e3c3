-- ===== src/Compute/Placement.antt =====
-- GetCompute and DeleteCompute: which instance a pod has afterwards, and which one it loses.
use aws_virtual_kubelet.Base.{
  ℕ, Table, ◌≡◌, subst, String, Bool, true, false, Option, none, some, insert, lookup-insert, arith,
  ==_iff, refl,
}
use text.Mathlib.TextPositions.{eq_refl}
use aws_virtual_kubelet.Kube.{Pod, annotation, annotate, look_up_text}
use aws_virtual_kubelet.Cloud.{Env, Result, ok, err}
use aws_virtual_kubelet.Process.{Process, Go, Outcome, done, crash, after, ◌>>=◌, pure}
use aws_virtual_kubelet.Awsutils.Instances.{
  create_ec2, terminate_ec2, get_private_ip, write_annotation, read_pod,
}
use aws_virtual_kubelet.WarmPool.Tags.{update_ec2_tags, set_pod}
use aws_virtual_kubelet.WarmPool.Refresh.{get_warm_pool_instance_if_exist}
use aws_virtual_kubelet.Compute.{
  instance_id_key, pod_has_instance, create_compute, get_warm_compute, choose_compute, get_compute,
  delete_compute, write_pod_ip,
}

-- What holds of a result that is no error.
abbrev Yields : {W A : Type 0} → (A → Process W → Type 0) → Outcome W (Result A) → Type 0
Yields P (done (ok a) t) = P a t
Yields P (done (err _) t) = Unit
Yields P (crash _ _) = Unit

look_up_text-insert :
    (key value : String) (m : Table String) → look_up_text key (some (insert key value m)) ≡ value
look_up_text-insert key value m = ground (arith, lookup-insert key key value m, eq_refl key)

annotation-annotate :
    (key value : String) (p p' : Pod) → annotate key value p ≡ some p' → annotation key p' ≡ value
unfolding annotate annotation
annotation-annotate key value p p' e = grind (arith, look_up_text-insert key value)

module _ {W : Type 0} ⦃env : Env W⦄ (pod : ℕ) where
  -- The instance that the pod's annotation names.
  abbrev On : String → Process W → Type 0
  On id t = annotation instance_id_key (t.pods pod) ≡ id

  abbrev pub Placed : String × String → Process W → Type 0
  Placed (id, ip) t = On id t × ((t.pods pod).status.pod_ip ≡ ip)

  get_private_ip-pods : (id : String) (s : Process W) → (after (get_private_ip id s)).pods ≡ s.pods
  unfolding get_private_ip
  get_private_ip-pods id s = ground arith

  update_ec2_tags-pods :
      (id reason : String) (p : Pod) (s : Process W)
      → (after (update_ec2_tags id reason p s)).pods ≡ s.pods
  unfolding update_ec2_tags
  update_ec2_tags-pods id reason p s = ground arith

  pod_has_instance-pods : (s : Process W) → (after (pod_has_instance pod s)).pods ≡ s.pods
  unfolding pod_has_instance
  pod_has_instance-pods s = ground arith

  abbrev OnAfter : String → Outcome W (Unit {0}) → Type 0
  OnAfter id (done _ t) = On id t
  OnAfter id (crash _ _) = Unit

  write_annotation-On :
      (id : String) (s : Process W) → OnAfter id (write_annotation pod instance_id_key id s)
  write_annotation-On id s =
      grind (arith, annotation-annotate instance_id_key id (s.pods pod), ==_iff pod pod)

  create_ec2-On : (user_data : String) (s : Process W) → Yields On (create_ec2 pod user_data s)
  unfolding create_ec2
  create_ec2-On user_data s = grind (arith, write_annotation-On)

  write_pod_ip-Placed :
      (id ip : String) (s : Process W) → On id s → Placed (id, ip) (after (write_pod_ip pod ip s))
  unfolding annotation
  write_pod_ip-Placed id ip s on = ground (arith, ==_iff pod pod)

  -- what follows the pod's entry in the instance's tags
  abbrev tag_set : String → String → Go W (Result (String × String))
  tag_set id ip = do
    p ← read_pod pod
    tagged ← update_ec2_tags id set_pod p
    elim tagged [ err e ↦ pure (err e) | ok _ ↦ pure (ok (id, ip)) ]

  tag_set-Placed :
      (id ip : String) (s : Process W) → Placed (id, ip) s → Yields Placed (tag_set id ip s)
  tag_set-Placed id ip s placed = ground (arith, update_ec2_tags-pods id set_pod (s.pods pod) s)

  assigned-Placed :
      (id ip : String) (s : Process W) (o : Outcome W (Unit {0}))
      → OnAfter id o
      → Yields Placed (elim o [
        | done _ t ↦ tag_set id ip (after (write_pod_ip pod ip t))
        | crash e t ↦ crash e t
      ])
  assigned-Placed id ip s (done _ t) on =
      tag_set-Placed id ip (after (write_pod_ip pod ip t)) (write_pod_ip-Placed id ip t on)
  assigned-Placed id ip s (crash e t) on = tt

  get_warm_compute-Placed : (s : Process W) → Yields Placed (get_warm_compute pod s)
  unfolding get_warm_compute
  get_warm_compute-Placed s = go (get_warm_pool_instance_if_exist s)
    where
      go :
          (o : Outcome W (Option (String × String)))
          → Yields Placed (elim o as (λ _. Outcome W (Result (String × String))) [
            | done none t ↦ done (err "no instance in 'Ready' state") t
            | done (some (id, ip)) t ↦ elim (write_annotation pod instance_id_key id t) [
              | done _ u ↦ tag_set id ip (after (write_pod_ip pod ip u))
              | crash e u ↦ crash e u
            ]
            | crash e t ↦ crash e t
          ])
      go (done none t) = tt
      go (done (some (id, ip)) t) =
          assigned-Placed id ip t (write_annotation pod instance_id_key id t)
            (write_annotation-On id t)
      go (crash e t) = tt

  create_compute-Placed : (s : Process W) → Yields Placed (create_compute pod s)
  unfolding create_compute
  create_compute-Placed s = grind (arith, create_ec2-On, get_private_ip-pods, write_pod_ip-Placed)

  choose_compute-Placed :
      (has_instance : Bool) (s : Process W) → Yields Placed (choose_compute pod has_instance s)
  unfolding choose_compute
  choose_compute-Placed true s = (refl, refl)
  choose_compute-Placed false s = ground (arith, get_warm_compute-Placed s, create_compute-Placed s)

  chosen-Placed : (s : Process W) → Yields Placed (get_compute pod s)
  unfolding get_compute
  chosen-Placed s = go (pod_has_instance pod s)
    where
      go :
          (o : Outcome W Bool)
          → Yields Placed (elim o [ done b t ↦ choose_compute pod b t | crash e t ↦ crash e t ])
      go (done b t) = choose_compute-Placed b t
      go (crash e t) = tt

  -- A GetCompute that returns no error has noted the instance that it returns in the pod's
  -- annotation, and its address as the pod's, wherever the instance is from: a running one of the
  -- pod, one of the warm pool or a new one. A DeleteCompute of the pod then terminates that instance.
  pub get_compute-Placed :
      (s t : Process W) (id ip : String)
      → get_compute pod s ≡ done (ok (id, ip)) t
      → (annotation instance_id_key (t.pods pod) ≡ id)
        × ((t.pods pod).status.pod_ip ≡ ip)
        × (delete_compute pod t
            ≡ (terminate_ec2 id >>= elim [ err e ↦ pure (err e) | ok _ ↦ pure (ok tt) ]) t)
  unfolding delete_compute
  get_compute-Placed s t id ip e =
      let p : Placed (id, ip) t = subst (Yields Placed) e (chosen-Placed s) in
      (p.0, p.1, rw p.0 refl)
