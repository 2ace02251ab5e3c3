-- ===== src/WarmPool/Mutex/Overlap.antt =====
-- RefreshWarmPoolFromEC2, which replaces the mutex of `VKState`, called by several goroutines.
use aws_virtual_kubelet.Base.{ℕ, ◌≡◌, refl, ◌∙◌, false, ◌==◌, arith}
use aws_virtual_kubelet.Cloud.{Env}
use aws_virtual_kubelet.Process.{Process, done, get, update}
use aws_virtual_kubelet.WarmPool.Refresh.{
  check_ec2_tags_for_state, refresh_warm_pool_from_ec2, get_warm_pool_instance_if_exist,
}
use aws_virtual_kubelet.WarmPool.Mutex.{
  Program, lock, unlock, alone, System, acquire, renew, perform, Steps, start, later, IsFatal,
  unlock_of_unlocked,
}
use aws_virtual_kubelet.WarmPool.Mutex.Programs.{
  Result, body, refresh_program, get_program, locked_program, import_program,
}
use aws_virtual_kubelet.WarmPool.Mutex.Serialization.{idle, update-same, update-other}

other_comm : (i j : ℕ) → (j == i) ≡ false → (i == j) ≡ false
other_comm i j h = ground (arith, h)

module _ {W : Type 0} ⦃env : Env W⦄ where
  -- A GetWarmPoolInstanceIfExist with no other call beside it is the one that runs at once.
  pub alone-get_program : (s : Process W) → alone get_program s ≡ get_warm_pool_instance_if_exist s
  unfolding alone get_program body get_warm_pool_instance_if_exist refresh_warm_pool_from_ec2
      check_ec2_tags_for_state
  alone-get_program s = ground arith

  -- While a goroutine imports what EC2 has described, a second one begins a refresh of its own: its
  -- new state has a mutex that nobody holds, and the unlock of the first one ends the process. So it
  -- can happen in every process in which a refresh returns that has the mutex.
  pub refresh-overlap :
      (s t : Process W) (i j : ℕ) (first : ℕ → Program W Result) (rest rest' : Program W Result)
      → (j == i) ≡ false
      → first i ≡ refresh_program rest
      → first j ≡ refresh_program rest'
      → refresh_warm_pool_from_ec2 s ≡ done tt t
      → (sys : System W Result) × Steps (idle s first) sys × IsFatal sys
  unfolding refresh_program refresh_warm_pool_from_ec2 check_ec2_tags_for_state
  refresh-overlap s t i j first rest rest' other a b h =
      let f1 : ℕ → Program W Result = update first i (lock (locked_program rest)) in
      let f2 : ℕ → Program W Result = update f1 i (locked_program rest) in
      let f3 : ℕ → Program W Result = update f2 i (import_program rest s) in
      let f4 : ℕ → Program W Result = update f3 i (unlock rest) in
      let untouched : f4 j ≡ first j =
        update-other f3 i j (unlock rest) other
        ∙ update-other f2 i j (import_program rest s) other
        ∙ update-other f1 i j (locked_program rest) other
        ∙ update-other first i j (lock (locked_program rest)) other in
      (
        _,
        later j
            (later i
              (later i
                (later i (later i start (renew (lock (locked_program rest)) a))
                  (acquire (locked_program rest) (update-same first i _) refl))
                (perform get (import_program rest) _ _ (update-same f1 i _) refl))
              (perform _ _ tt t (update-same f2 i _) h))
            (renew (lock (locked_program rest')) (untouched ∙ b)),
        unlock_of_unlocked i rest
            (update-other f4 j i (lock (locked_program rest')) (other_comm i j other)
              ∙ update-same f3 i _)
            refl,
      )
