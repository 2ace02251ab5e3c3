-- ===== src/WarmPool/Pages.antt =====
-- How many pages of DescribeInstances are imported.
use aws_virtual_kubelet.Base.{ℕ, suc, ◌≡◌, refl, none, some, true, Option, String}
use aws_virtual_kubelet.Cloud.{Env, DescribeInstancesInput}
use aws_virtual_kubelet.Process.{Process, Outcome, done, crash, ◌>>=◌, pure}
use aws_virtual_kubelet.WarmPool.Refresh.{import_page, import_pages}

module _ {W : Type 0} ⦃env : Env W⦄ where
  -- With two rounds or more, the loop over the pages imports the first page and no other, whatever
  -- token that page gives for the next one.
  pub import_pages-first :
      (n : ℕ) (input : DescribeInstancesInput) (s : Process W)
      → import_pages (suc (suc n)) none true input s ≡ (import_page input >>= (λ _. pure tt)) s
  unfolding import_pages
  import_pages-first n input s = go (import_page input s)
    where
      go :
          (o : Outcome W (Option (Option String)))
          → elim o [
            | done none t ↦ done tt t
            | done (some token) t ↦ done tt t
            | crash e t ↦ crash e t
          ]
            ≡ elim o [ done _ t ↦ done tt t | crash e t ↦ crash e t ]
      go (done none t) = refl
      go (done (some token) t) = refl
      go (crash e t) = refl
