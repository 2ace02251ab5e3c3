-- ===== src/Config/Valid.antt =====
-- Which configurations the validation lets pass.
use aws_virtual_kubelet.Base.{
  ℕ, suc, Option, none, some, ◌≡◌, ◌≢◌, ◌↔◌, refl, String, str_eq, eq_iff, true, List, [], ◌∷◌,
  ◌++◌, All, length, arith,
}
use aws_virtual_kubelet.Cloud.{Result, ok, err}
use aws_virtual_kubelet.Config.{ProviderConfig, WarmPoolConfig}
use aws_virtual_kubelet.Config.Validate.{
  Loader, load, check_defaults, set_and_check, init_config, is_empty_config, pool_errors,
  validate_warm_pool_config, report, validate, require,
}

-- A pool that has all that it needs.
abbrev pub IsCompletePool : WarmPoolConfig → Type 0
IsCompletePool wpc = (wpc.image_id ≢ "") × (wpc.instance_type ≢ "") × (length wpc.subnets ≢ 0)

pool_errors_iff : (i : ℕ) (wpc : WarmPoolConfig) → (pool_errors i wpc ≡ []) ↔ IsCompletePool wpc
unfolding pool_errors
pool_errors_iff i wpc = ground (arith, eq_iff wpc.image_id "", eq_iff wpc.instance_type "")

nil_of_append : {A : Type 0} (xs ys : List A) → xs ++ ys ≡ [] → (xs ≡ []) × (ys ≡ [])
nil_of_append [] ys h = (refl, h)
nil_of_append (x ∷ xs) ys h = absurd (cc)

validate_warm_pool_config_iff :
    (i : ℕ) (wpcs : List WarmPoolConfig) (errs : List String)
    → (validate_warm_pool_config i wpcs errs ≡ []) ↔ ((errs ≡ []) × All IsCompletePool wpcs)
unfolding validate_warm_pool_config
validate_warm_pool_config_iff i [] errs = ((λ h. (h, tt)), (λ h. h.0))
validate_warm_pool_config_iff i (wpc ∷ wpcs) errs =
    step (validate_warm_pool_config_iff (suc i) wpcs (errs ++ pool_errors i wpc))
  where
    forth :
        (errs ++ pool_errors i wpc ≡ []) × All IsCompletePool wpcs
        → (errs ≡ []) × (IsCompletePool wpc × All IsCompletePool wpcs)
    forth (h, rest) = (
      (nil_of_append errs (pool_errors i wpc) h).0,
      ((pool_errors_iff i wpc).0 (nil_of_append errs (pool_errors i wpc) h).1, rest),
    )

    back :
        (errs ≡ []) × (IsCompletePool wpc × All IsCompletePool wpcs)
        → (errs ++ pool_errors i wpc ≡ []) × All IsCompletePool wpcs
    back (clean, (complete, rest)) = (grind (arith, (pool_errors_iff i wpc).1 complete), rest)

    step :
        (validate_warm_pool_config (suc i) wpcs (errs ++ pool_errors i wpc) ≡ [])
          ↔ ((errs ++ pool_errors i wpc ≡ []) × All IsCompletePool wpcs)
        → (validate_warm_pool_config (suc i) wpcs (errs ++ pool_errors i wpc) ≡ [])
          ↔ ((errs ≡ []) × (IsCompletePool wpc × All IsCompletePool wpcs))
    step (to, from) = ((λ h. forth (to h)), (λ h. from (back h)))

report_iff : (errs : List String) → (report errs ≡ ok tt) ↔ (errs ≡ [])
unfolding report
report_iff errs = ground (arith)

require_iff : (s message : String) → (require (str_eq s "") message ≡ []) ↔ (s ≢ "")
require_iff s message = ground (arith, eq_iff s "")

is_empty_config-management_subnet :
    (pc : ProviderConfig) → is_empty_config pc ≡ true → pc.management_subnet ≡ ""
unfolding is_empty_config
is_empty_config-management_subnet pc h = ground (arith, eq_iff pc.management_subnet "")

-- The validation passes exactly the configurations with a management subnet in which every warm
-- pool has an image, an instance type and a subnet.
pub validate_iff :
    (pc : ProviderConfig)
    → (validate pc ≡ ok tt) ↔ ((pc.management_subnet ≢ "") × All IsCompletePool pc.warm_pool_config)
unfolding validate
validate_iff pc = ground (
  arith,
  is_empty_config-management_subnet pc,
  report_iff (
      validate_warm_pool_config 0 pc.warm_pool_config
        (require (str_eq pc.management_subnet "") "ManagementSubnet is required")),
  validate_warm_pool_config_iff 0 pc.warm_pool_config
      (require (str_eq pc.management_subnet "") "ManagementSubnet is required"),
  require_iff pc.management_subnet "ManagementSubnet is required",
)

-- A configuration as the provider needs it.
abbrev pub IsComplete : ProviderConfig → Type 0
IsComplete pc = (pc.management_subnet ≢ "") × All IsCompletePool pc.warm_pool_config

check_defaults-IsComplete :
    (c : ProviderConfig × Result (Unit {0}))
    → (check_defaults c).1 ≡ ok tt
    → IsComplete (check_defaults c).0
unfolding check_defaults
check_defaults-IsComplete (c, err e) h = absurd (cc)
check_defaults-IsComplete (c, ok _) h = (validate_iff c).0 h

set_and_check-IsComplete :
    (set_defaults : ProviderConfig → ProviderConfig × Result (Unit {0}))
    (l : ProviderConfig × Result (Unit {0}))
    → (set_and_check set_defaults l).1 ≡ ok tt
    → IsComplete (set_and_check set_defaults l).0
unfolding set_and_check
set_and_check-IsComplete set_defaults (l, err e) h = absurd (cc)
set_and_check-IsComplete set_defaults (l, ok _) h = check_defaults-IsComplete (set_defaults l) h

-- If InitConfig returns no error, then it was given a loader, and the configuration of the process has
-- a management subnet, and an image, an instance type and a subnet for every warm pool, whatever the
-- defaults set and whatever the configuration was before.
init_config-IsComplete :
    (set_defaults : ProviderConfig → ProviderConfig × Result (Unit {0})) (loader : Option Loader)
    (old : ProviderConfig)
    → (init_config set_defaults loader old).1 ≡ ok tt
    → (loader ≢ none) × IsComplete (init_config set_defaults loader old).0
unfolding init_config
init_config-IsComplete set_defaults none old h = absurd (cc)
init_config-IsComplete set_defaults (some loader) old h =
    ((λ e. absurd (cc)), set_and_check-IsComplete set_defaults (load loader old) h)
