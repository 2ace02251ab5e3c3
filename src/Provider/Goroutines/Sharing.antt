-- ===== src/Provider/Goroutines/Sharing.antt =====
-- What holds of a call whatever MetaPod a DeletePod holds.
use aws_virtual_kubelet.Base.{arith, ℕ, ◌≡◌, refl, String, Option, none, ◌⊎◌, inl, inr}
use aws_virtual_kubelet.Process.{MetaPod}
use aws_virtual_kubelet.Provider.Goroutines.{
  Goroutine, creating, caching, finding, choosing, using, connecting, launching, undoing, dropping,
  counting, marking, starting, telling, tallying, deleting, stopping, terminating, releasing,
  removing, reporting, updating, replacing, ended, refreshed, noted, held,
}

pub refreshed-Holds :
    (P : Goroutine → Type 0) (written : ℕ → Option ℕ)
    → ((pod : ℕ) (k : String) (e f : MetaPod) → P (terminating pod k e) → P (terminating pod k f))
    → (g : Goroutine) → P g
    → P (refreshed written g)
unfolding refreshed
refreshed-Holds P written any (creating pod) h = h
refreshed-Holds P written any (caching pod m n) h = h
refreshed-Holds P written any (finding pod m k) h = h
refreshed-Holds P written any (choosing pod m k b) h = h
refreshed-Holds P written any (using pod m k c) h = h
refreshed-Holds P written any (connecting pod m id) h = h
refreshed-Holds P written any (launching pod m id c) h = h
refreshed-Holds P written any (undoing pod e) h = h
refreshed-Holds P written any (dropping pod e) h = h
refreshed-Holds P written any (counting e) h = h
refreshed-Holds P written any (marking pod m id) h = h
refreshed-Holds P written any (starting pod m) h = h
refreshed-Holds P written any (telling pod) h = h
refreshed-Holds P written any tallying h = h
refreshed-Holds P written any (deleting pod) h = h
refreshed-Holds P written any (stopping pod k e) h = h
refreshed-Holds P written any (terminating pod k e) h = any pod k e (held written e) h
refreshed-Holds P written any (releasing pod k r) h = h
refreshed-Holds P written any (removing pod k) h = h
refreshed-Holds P written any (reporting pod) h = h
refreshed-Holds P written any (updating pod) h = h
refreshed-Holds P written any (replacing pod k e) h = h
refreshed-Holds P written any (ended r) h = h

-- Before any write a goroutine finds what it has looked up.
pub refreshed-none : (g : Goroutine) → refreshed (λ _. none) g ≡ g
unfolding refreshed held
refreshed-none (creating pod) = refl
refreshed-none (caching pod m n) = refl
refreshed-none (finding pod m k) = refl
refreshed-none (choosing pod m k b) = refl
refreshed-none (using pod m k c) = refl
refreshed-none (connecting pod m id) = refl
refreshed-none (launching pod m id c) = refl
refreshed-none (undoing pod e) = refl
refreshed-none (dropping pod e) = refl
refreshed-none (counting e) = refl
refreshed-none (marking pod m id) = refl
refreshed-none (starting pod m) = refl
refreshed-none (telling pod) = refl
refreshed-none tallying = refl
refreshed-none (deleting pod) = refl
refreshed-none (stopping pod k e) = refl
refreshed-none (terminating pod k e) = ground arith
refreshed-none (releasing pod k r) = refl
refreshed-none (removing pod k) = refl
refreshed-none (reporting pod) = refl
refreshed-none (updating pod) = refl
refreshed-none (replacing pod k e) = refl
refreshed-none (ended r) = refl

-- A step writes nothing, or is the last of an UpdatePod.
pub noted-same :
    (g : Goroutine) (written : ℕ → Option ℕ)
    → (noted g written ≡ written)
      ⊎ ((pod : ℕ) × (k : String) × (e : MetaPod) × (g ≡ replacing pod k e))
unfolding noted
noted-same (creating pod) written = inl refl
noted-same (caching pod m n) written = inl refl
noted-same (finding pod m k) written = inl refl
noted-same (choosing pod m k b) written = inl refl
noted-same (using pod m k c) written = inl refl
noted-same (connecting pod m id) written = inl refl
noted-same (launching pod m id c) written = inl refl
noted-same (undoing pod e) written = inl refl
noted-same (dropping pod e) written = inl refl
noted-same (counting e) written = inl refl
noted-same (marking pod m id) written = inl refl
noted-same (starting pod m) written = inl refl
noted-same (telling pod) written = inl refl
noted-same tallying written = inl refl
noted-same (deleting pod) written = inl refl
noted-same (stopping pod k e) written = inl refl
noted-same (terminating pod k e) written = inl refl
noted-same (releasing pod k r) written = inl refl
noted-same (removing pod k) written = inl refl
noted-same (reporting pod) written = inl refl
noted-same (updating pod) written = inl refl
noted-same (replacing pod k e) written = inr (pod, k, e, refl)
noted-same (ended r) written = inl refl
