-- ===== src/Cache/Soundness.antt =====
-- A cache whose entries have monitors of their own.
use aws_virtual_kubelet.Base.{
  ℕ, suc, ◌≤◌, ◌<◌, ◌≡◌, ◌≢◌, String, [], ◌∷◌, Option, none, some, Table, lookup, insert, remove,
  IsTable, insert-IsTable, remove-IsTable, Entries, Entries-insert, Entries-remove, Entries-lookup,
  arith, eq_iff, str_eq, false,
}
use aws_virtual_kubelet.Process.{MetaPod}

-- The pointer to a monitor is set, and leads to one of those made so far.
abbrev pub IsBelow : ℕ → Option ℕ → Type 0
IsBelow next none = ⊥
IsBelow next (some m) = m < next

abbrev pub IsMonitored : ℕ → MetaPod → Type 0
IsMonitored next meta_pod = IsBelow next meta_pod.monitor

abbrev pub HasOther : Option ℕ → MetaPod → Type 0
HasOther monitor meta_pod = meta_pod.monitor ≢ monitor

-- No two entries have the same monitor.
abbrev pub AreApart : Table MetaPod → Type 0
AreApart [] = Unit
AreApart ((key, meta_pod) ∷ rest) = Entries (HasOther meta_pod.monitor) rest × AreApart rest

pub record IsSound (next : ℕ) (cache : Table MetaPod) : Type 0 where
  pub table : IsTable cache
  pub monitored : Entries (IsMonitored next) cache
  pub apart : AreApart cache

IsMonitored-mono :
    (n k : ℕ) (m : Table MetaPod) → n ≤ k → Entries (IsMonitored n) m → Entries (IsMonitored k) m
IsMonitored-mono n k [] le h = tt
IsMonitored-mono n k ((key, e) ∷ m) le h = (below e.monitor h.0, IsMonitored-mono n k m le h.1)
  where
    below : (o : Option ℕ) → IsBelow n o → IsBelow k o
    below none b = b
    below (some j) b = omega arith

pub IsSound-mono : (n k : ℕ) (m : Table MetaPod) → n ≤ k → IsSound n m → IsSound k m
IsSound-mono n k m le h = record {
  table = h.table;
  monitored = IsMonitored-mono n k m le h.monitored;
  apart = h.apart;
}

-- A monitor that is made next is no entry's.
fresh-HasOther :
    (n : ℕ) (m : Table MetaPod) → Entries (IsMonitored n) m → Entries (HasOther (some n)) m
fresh-HasOther n [] h = tt
fresh-HasOther n ((key, e) ∷ m) h = (differs e.monitor h.0, fresh-HasOther n m h.1)
  where
    differs : (o : Option ℕ) → IsBelow n o → o ≢ some n
    differs none b = absurd b
    differs (some j) b = ground arith

-- A new entry whose monitor no other entry has.
AreApart-insert :
    (key : String) (e : MetaPod) (m : Table MetaPod)
    → Entries (HasOther e.monitor) m
    → AreApart m
    → AreApart (insert key e m)
unfolding insert
AreApart-insert key e [] other h = (tt, tt)
AreApart-insert key e ((j, w) ∷ m) other h =
    ground (arith, AreApart-insert key e m other.1 h.1, Entries-insert (HasOther w.monitor) key e m)

AreApart-remove : (key : String) (m : Table MetaPod) → AreApart m → AreApart (remove key m)
unfolding remove
AreApart-remove key [] h = tt
AreApart-remove key ((j, w) ∷ m) h =
    ground (arith, AreApart-remove key m h.1, Entries-remove (HasOther w.monitor) key m h.0)

-- A change of an entry that keeps its monitor.
AreApart-replace :
    (key : String) (old e : MetaPod) (m : Table MetaPod)
    → lookup key m ≡ some old
    → e.monitor ≡ old.monitor
    → AreApart m
    → AreApart (insert key e m)
unfolding insert lookup
AreApart-replace key old e [] found same h = absurd (cc)
AreApart-replace key old e ((j, w) ∷ m) found same h = ground (
  arith,
  AreApart-replace key old e m,
  Entries-lookup (HasOther w.monitor) key old m h.0,
  Entries-insert (HasOther w.monitor) key e m,
)

pub insert-IsSound :
    (n : ℕ) (key : String) (e : MetaPod) (m : Table MetaPod)
    → e.monitor ≡ some n
    → IsSound n m
    → IsSound (suc n) (insert key e m)
insert-IsSound n key e m new h = record {
  table = insert-IsTable key e m h.table;
  monitored =
      Entries-insert (IsMonitored (suc n)) key e m (rw new (omega arith))
        (IsMonitored-mono n (suc n) m (omega arith) h.monitored);
  apart = AreApart-insert key e m (rw new (fresh-HasOther n m h.monitored)) h.apart;
}

pub remove-IsSound :
    (n : ℕ) (key : String) (m : Table MetaPod) → IsSound n m → IsSound n (remove key m)
remove-IsSound n key m h = record {
  table = remove-IsTable key m h.table;
  monitored = Entries-remove (IsMonitored n) key m h.monitored;
  apart = AreApart-remove key m h.apart;
}

pub replace-IsSound :
    (n : ℕ) (key : String) (old e : MetaPod) (m : Table MetaPod)
    → lookup key m ≡ some old
    → e.monitor ≡ old.monitor
    → IsSound n m
    → IsSound n (insert key e m)
replace-IsSound n key old e m found same h = record {
  table = insert-IsTable key e m h.table;
  monitored =
      Entries-insert (IsMonitored n) key e m
        (rw same (Entries-lookup (IsMonitored n) key old m h.monitored found)) h.monitored;
  apart = AreApart-replace key old e m found same h.apart;
}

-- Entries of different keys have different monitors.
pub AreApart-lookup :
    (i j : String) (d e : MetaPod) (m : Table MetaPod)
    → AreApart m
    → str_eq i j ≡ false
    → lookup i m ≡ some d
    → lookup j m ≡ some e
    → e.monitor ≢ d.monitor
unfolding lookup
AreApart-lookup i j d e [] h distinct at_i at_j = absurd (cc)
AreApart-lookup i j d e ((k, w) ∷ m) h distinct at_i at_j = ground (
  arith,
  eq_iff k i,
  eq_iff k j,
  eq_iff i j,
  AreApart-lookup i j d e m h.1,
  Entries-lookup (HasOther w.monitor) i d m h.0,
  Entries-lookup (HasOther w.monitor) j e m h.0,
)
