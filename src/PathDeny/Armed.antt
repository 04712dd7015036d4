-- ===== src/PathDeny/Armed.antt =====
-- apps/agent-ebpf-sensor/src/path_deny.rs: maps whose first slot is in use deny something.
use neuromesh.Prelude.{
  ℕ, zero, suc, ◌≤◌, ◌<◌, ◌≡◌, refl, true, some, List, [], ◌∷◌, ◌++◌, arith, take, replicate,
  length, length-append, length-replicate, get_elem?,
}
use neuromesh.Bytes.{Bytes, zip_eq}
use neuromesh.DenyEntry.{PathDenyEntry, matches}
use neuromesh.PathDeny.{PathDenyMaps, map_backed_is_blacklisted}
use neuromesh.PathDeny.Apply.{HasUsableLen}
use neuromesh.PathDeny.Refresh.{IsArmed}

-- Some path is denied by the entries that the count covers.
abbrev pub DeniesSome : PathDenyMaps → Type 0
DeniesSome d =
    (path : Bytes) × (n : ℕ) × (get_elem? d.count 0 ≡ some n)
    × (map_backed_is_blacklisted path (take n d.list) ≡ true)

zip_eq-take_longer :
    (n : ℕ) (bytes rest : Bytes) → zip_eq (take n (bytes ++ rest)) (take n bytes) ≡ true
zip_eq-take_longer zero bytes rest = refl
zip_eq-take_longer (suc n) [] [] = refl
zip_eq-take_longer (suc n) [] (b ∷ rest) = refl
zip_eq-take_longer (suc n) (b ∷ bytes) rest = ground (arith, zip_eq-take_longer n bytes rest)

-- A path that a usable entry matches.
abbrev denied_path : PathDenyEntry → Bytes
denied_path e = e.bytes ++ replicate e.len 0

matches-denied_path : (e : PathDenyEntry) → HasUsableLen e → matches e (denied_path e) ≡ true
unfolding matches
matches-denied_path e (low, high) =
    let long : e.len ≤ length (denied_path e) =
      omega (arith, length-append e.bytes (replicate e.len 0), length-replicate {A = ℕ} e.len 0) in
    ground (arith, zip_eq-take_longer e.len e.bytes (replicate e.len 0), long)

blacklisted_first :
    (path : Bytes) (n : ℕ) (e : PathDenyEntry) (list : List PathDenyEntry)
    → 0 < n
    → get_elem? list 0 ≡ some e
    → matches e path ≡ true
    → map_backed_is_blacklisted path (take n list) ≡ true
unfolding map_backed_is_blacklisted
blacklisted_first path zero e list some_count held hit = absurd (omega arith)
blacklisted_first path (suc n) e [] some_count held hit = absurd (cc held)
blacklisted_first path (suc n) e (x ∷ list) some_count held hit =
    let same : x ≡ e = cc held in rw (same, hit) refl

pub IsArmed-DeniesSome : (d : PathDenyMaps) → IsArmed d → DeniesSome d
IsArmed-DeniesSome d (e, p, usable) = (
  denied_path e,
  p.total,
  p.counted,
  blacklisted_first (denied_path e) p.total e d.list p.covered p.held
      (matches-denied_path e usable),
)
