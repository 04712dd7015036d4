-- ===== src/Lsm/Decision.antt =====
-- What the hook decides: it never panics, and it allows an execution exactly when the path was read
-- and is not denied, or is under the scope of a fresh identity exception of the task's cgroup.
use neuromesh.Prelude.{
  ◌≤◌, ◌≡◌, ◌≢◌, ◌∙◌, refl, ◌↔◌, ◌⊎◌, inl, inr, Bool, true, false, ◌&&◌, some, List, arith,
  Bool-cases, get_elem?, take, any, All, All-zip, any-false→All, All→any-false, if◌then◌else◌, ltb,
  leb, All-take,
}
use mathlib.Core.Bool.{and-eq-true_iff}
use neuromesh.Prelude.Int.{ℤ}
use neuromesh.Prelude.Result.{ok, err, Result-cases}
use neuromesh.Bytes.{Bytes, starts_with, StartsWith, starts_with_iff}
use neuromesh.DenyEntry.{PathDenyEntry, IsValid, matches, key, path_deny_key_bytes}
use neuromesh.DenyEntry.Matching.{matches-starts_with, matches_out_of_range}
use neuromesh.Lsm.Maps.{
  Maps, Offsets, Call, lsm_allow, lsm_deny, identity_exception_scope_prefix, identity_allow_value,
  identity_exceptions_valid_fresh,
}
use neuromesh.Lsm.Match.{path_starts_with, active_count, identity_exception_allows, map_get}
use neuromesh.Lsm.Emit.{read_bprm_path_prefix, emit_blocked_exec_event}
use neuromesh.Lsm.Hook.{decide, nm_lsm_bprm}
use neuromesh.Lsm.Scan.{IsFull, path_starts_with-starts_with, is_blacklisted_path-any}

-- The entries that the program consults.
abbrev pub active : Maps → List PathDenyEntry
active m = take (active_count m.path_deny_count) m.path_deny_list

abbrev pub blacklisted : Maps → Bytes → Bool
blacklisted m path = any (λ e. matches e path) (active m)

abbrev pub excepted : Maps → Call → Bytes → Bool
excepted m call path =
    starts_with path identity_exception_scope_prefix && identity_exception_allows m call

-- A usable entry whose prefix the path has.
abbrev pub Hits : Bytes → PathDenyEntry → Type 0
Hits path e = (1 ≤ e.len) × (e.len ≤ path_deny_key_bytes) × StartsWith path (key e)

-- The path has the exception's scope, the exceptions are fresh, and the cgroup is allowed.
abbrev pub IsExcepted : Maps → Call → Bytes → Type 0
IsExcepted m call path =
    StartsWith path identity_exception_scope_prefix
    × (get_elem? m.id_except_valid 0 ≡ some identity_exceptions_valid_fresh)
    × (map_get call.cgroup_id m.id_allow_cgroup ≡ some identity_allow_value)

abbrev pub IsAllowed : Offsets → Call → Maps → Type 0
IsAllowed offsets call m =
    (path : Bytes) × (read_bprm_path_prefix offsets call ≡ ok path)
    × (All (λ e. ¬ Hits path e) (active m) ⊎ IsExcepted m call path)

matches-false_iff :
    (path : Bytes) (e : PathDenyEntry) → IsFull e → (matches e path ≡ false) ↔ (¬ Hits path e)
matches-false_iff path e full = elim (Bool-cases (ltb 0 e.len && leb e.len path_deny_key_bytes)) [
  | inl good ↦
      let v : IsValid e = record { positive = ground arith; bounded = ground arith; full = full } in
      (
        λ miss (_, _, start).
            absurd (cc (matches-starts_with e path v, (starts_with_iff path (key e)).1 start)),
        λ no_hit. elim (Bool-cases (matches e path)) [
          | inl hit ↦ absurd (
              no_hit (
                v.positive,
                v.bounded,
                (starts_with_iff path (key e)).0 (cc (matches-starts_with e path v)),
              ))
          | inr miss ↦ miss
        ],
      )
  | inr bad ↦ (λ miss (low, high, _). ground arith, λ _. matches_out_of_range e path bad)
]

allows_iff :
    (m : Maps) (call : Call)
    → (identity_exception_allows m call ≡ true) ↔ (
        (get_elem? m.id_except_valid 0 ≡ some identity_exceptions_valid_fresh)
        × (map_get call.cgroup_id m.id_allow_cgroup ≡ some identity_allow_value))
unfolding identity_exception_allows
allows_iff m call = (λ h. ground arith, λ (fresh, allowed). ground arith)

exception_iff :
    (m : Maps) (call : Call) (path : Bytes) → (excepted m call path ≡ true) ↔ IsExcepted m call path
exception_iff m call path = (
  λ h.
      let (start, allow) = (and-eq-true_iff _ (identity_exception_allows m call)).0 h in
      let (fresh, allowed) = (allows_iff m call).0 allow in
      ((starts_with_iff path identity_exception_scope_prefix).0 start, fresh, allowed),
  λ (start, fresh, allowed). (and-eq-true_iff _ (identity_exception_allows m call)).1 (
    (starts_with_iff path identity_exception_scope_prefix).1 start,
    (allows_iff m call).1 (fresh, allowed),
  ),
)

pub decide-cases :
    (offsets : Offsets) (call : Call) (m : Maps) (path : Bytes)
    → All IsFull m.path_deny_list
    → decide offsets call m path
      ≡ some (
          if blacklisted m path
          then (if excepted m call path
              then (m, lsm_allow)
              else (emit_blocked_exec_event offsets call m, lsm_deny))
          else (m, lsm_allow))
unfolding decide
decide-cases offsets call m path full =
    let scan = is_blacklisted_path-any m path full in
    let scope : path_starts_with path identity_exception_scope_prefix 5
        ≡ some (starts_with path identity_exception_scope_prefix) =
      path_starts_with-starts_with path identity_exception_scope_prefix 5 (omega arith)
        (omega arith) (omega arith) in
    ground (arith, scan, scope)

not_listed_iff :
    (m : Maps) (path : Bytes)
    → All IsFull m.path_deny_list
    → (blacklisted m path ≡ false) ↔ All (λ e. ¬ Hits path e) (active m)
not_listed_iff m path full =
    let widths = All-take IsFull (active_count m.path_deny_count) m.path_deny_list full in
    (
      λ h.
          All-zip (active m) (λ e (w : IsFull e) miss. (matches-false_iff path e w).0 miss) widths
            (any-false→All (λ e. matches e path) (active m) h),
      λ h.
          All→any-false (λ e. matches e path) (active m)
            (All-zip (active m) (λ e (w : IsFull e) miss. (matches-false_iff path e w).1 miss)
              widths h),
    )

-- What the hook promises of its verdict `v` and of the maps `m'` that it leaves.
pub record Decided (offsets : Offsets) (call : Call) (m : Maps) (m' : Maps) (v : ℤ) : Type 0 where
  pub binary : (v ≡ lsm_allow) ⊎ (v ≡ lsm_deny)
  pub allows : (v ≡ lsm_allow) ↔ IsAllowed offsets call m
  pub quiet : v ≡ lsm_allow → m' ≡ m

module _ (offsets : Offsets) (call : Call) (m : Maps) (full : All IsFull m.path_deny_list) where
  deny-ne-allow : lsm_deny ≢ lsm_allow
  deny-ne-allow e = cc

  decided-listed :
      (path : Bytes)
      → read_bprm_path_prefix offsets call ≡ ok path
      → blacklisted m path ≡ true
      → (IsExcepted m call path → ⊥)
      → ¬ IsAllowed offsets call m
  decided-listed path read hit no_exception (path', read', inl clear) =
      let same : path ≡ path' = cc in cc ((not_listed_iff m path full).1 (rw same clear))
  decided-listed path read hit no_exception (path', read', inr ex) =
      let same : path ≡ path' = cc in no_exception (rw same ex)

  denied : (m' : Maps) → ¬ IsAllowed offsets call m → Decided offsets call m m' lsm_deny
  denied m' no_way = record {
    binary = inr refl;
    allows = (λ e. absurd (deny-ne-allow e), λ a. absurd (no_way a));
    quiet = λ e. absurd (deny-ne-allow e);
  }

  allowed : IsAllowed offsets call m → Decided offsets call m m lsm_allow
  allowed a = record { binary = inl refl; allows = (λ _. a, λ _. refl); quiet = λ _. refl }

  decided_read :
      (path : Bytes)
      → read_bprm_path_prefix offsets call ≡ ok path
      → (m' : Maps) × (v : ℤ) × (decide offsets call m path ≡ some (m', v))
        × Decided offsets call m m' v
  decided_read path read = elim (Bool-cases (blacklisted m path)) [
    | inr clear ↦ (
      m,
      lsm_allow,
      cc (decide-cases offsets call m path full, clear),
      allowed (path, read, inl ((not_listed_iff m path full).0 clear)),
    )
    | inl hit ↦ elim (Bool-cases (excepted m call path)) [
      | inl ex ↦ (
        m,
        lsm_allow,
        ground (arith, decide-cases offsets call m path full),
        allowed (path, read, inr ((exception_iff m call path).0 ex)),
      )
      | inr no_ex ↦ (
        emit_blocked_exec_event offsets call m,
        lsm_deny,
        ground (arith, decide-cases offsets call m path full),
        denied _ (decided-listed path read hit (λ x. cc ((exception_iff m call path).1 x))),
      )
    ]
  ]

  -- A failed read of the path is a denial.
  pub unreadable :
      (e : ℤ)
      → read_bprm_path_prefix offsets call ≡ err e
      → (nm_lsm_bprm offsets call m ≡ some (m, lsm_deny)) × Decided offsets call m m lsm_deny
  unfolding nm_lsm_bprm
  unreadable e unread = (rw (unread, nm_lsm_bprm), denied m (λ (path, read, _). cc))

  pub run_read :
      (path : Bytes)
      → read_bprm_path_prefix offsets call ≡ ok path
      → nm_lsm_bprm offsets call m ≡ decide offsets call m path
  unfolding nm_lsm_bprm
  run_read path read = ground arith

  -- If every stored entry has its 32 bytes, the hook returns, for whatever the kernel's helpers
  -- answer; it allows exactly when the path was read and is clear of the active deny entries, or
  -- is under `/tmp/` with fresh exceptions and an allowed cgroup; an allowed execution leaves the
  -- maps as they were.
  pub nm_lsm_bprm_decided :
      (m' : Maps) × (v : ℤ) × (nm_lsm_bprm offsets call m ≡ some (m', v))
      × Decided offsets call m m' v
  nm_lsm_bprm_decided = elim (Result-cases (read_bprm_path_prefix offsets call)) [
    | inr (e, unread) ↦ let (runs, d) = unreadable e unread in (m, lsm_deny, runs, d)
    | inl (path, read) ↦
        let (m', v, runs, d) = decided_read path read in (m', v, run_read path read ∙ runs, d)
  ]
