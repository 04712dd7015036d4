-- ===== src/CgroupPath.antt =====
-- apps/agent-ebpf-sensor/src/identity_correlator/path_parse.rs: which pod a cgroup directory belongs
-- to, in the layouts of the kubelet's two drivers. Paths are texts; the marks that are looked for
-- are ASCII.
pub mod Kubelet
pub mod Cgroupfs
pub mod Systemd
pub mod Roundtrip
use neuromesh.Prelude.{
  ℕ, Bool, true, false, not, ◌&&◌, ◌||◌, Option, none, some, List, [], ◌∷◌, ◌==◌, if◌then◌else◌,
  length, is_empty, map, drop,
}
use neuromesh.Bytes.{Bytes, codes, bytes_eq, starts_with}
use neuromesh.HashTable.{is_some}

pub data CgroupPathStyle : Type 0 where
  cgroupfs systemd : CgroupPathStyle

pub record ParsedCgroupPath : Type 0 where
  pub pod_uid : Bytes
  pub container_id : Option Bytes
  pub qos : Option Bytes
  pub style : CgroupPathStyle

-- `s.replace(from, to)` of one character.
abbrev pub replace : ℕ → ℕ → Bytes → Bytes
replace from to s = map (λ (c : ℕ). if c == from then to else c) s

unfoldable pub normalize_pod_uid : Bytes → Bytes
normalize_pod_uid raw = replace b'_' b'-' raw

-- The pieces between the slashes; there is at least one.
abbrev with_first : ℕ → List Bytes → List Bytes
with_first c [] = (c ∷ []) ∷ []
with_first c (p ∷ ps) = (c ∷ p) ∷ ps

unfoldable pub split_slash : Bytes → List Bytes
split_slash [] = [] ∷ []
split_slash (c ∷ cs) =
    let rest = split_slash cs in if c == b'/' then [] ∷ rest else with_first c rest

-- `Path::components` without the root: empty pieces do not count, nor does `.` after the first.
abbrev pub counts : Bytes → Bool
counts name = not (is_empty name || bytes_eq name (codes "."))

abbrev pub counting : List Bytes → List Bytes
counting [] = []
counting (name ∷ names) = let rest = counting names in if counts name then name ∷ rest else rest

abbrev pub named : List Bytes → List Bytes
named [] = []
named (first ∷ rest) = if is_empty first then counting rest else first ∷ counting rest

unfoldable pub path_components : Bytes → List Bytes
unfolding split_slash
path_components path = named (split_slash path)

-- What follows the first component of this name.
abbrev pub after_component : Bytes → List Bytes → Option (List Bytes)
after_component name [] = none
after_component name (c ∷ cs) =
    let rest = after_component name cs in if bytes_eq c name then some cs else rest

abbrev first_of : List Bytes → Option Bytes
first_of [] = none
first_of (c ∷ cs) = some c

-- The class of service, the pod's directory and the container's.
abbrev pub pod_component : List Bytes → Option (Option Bytes × Bytes × Option Bytes)
pod_component [] = none
pod_component (first ∷ []) =
    if starts_with first (codes "pod") then some (none, first, none) else none
pod_component (first ∷ second ∷ rest) =
    if starts_with first (codes "pod")
    then some (none, first, some second)
    else if starts_with second (codes "pod")
    then some (some first, second, first_of rest)
    else none

abbrev pub container_name : Option Bytes → Option Bytes
container_name none = none
container_name (some c) = if is_empty c || starts_with c (codes "pod") then none else some c

unfoldable pub cgroupfs_pod : Option Bytes × Bytes × Option Bytes → Option ParsedCgroupPath
unfolding normalize_pod_uid
cgroupfs_pod (qos, pod, container) =
    let uid_raw = drop 3 pod in
    if is_empty uid_raw
    then none
    else some (record {
      pod_uid = normalize_pod_uid uid_raw;
      container_id = container_name container;
      qos = qos;
      style = cgroupfs;
    })

unfoldable pub parse_cgroupfs : Bytes → Option ParsedCgroupPath
unfolding path_components cgroupfs_pod
parse_cgroupfs path = elim (after_component (codes "kubepods") (path_components path)) [
  | none ↦ none
  | some rest ↦ elim (pod_component rest) [ none ↦ none | some found ↦ cgroupfs_pod found ]
]

unfoldable pub strip_suffix : Bytes → Bytes → Option Bytes
strip_suffix suffix [] = if is_empty suffix then some [] else none
strip_suffix suffix (c ∷ s) =
    let rest = strip_suffix suffix s in
    if bytes_eq (c ∷ s) suffix then some [] else (elim rest [ none ↦ none | some r ↦ some (c ∷ r) ])

-- What follows the first place of a pattern, and what stands before it.
unfoldable pub after_first : Bytes → Bytes → Option Bytes
after_first pattern [] = if is_empty pattern then some [] else none
after_first pattern (c ∷ s) =
    let rest = after_first pattern s in
    if starts_with (c ∷ s) pattern then some (drop (length pattern) (c ∷ s)) else rest

unfoldable pub before_first : Bytes → Bytes → Bytes
before_first pattern [] = []
before_first pattern (c ∷ s) =
    let rest = before_first pattern s in if starts_with (c ∷ s) pattern then [] else c ∷ rest

unfoldable pub extract_systemd_qos : Bytes → Option Bytes
unfolding strip_suffix before_first
extract_systemd_qos comp = elim (strip_suffix (codes ".slice") comp) [
  | none ↦ none
  | some base ↦
      if not (starts_with base (codes "kubepods-")) || starts_with (drop 9 base) (codes "pod")
      then none
      else let qos = before_first (codes "-pod") (drop 9 base) in
        if bytes_eq qos (codes "burstable") || bytes_eq qos (codes "besteffort")
        then some qos
        else none
]

unfoldable pub extract_systemd_pod_uid : Bytes → Option Bytes
unfolding strip_suffix after_first normalize_pod_uid
extract_systemd_pod_uid comp = elim (strip_suffix (codes ".slice") comp) [
  | none ↦ none
  | some base ↦ elim (after_first (codes "-pod") base) [
    | none ↦ none
    | some uid_raw ↦
        if is_empty uid_raw || is_some (after_first (codes "kubepods") uid_raw)
        then none
        else some (normalize_pod_uid uid_raw)
  ]
]

-- The loop over the components; what was found so far.
pub record Found : Type 0 where
  pub qos : Option Bytes
  pub pod_uid : Option Bytes
  pub container_id : Option Bytes

unfoldable pub visit : Bytes → Found → Found
unfolding extract_systemd_pod_uid extract_systemd_qos strip_suffix
visit comp found = elim (extract_systemd_pod_uid comp) [
  | some uid ↦ record found { qos = extract_systemd_qos comp; pod_uid = some uid }
  | none ↦
      if is_some found.pod_uid && is_some (strip_suffix (codes ".scope") comp)
      then record found { container_id = some comp }
      else found
]

unfoldable pub visit_all : List Bytes → Found → Found
unfolding visit
visit_all [] found = found
visit_all (comp ∷ comps) found = visit_all comps (visit comp found)

abbrev pub systemd_pod : Found → Option ParsedCgroupPath
systemd_pod found = elim (found.pod_uid) [
  | none ↦ none
  | some uid ↦ some (record {
    pod_uid = uid;
    container_id = found.container_id;
    qos = found.qos;
    style = systemd;
  })
]

unfoldable pub parse_systemd : Bytes → Option ParsedCgroupPath
unfolding path_components visit_all
parse_systemd path =
    let comps = path_components path in
    if is_some (after_component (codes "kubepods.slice") comps)
    then systemd_pod (visit_all comps (record { qos = none; pod_uid = none; container_id = none }))
    else none

unfoldable pub parse_cgroup_path : Bytes → Option ParsedCgroupPath
unfolding parse_systemd parse_cgroupfs
parse_cgroup_path path =
    let normalized = replace 92 b'/' path in
    elim (parse_systemd normalized) [ some p ↦ some p | none ↦ parse_cgroupfs normalized ]
