-- ===== src/CgroupPath/Systemd.antt =====
-- apps/agent-ebpf-sensor/src/identity_correlator/path_parse.rs: `parse_cgroup_path` reads back the
-- slices of the kubelet's systemd driver.
use neuromesh.Prelude.{
  ◌≡◌, refl, ◌∙◌, ap, true, false, Option, none, some, List, [], ◌∷◌, ◌++◌, is_empty, arith,
}
use neuromesh.Bytes.{Bytes, codes, bytes_eq_iff}
use neuromesh.HashTable.{is_some}
use neuromesh.CgroupPath.{
  normalize_pod_uid, counts, after_component, strip_suffix, after_first, before_first,
  extract_systemd_qos, extract_systemd_pod_uid,
}
use neuromesh.CgroupPath.Kubelet.{
  is_plain, AllNames, strip_suffix-append, is_uid, normalize_pod_uid-escape, escape,
  is_plain-escape, Qos, burstable, besteffort, qos_text, if_any,
}

-- The slice of the class, and the name of the pod's slice without its ending.
abbrev pub class_slice : Option Qos → List Bytes
class_slice none = []
class_slice (some burstable) = codes "kubepods-burstable.slice" ∷ []
class_slice (some besteffort) = codes "kubepods-besteffort.slice" ∷ []

abbrev pub pod_base : Option Qos → Bytes → Bytes
pod_base none uid = codes "kubepods-pod" ++ uid
pod_base (some burstable) uid = codes "kubepods-burstable-pod" ++ uid
pod_base (some besteffort) uid = codes "kubepods-besteffort-pod" ++ uid

-- The scope of a container.
abbrev pub scope_of : Option Bytes → Option Bytes
scope_of none = none
scope_of (some name) = some (name ++ codes ".scope")

abbrev pub slices : Option Qos → Bytes → Option Bytes → List Bytes
slices qos uid container =
    class_slice qos ++ ((pod_base qos (escape uid) ++ codes ".slice") ∷ if_any (scope_of container))

abbrev pub systemd_dirs : List Bytes → Option Qos → Bytes → Option Bytes → List Bytes
systemd_dirs mount qos uid container = mount ++ (codes "kubepods.slice" ∷ slices qos uid container)

-- No directory of the mount looks like the slice of a pod.
abbrev pub NoPod : List Bytes → Type 0
NoPod [] = Unit
NoPod (name ∷ names) = (extract_systemd_pod_uid name ≡ none) × NoPod names

abbrev pub IsPlain : Option Bytes → Type 0
IsPlain none = Unit
IsPlain (some name) = is_plain name ≡ true

is_plain-append : (a b : Bytes) → is_plain a ≡ true → is_plain b ≡ true → is_plain (a ++ b) ≡ true
is_plain-append [] b h h' = h'
is_plain-append (c ∷ a) b h h' = ground (arith, is_plain-append a b (ground arith) h')

counts-scope : (name : Bytes) → counts (name ++ codes ".scope") ≡ true
counts-scope [] = refl
counts-scope (c ∷ []) = ground arith
counts-scope (c ∷ d ∷ name) = ground arith

scope-AllNames :
    (container : Option Bytes) → IsPlain container → AllNames (if_any (scope_of container))
scope-AllNames none _ = tt
scope-AllNames (some name) plain =
    (counts-scope name, is_plain-append name (codes ".scope") plain refl, tt)

pub slices-AllNames :
    (qos : Option Qos) (uid : Bytes) (container : Option Bytes)
    → is_uid uid ≡ true
    → IsPlain container
    → AllNames (slices qos uid container)
slices-AllNames none uid container h plain =
    (refl, is_plain-escape uid (codes ".slice") h refl, scope-AllNames container plain)
slices-AllNames (some burstable) uid container h plain = (
  refl,
  refl,
  (refl, is_plain-escape uid (codes ".slice") h refl, scope-AllNames container plain),
)
slices-AllNames (some besteffort) uid container h plain = (
  refl,
  refl,
  (refl, is_plain-escape uid (codes ".slice") h refl, scope-AllNames container plain),
)

pub after_component-there :
    (name : Bytes) (cs rest : List Bytes)
    → is_some (after_component name (cs ++ (name ∷ rest))) ≡ true
after_component-there name [] rest = rw ((bytes_eq_iff name name).1 refl) refl
after_component-there name (c ∷ cs) rest = ground (arith, after_component-there name cs rest)

after_first-pod :
    (qos : Option Qos) (uid : Bytes) → after_first (codes "-pod") (pod_base qos uid) ≡ some uid
unfolding after_first
after_first-pod none uid = refl
after_first-pod (some burstable) uid = refl
after_first-pod (some besteffort) uid = refl

after_first-kubepods :
    (uid : Bytes) → is_uid uid ≡ true → after_first (codes "kubepods") (escape uid) ≡ none
unfolding after_first
after_first-kubepods [] h = refl
after_first-kubepods (c ∷ cs) h = ground (arith, after_first-kubepods cs (ground arith))

is_empty-escape : (uid : Bytes) → is_empty uid ≡ false → is_empty (escape uid) ≡ false
is_empty-escape [] h = h
is_empty-escape (c ∷ cs) h = refl

extract_systemd_pod_uid-base :
    (comp base raw : Bytes)
    → strip_suffix (codes ".slice") comp ≡ some base
    → after_first (codes "-pod") base ≡ some raw
    → is_empty raw ≡ false
    → after_first (codes "kubepods") raw ≡ none
    → extract_systemd_pod_uid comp ≡ some (normalize_pod_uid raw)
unfolding extract_systemd_pod_uid
extract_systemd_pod_uid-base comp base raw slice pod nonempty no_root =
    rw (extract_systemd_pod_uid, slice) (rw pod (rw (nonempty, no_root) refl))

pub extract_systemd_pod_uid-pod :
    (qos : Option Qos) (uid : Bytes)
    → is_uid uid ≡ true
    → is_empty uid ≡ false
    → extract_systemd_pod_uid (pod_base qos (escape uid) ++ codes ".slice") ≡ some uid
extract_systemd_pod_uid-pod qos uid h nonempty =
    extract_systemd_pod_uid-base (pod_base qos (escape uid) ++ codes ".slice")
      (pod_base qos (escape uid)) (escape uid)
      (strip_suffix-append (pod_base qos (escape uid)) b'.' (codes "slice"))
      (after_first-pod qos (escape uid)) (is_empty-escape uid nonempty) (after_first-kubepods uid h)
    ∙ ap some (normalize_pod_uid-escape uid h)

pub extract_systemd_qos-pod :
    (qos : Option Qos) (uid : Bytes)
    → extract_systemd_qos (pod_base qos uid ++ codes ".slice") ≡ qos_text qos
unfolding extract_systemd_qos before_first
extract_systemd_qos-pod none uid =
    rw (strip_suffix-append (pod_base none uid) b'.' (codes "slice")) refl
extract_systemd_qos-pod (some burstable) uid =
    rw (strip_suffix-append (pod_base (some burstable) uid) b'.' (codes "slice")) refl
extract_systemd_qos-pod (some besteffort) uid =
    rw (strip_suffix-append (pod_base (some besteffort) uid) b'.' (codes "slice")) refl
