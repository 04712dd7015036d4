-- ===== src/CgroupPath/Roundtrip.antt =====
-- apps/agent-ebpf-sensor/src/identity_correlator/path_parse.rs: the loop of `parse_systemd` over the
-- components of a pod's slices.
use neuromesh.Prelude.{
  ◌≡◌, refl, ◌∙◌, ap, true, false, Option, none, some, List, [], ◌∷◌, ◌++◌, length, length-append,
  is_empty, arith,
}
use neuromesh.Bytes.{Bytes, codes}
use neuromesh.HashTable.{is_some}
use neuromesh.CgroupPath.{
  systemd, ParsedCgroupPath, replace, path_components, after_component, strip_suffix, after_first,
  extract_systemd_qos, extract_systemd_pod_uid, Found, visit, visit_all, parse_systemd, systemd_pod,
  parse_cgroup_path,
}
use neuromesh.CgroupPath.Kubelet.{
  AllNames, absolute, path_components-absolute, replace-absolute, strip_suffix-append,
  bytes_eq-longer, is_uid, escape, Qos, burstable, besteffort, qos_text, if_any, AllNames-append,
}
use neuromesh.CgroupPath.Systemd.{
  class_slice, pod_base, scope_of, slices, systemd_dirs, NoPod, IsPlain, slices-AllNames,
  after_component-there, extract_systemd_pod_uid-pod, extract_systemd_qos-pod,
}

abbrev nothing : Found
nothing = record { qos = none; pod_uid = none; container_id = none }

visit-other :
    (comp : Bytes) (found : Found)
    → extract_systemd_pod_uid comp ≡ none
    → found.pod_uid ≡ none
    → visit comp found ≡ found
unfolding visit
visit-other comp found no_uid none_yet = rw (visit, no_uid) (rw none_yet refl)

visit-pod :
    (comp uid : Bytes) (found : Found)
    → extract_systemd_pod_uid comp ≡ some uid
    → visit comp found ≡ record found { qos = extract_systemd_qos comp; pod_uid = some uid }
unfolding visit
visit-pod comp uid found is = rw (visit, is) refl

visit-scope :
    (comp name uid : Bytes) (qos : Option Bytes)
    → extract_systemd_pod_uid comp ≡ none
    → strip_suffix (codes ".scope") comp ≡ some name
    → visit comp (record { qos = qos; pod_uid = some uid; container_id = none })
      ≡ record { qos = qos; pod_uid = some uid; container_id = some comp }
unfolding visit
visit-scope comp name uid qos no_uid scope = rw (visit, no_uid) (rw scope refl)

visit_all-mount :
    (mount rest : List Bytes)
    → NoPod mount
    → visit_all (mount ++ rest) nothing ≡ visit_all rest nothing
unfolding visit_all
visit_all-mount [] rest _ = refl
visit_all-mount (name ∷ mount) rest (no_uid, all) =
    ap (visit_all (mount ++ rest)) (visit-other name nothing no_uid refl)
    ∙ visit_all-mount mount rest all

no_slice : (name : Bytes) → strip_suffix (codes ".slice") (name ++ codes ".scope") ≡ none
unfolding strip_suffix
no_slice [] = refl
no_slice (c ∷ name) =
    rw
      (bytes_eq-longer (c ∷ (name ++ codes ".scope")) (codes ".slice") (length name)
        (omega (arith, length-append name (codes ".scope"))))
      (rw (no_slice name) refl)

no_uid-scope : (name : Bytes) → extract_systemd_pod_uid (name ++ codes ".scope") ≡ none
unfolding extract_systemd_pod_uid
no_uid-scope name = rw (extract_systemd_pod_uid, no_slice name) refl

visit_all-container :
    (container : Option Bytes) (uid : Bytes) (qos : Option Bytes)
    → visit_all
        (if_any (scope_of container))
        (record { qos = qos; pod_uid = some uid; container_id = none })
      ≡ record { qos = qos; pod_uid = some uid; container_id = scope_of container }
unfolding visit_all
visit_all-container none uid qos = refl
visit_all-container (some name) uid qos =
    visit-scope (name ++ codes ".scope") name uid qos (no_uid-scope name)
      (strip_suffix-append name b'.' (codes "scope"))

visit_all-class :
    (qos : Option Qos) (rest : List Bytes)
    → visit_all (class_slice qos ++ rest) nothing ≡ visit_all rest nothing
unfolding visit_all visit extract_systemd_pod_uid strip_suffix after_first
visit_all-class none rest = refl
visit_all-class (some burstable) rest = refl
visit_all-class (some besteffort) rest = refl

visit_all-pod :
    (qos : Option Qos) (uid : Bytes) (container : Option Bytes)
    → is_uid uid ≡ true
    → is_empty uid ≡ false
    → visit_all
        ((pod_base qos (escape uid) ++ codes ".slice") ∷ if_any (scope_of container))
        nothing
      ≡ record { qos = qos_text qos; pod_uid = some uid; container_id = scope_of container }
unfolding visit_all
visit_all-pod qos uid container h nonempty =
    ap (visit_all (if_any (scope_of container))) (
      visit-pod (pod_base qos (escape uid) ++ codes ".slice") uid nothing
        (extract_systemd_pod_uid-pod qos uid h nonempty)
      ∙ ap (λ (q : Option Bytes). record { qos = q; pod_uid = some uid; container_id = none })
          (extract_systemd_qos-pod qos (escape uid)))
    ∙ visit_all-container container uid (qos_text qos)

visit_all-root :
    (rest : List Bytes) → visit_all (codes "kubepods.slice" ∷ rest) nothing ≡ visit_all rest nothing
unfolding visit_all visit extract_systemd_pod_uid strip_suffix after_first
visit_all-root rest = refl

visit_all-dirs :
    (mount : List Bytes) (qos : Option Qos) (uid : Bytes) (container : Option Bytes)
    → NoPod mount
    → is_uid uid ≡ true
    → is_empty uid ≡ false
    → visit_all (systemd_dirs mount qos uid container) nothing
      ≡ record { qos = qos_text qos; pod_uid = some uid; container_id = scope_of container }
visit_all-dirs mount qos uid container no_pod h nonempty =
    visit_all-mount mount (codes "kubepods.slice" ∷ slices qos uid container) no_pod
    ∙ visit_all-root (slices qos uid container)
    ∙ visit_all-class qos
        ((pod_base qos (escape uid) ++ codes ".slice") ∷ if_any (scope_of container))
    ∙ visit_all-pod qos uid container h nonempty

parse_systemd-found :
    (path : Bytes) (names : List Bytes) (found : Found)
    → path_components path ≡ names
    → is_some (after_component (codes "kubepods.slice") names) ≡ true
    → visit_all names nothing ≡ found
    → parse_systemd path ≡ systemd_pod found
unfolding parse_systemd
parse_systemd-found path names found is root all =
    rw (parse_systemd, is) (rw root (ap systemd_pod all))

parse_cgroup_path-systemd :
    (path : Bytes) (parsed : ParsedCgroupPath)
    → parse_systemd path ≡ some parsed
    → replace 92 b'/' path ≡ path
    → parse_cgroup_path path ≡ some parsed
unfolding parse_cgroup_path
parse_cgroup_path-systemd path parsed is same =
    rw (parse_cgroup_path, ap parse_systemd same ∙ is) refl

-- `parse_cgroup_path` reads back a pod's slices of the systemd driver: below a mount of plain
-- names that are no pod's slice, for a uid of hexadecimal digits and dashes that is not empty, any
-- class and any plain name of a container's scope (or none), the result is the uid in its dashed
-- form, the scope and the class.
pub parse_cgroup_path-systemd_dirs :
    (mount : List Bytes) (qos : Option Qos) (uid : Bytes) (container : Option Bytes)
    → AllNames mount
    → NoPod mount
    → is_uid uid ≡ true
    → is_empty uid ≡ false
    → IsPlain container
    → parse_cgroup_path (absolute (systemd_dirs mount qos uid container))
      ≡ some (record {
        pod_uid = uid;
        container_id = scope_of container;
        qos = qos_text qos;
        style = systemd;
      })
parse_cgroup_path-systemd_dirs mount qos uid container all no_pod h nonempty plain =
    let dirs : List Bytes = systemd_dirs mount qos uid container in
    let all_dirs : AllNames dirs =
      AllNames-append mount (codes "kubepods.slice" ∷ slices qos uid container) all
        (refl, refl, slices-AllNames qos uid container h plain) in
    parse_cgroup_path-systemd (absolute dirs) _
      (parse_systemd-found (absolute dirs) dirs _ (path_components-absolute dirs all_dirs)
        (after_component-there (codes "kubepods.slice") mount (slices qos uid container))
        (visit_all-dirs mount qos uid container no_pod h nonempty))
      (replace-absolute dirs all_dirs)
