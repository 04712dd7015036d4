-- ===== src/CgroupPath/Cgroupfs.antt =====
-- apps/agent-ebpf-sensor/src/identity_correlator/path_parse.rs: `parse_cgroup_path` reads back the
-- directories of the kubelet's cgroupfs driver.
use neuromesh.Prelude.{
  ◌≡◌, refl, ◌∙◌, ap, true, false, Option, none, some, List, [], ◌∷◌, ◌++◌, is_empty,
}
use neuromesh.Bytes.{Bytes, codes, bytes_eq, starts_with}
use neuromesh.CgroupPath.{
  cgroupfs, replace, counts, path_components, after_component, pod_component, container_name,
  cgroupfs_pod, parse_cgroupfs, parse_systemd, parse_cgroup_path,
}
use neuromesh.CgroupPath.Kubelet.{
  is_plain, AllNames, absolute, path_components-absolute, replace-absolute, lacks,
  after_component-absent, after_component-append, is_uid, normalize_pod_uid-uid, is_plain-uid, Qos,
  burstable, besteffort, qos_text, if_any, AllNames-append, lacks-append,
}

abbrev pub cgroupfs_dirs : List Bytes → Option Qos → Bytes → Option Bytes → List Bytes
cgroupfs_dirs mount qos uid container =
    mount
    ++ (codes "kubepods" ∷ (if_any (qos_text qos) ++ ((codes "pod" ++ uid) ∷ if_any container)))

-- A container's directory: a name that is no pod's and not systemd's root.
abbrev pub IsContainer : Option Bytes → Type 0
IsContainer none = Unit
IsContainer (some name) =
    (counts name ≡ true)
    × (is_plain name ≡ true)
    × (starts_with name (codes "pod") ≡ false)
    × (bytes_eq name (codes "kubepods.slice") ≡ false)

container-AllNames :
    (container : Option Bytes) → IsContainer container → AllNames (if_any container)
container-AllNames none _ = tt
container-AllNames (some c) (count, plain, _, _) = (count, plain, tt)

-- Below the root of the pods.
abbrev below : Option Qos → Bytes → Option Bytes → List Bytes
below qos uid container = if_any (qos_text qos) ++ ((codes "pod" ++ uid) ∷ if_any container)

below-AllNames :
    (qos : Option Qos) (uid : Bytes) (container : Option Bytes)
    → is_uid uid ≡ true
    → IsContainer container
    → AllNames (below qos uid container)
below-AllNames none uid container h names =
    (refl, is_plain-uid uid h, container-AllNames container names)
below-AllNames (some burstable) uid container h names =
    (refl, refl, (refl, is_plain-uid uid h, container-AllNames container names))
below-AllNames (some besteffort) uid container h names =
    (refl, refl, (refl, is_plain-uid uid h, container-AllNames container names))

container-lacks :
    (container : Option Bytes)
    → IsContainer container
    → lacks (codes "kubepods.slice") (if_any container) ≡ true
container-lacks none _ = refl
container-lacks (some c) (_, _, _, differs) = rw differs refl

below-lacks :
    (qos : Option Qos) (uid : Bytes) (container : Option Bytes)
    → IsContainer container
    → lacks (codes "kubepods.slice") (below qos uid container) ≡ true
below-lacks none uid container names = container-lacks container names
below-lacks (some burstable) uid container names = container-lacks container names
below-lacks (some besteffort) uid container names = container-lacks container names

container_name-container :
    (container : Option Bytes) → IsContainer container → container_name container ≡ container
container_name-container none _ = refl
container_name-container (some []) (count, _, _, _) = absurd (cc count)
container_name-container (some (x ∷ c)) (count, plain, no_pod, _) = rw no_pod refl

pod_component-below :
    (qos : Option Qos) (uid : Bytes) (container : Option Bytes)
    → pod_component (below qos uid container) ≡ some (qos_text qos, codes "pod" ++ uid, container)
pod_component-below none uid none = refl
pod_component-below none uid (some c) = refl
pod_component-below (some burstable) uid none = refl
pod_component-below (some burstable) uid (some c) = refl
pod_component-below (some besteffort) uid none = refl
pod_component-below (some besteffort) uid (some c) = refl

cgroupfs_pod-below :
    (qos : Option Qos) (uid : Bytes) (container : Option Bytes)
    → is_uid uid ≡ true
    → is_empty uid ≡ false
    → IsContainer container
    → cgroupfs_pod (qos_text qos, codes "pod" ++ uid, container)
      ≡ some
          (record { pod_uid = uid; container_id = container; qos = qos_text qos; style = cgroupfs })
unfolding cgroupfs_pod
cgroupfs_pod-below qos uid container h nonempty names =
    rw (nonempty, normalize_pod_uid-uid uid h, container_name-container container names) refl

parse_cgroupfs-absolute :
    (path : Bytes) (names rest : List Bytes) (found : Option Bytes × Bytes × Option Bytes)
    → path_components path ≡ names
    → after_component (codes "kubepods") names ≡ some rest
    → pod_component rest ≡ some found
    → parse_cgroupfs path ≡ cgroupfs_pod found
unfolding parse_cgroupfs
parse_cgroupfs-absolute path names rest found is root pod =
    rw (parse_cgroupfs, is) (rw root (rw pod refl))

parse_systemd-absent :
    (path : Bytes) (names : List Bytes)
    → path_components path ≡ names
    → lacks (codes "kubepods.slice") names ≡ true
    → parse_systemd path ≡ none
unfolding parse_systemd
parse_systemd-absent path names is absent =
    rw (is, after_component-absent (codes "kubepods.slice") names absent) refl

parse_cgroup_path-cgroupfs :
    (path : Bytes)
    → parse_systemd path ≡ none
    → replace 92 b'/' path ≡ path
    → parse_cgroup_path path ≡ parse_cgroupfs path
unfolding parse_cgroup_path
parse_cgroup_path-cgroupfs path absent same =
    rw (parse_cgroup_path, same) (rw absent (ap parse_cgroupfs same))

-- `parse_cgroup_path` reads back a pod's directory of the cgroupfs driver: below a mount of plain
-- names without `kubepods` and `kubepods.slice`, for a uid of hexadecimal digits and dashes that
-- is not empty, any class and any plain container name that does not begin with `pod` (or none),
-- the result is that uid, container and class.
pub parse_cgroup_path-cgroupfs_dirs :
    (mount : List Bytes) (qos : Option Qos) (uid : Bytes) (container : Option Bytes)
    → AllNames mount
    → lacks (codes "kubepods") mount ≡ true
    → lacks (codes "kubepods.slice") mount ≡ true
    → is_uid uid ≡ true
    → is_empty uid ≡ false
    → IsContainer container
    → parse_cgroup_path (absolute (cgroupfs_dirs mount qos uid container))
      ≡ some
          (record { pod_uid = uid; container_id = container; qos = qos_text qos; style = cgroupfs })
parse_cgroup_path-cgroupfs_dirs mount qos uid container all no_root no_slice h nonempty names =
    let dirs : List Bytes = cgroupfs_dirs mount qos uid container in
    let all_dirs : AllNames dirs =
      AllNames-append mount (codes "kubepods" ∷ below qos uid container) all
        (refl, refl, below-AllNames qos uid container h names) in
    let comps = path_components-absolute dirs all_dirs in
    parse_cgroup_path-cgroupfs (absolute dirs)
      (parse_systemd-absent (absolute dirs) dirs comps (
        lacks-append (codes "kubepods.slice") mount (codes "kubepods" ∷ below qos uid container)
          no_slice (below-lacks qos uid container names)))
      (replace-absolute dirs all_dirs)
    ∙ parse_cgroupfs-absolute (absolute dirs) dirs (below qos uid container) _ comps
        (after_component-append (codes "kubepods") mount (below qos uid container) no_root)
        (pod_component-below qos uid container)
    ∙ cgroupfs_pod-below qos uid container h nonempty names
