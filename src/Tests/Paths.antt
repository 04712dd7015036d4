-- ===== src/Tests/Paths.antt =====
-- The theorems on the kubelet's directories at concrete pods.
use neuromesh.Prelude.{◌≡◌, refl, none, some, List, [], ◌∷◌}
use neuromesh.Bytes.{Bytes, codes}
use neuromesh.CgroupPath.{
  cgroupfs, systemd, parse_cgroup_path, parse_systemd, parse_cgroupfs, path_components, split_slash,
  strip_suffix, after_first, extract_systemd_pod_uid,
}
use neuromesh.CgroupPath.Kubelet.{absolute, burstable}
use neuromesh.CgroupPath.Cgroupfs.{cgroupfs_dirs, parse_cgroup_path-cgroupfs_dirs}
use neuromesh.CgroupPath.Systemd.{systemd_dirs, NoPod}
use neuromesh.CgroupPath.Roundtrip.{parse_cgroup_path-systemd_dirs}

abbrev mount : List Bytes
mount = codes "sys" ∷ codes "fs" ∷ codes "cgroup" ∷ []

abbrev uid : Bytes
uid = codes "c52a7741-f290-4dde-b6e4-34e623dbc69e"

parse_cgroup_path-cgroupfs_dirs_example :
    parse_cgroup_path
      (absolute (cgroupfs_dirs mount (some burstable) uid (some (codes "81591f675f72"))))
    ≡ some (record {
      pod_uid = uid;
      container_id = some (codes "81591f675f72");
      qos = some (codes "burstable");
      style = cgroupfs;
    })
parse_cgroup_path-cgroupfs_dirs_example =
    parse_cgroup_path-cgroupfs_dirs mount (some burstable) uid (some (codes "81591f675f72"))
      ((refl, refl, (refl, refl, (refl, refl, tt)))) refl refl refl refl (refl, refl, refl, refl)

mount-NoPod : NoPod mount
unfolding extract_systemd_pod_uid strip_suffix after_first
mount-NoPod = (refl, (refl, (refl, tt)))

parse_cgroup_path-systemd_dirs_example :
    parse_cgroup_path (absolute (systemd_dirs mount none uid (some (codes "cri-o-xyz"))))
    ≡ some (record {
      pod_uid = uid;
      container_id = some (codes "cri-o-xyz.scope");
      qos = none;
      style = systemd;
    })
parse_cgroup_path-systemd_dirs_example =
    parse_cgroup_path-systemd_dirs mount none uid (some (codes "cri-o-xyz"))
      ((refl, refl, (refl, refl, (refl, refl, tt)))) mount-NoPod refl refl refl

-- A path of no pod is none.
no_pod_path : parse_cgroup_path (codes "/sys/fs/cgroup/system.slice/foo.service") ≡ none
unfolding parse_cgroup_path parse_systemd parse_cgroupfs path_components split_slash
no_pod_path = refl
