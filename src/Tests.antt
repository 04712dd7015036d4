-- ===== src/Tests.antt =====
-- The theorems at concrete inputs. The children hold them by component.
mod Deny
mod Hook
mod Table
mod Pins
mod Identity
mod Sync
mod Watches
mod Paths
mod Seeds
mod Pinning
use neuromesh.Prelude.{ℕ, Bool, true, List, [], ◌∷◌, replicate, copy_prefix}
use neuromesh.Bytes.{Bytes, codes}
use neuromesh.DenyEntry.{PathDenyEntry, empty_entry, path_deny_key_bytes, path_deny_max_entries}
use neuromesh.PathDeny.{PathDenyMaps, Write}

abbrev tmp_path : Bytes
tmp_path = codes "/tmp/payload"

abbrev bin_path : Bytes
bin_path = codes "/usr/bin/ls"

abbrev entry_for : ℕ → Bytes → PathDenyEntry
entry_for len prefix = record {
  len = len;
  bytes = copy_prefix (replicate path_deny_key_bytes 0) prefix;
}

abbrev tmp_entry : PathDenyEntry
tmp_entry = entry_for 5 (codes "/tmp/")

abbrev shm_entry : PathDenyEntry
shm_entry = entry_for 9 (codes "/dev/shm/")

abbrev two_entries : List PathDenyEntry
two_entries = tmp_entry ∷ shm_entry ∷ []

abbrev fresh_maps : PathDenyMaps
fresh_maps = record { list = replicate path_deny_max_entries empty_entry; count = 0 ∷ [] }

abbrev accept_all : {A : Type 0} → A → Bool
accept_all a = true
