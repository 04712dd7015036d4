-- ===== src/CgroupPath/Kubelet.antt =====
-- apps/agent-ebpf-sensor/src/identity_correlator/path_parse.rs: the names that the kubelet gives to
-- the directories of a pod, and how the parser's helpers read them.
use neuromesh.Prelude.{
  ℕ, suc, ◌+◌, ◌≡◌, refl, ◌∙◌, ap, inl, inr, Bool, true, false, not, ◌&&◌, ◌||◌, Option, none, some,
  List, [], ◌∷◌, ◌++◌, ◌==◌, leb, length, length-append, arith, Bool-cases,
}
use neuromesh.Bytes.{Bytes, codes, bytes_eq, bytes_eq_iff}
use neuromesh.CgroupPath.{
  replace, normalize_pod_uid, split_slash, counts, counting, path_components, after_component,
  strip_suffix,
}

-- No slash and no backslash stands in the name.
abbrev pub is_plain : Bytes → Bool
is_plain [] = true
is_plain (c ∷ cs) = not (c == b'/') && not (c == 92) && is_plain cs

abbrev pub AllNames : List Bytes → Type 0
AllNames [] = Unit
AllNames (n ∷ ns) = (counts n ≡ true) × (is_plain n ≡ true) × AllNames ns

-- The absolute path of these components.
abbrev pub absolute : List Bytes → Bytes
absolute [] = []
absolute (n ∷ ns) = b'/' ∷ (n ++ absolute ns)

split_slash-append :
    (n rest : Bytes) (ps : List Bytes)
    → is_plain n ≡ true
    → split_slash rest ≡ [] ∷ ps
    → split_slash (n ++ rest) ≡ n ∷ ps
unfolding split_slash
split_slash-append [] rest ps plain h = h
split_slash-append (c ∷ n) rest ps plain h =
    ground (arith, split_slash-append n rest ps (ground arith) h)

split_slash-absolute : (ns : List Bytes) → AllNames ns → split_slash (absolute ns) ≡ [] ∷ ns
unfolding split_slash
split_slash-absolute [] _ = refl
split_slash-absolute (n ∷ ns) (_, plain, all) =
    ap (λ ps. [] ∷ ps) (split_slash-append n (absolute ns) ns plain (split_slash-absolute ns all))

counting-names : (ns : List Bytes) → AllNames ns → counting ns ≡ ns
counting-names [] _ = refl
counting-names (n ∷ ns) (count, _, all) = rw (count, counting-names ns all) refl

pub path_components-absolute : (ns : List Bytes) → AllNames ns → path_components (absolute ns) ≡ ns
unfolding path_components
path_components-absolute ns all = rw (split_slash-absolute ns all) (counting-names ns all)

replace-append :
    (n rest : Bytes) → is_plain n ≡ true → replace 92 b'/' (n ++ rest) ≡ n ++ replace 92 b'/' rest
replace-append [] rest _ = refl
replace-append (c ∷ n) rest plain = ground (arith, replace-append n rest (ground arith))

pub replace-absolute : (ns : List Bytes) → AllNames ns → replace 92 b'/' (absolute ns) ≡ absolute ns
replace-absolute [] _ = refl
replace-absolute (n ∷ ns) (_, plain, all) =
    ap (λ s. b'/' ∷ s)
      (replace-append n (absolute ns) plain ∙ ap (λ s. n ++ s) (replace-absolute ns all))

-- No component has this name.
abbrev pub lacks : Bytes → List Bytes → Bool
lacks name [] = true
lacks name (c ∷ cs) = not (bytes_eq c name) && lacks name cs

pub after_component-absent :
    (name : Bytes) (cs : List Bytes) → lacks name cs ≡ true → after_component name cs ≡ none
after_component-absent name [] h = refl
after_component-absent name (c ∷ cs) h =
    ground (arith, after_component-absent name cs (ground arith))

pub after_component-append :
    (name : Bytes) (cs rest : List Bytes)
    → lacks name cs ≡ true
    → after_component name (cs ++ (name ∷ rest)) ≡ some rest
after_component-append name [] rest h = rw ((bytes_eq_iff name name).1 refl) refl
after_component-append name (c ∷ cs) rest h =
    ground (arith, after_component-append name cs rest (ground arith))

pub bytes_eq-longer : (a b : Bytes) (n : ℕ) → length a ≡ length b + suc n → bytes_eq a b ≡ false
bytes_eq-longer a b n h = elim (Bool-cases (bytes_eq a b)) [
  | inl e ↦ let same = ap length ((bytes_eq_iff a b).0 e) in absurd (omega arith)
  | inr e ↦ e
]

pub strip_suffix-append :
    (s : Bytes) (x : ℕ) (xs : Bytes) → strip_suffix (x ∷ xs) (s ++ (x ∷ xs)) ≡ some s
unfolding strip_suffix
strip_suffix-append [] x xs = rw ((bytes_eq_iff (x ∷ xs) (x ∷ xs)).1 refl) refl
strip_suffix-append (a ∷ s) x xs =
    rw
      (bytes_eq-longer (a ∷ (s ++ (x ∷ xs))) (x ∷ xs) (length s)
        (omega (arith, length-append s (x ∷ xs))))
      (rw (strip_suffix-append s x xs) refl)

-- The characters of a pod's uid: hexadecimal digits and dashes.
abbrev is_uid_char : ℕ → Bool
is_uid_char c = (leb b'0' c && leb c b'9') || (leb b'a' c && leb c b'f') || c == b'-'

abbrev pub is_uid : Bytes → Bool
is_uid [] = true
is_uid (c ∷ cs) = is_uid_char c && is_uid cs

pub normalize_pod_uid-uid : (uid : Bytes) → is_uid uid ≡ true → normalize_pod_uid uid ≡ uid
unfolding normalize_pod_uid
normalize_pod_uid-uid [] h = refl
normalize_pod_uid-uid (c ∷ cs) h = ground (arith, normalize_pod_uid-uid cs (ground arith))

-- systemd's form of a uid.
abbrev pub escape : Bytes → Bytes
escape uid = replace b'-' b'_' uid

pub normalize_pod_uid-escape :
    (uid : Bytes) → is_uid uid ≡ true → normalize_pod_uid (escape uid) ≡ uid
unfolding normalize_pod_uid
normalize_pod_uid-escape [] h = refl
normalize_pod_uid-escape (c ∷ cs) h = ground (arith, normalize_pod_uid-escape cs (ground arith))

pub is_plain-uid : (uid : Bytes) → is_uid uid ≡ true → is_plain uid ≡ true
is_plain-uid [] h = refl
is_plain-uid (c ∷ cs) h = ground (arith, is_plain-uid cs (ground arith))

pub is_plain-escape :
    (uid rest : Bytes)
    → is_uid uid ≡ true
    → is_plain rest ≡ true
    → is_plain (escape uid ++ rest) ≡ true
is_plain-escape [] rest h plain = plain
is_plain-escape (c ∷ cs) rest h plain = ground (arith, is_plain-escape cs rest (ground arith) plain)

pub data Qos : Type 0 where
  burstable besteffort : Qos

abbrev pub qos_name : Qos → Bytes
qos_name burstable = codes "burstable"
qos_name besteffort = codes "besteffort"

-- The directories of a guaranteed pod stand outside those of the classes.
abbrev pub qos_text : Option Qos → Option Bytes
qos_text none = none
qos_text (some q) = some (qos_name q)

abbrev pub if_any : Option Bytes → List Bytes
if_any none = []
if_any (some name) = name ∷ []

pub AllNames-append : (a b : List Bytes) → AllNames a → AllNames b → AllNames (a ++ b)
AllNames-append [] b _ all = all
AllNames-append (n ∷ a) b (count, plain, rest) all = (count, plain, AllNames-append a b rest all)

pub lacks-append :
    (name : Bytes) (a b : List Bytes)
    → lacks name a ≡ true
    → lacks name b ≡ true
    → lacks name (a ++ b) ≡ true
lacks-append name [] b _ h = h
lacks-append name (n ∷ a) b h h' = ground (arith, lacks-append name a b (ground arith) h')
