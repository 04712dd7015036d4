-- ===== src/Bytes.antt =====
-- Byte strings: Rust's `[u8]` and the bytes of a `str`, as lists of numbers, with the slice
-- operations that the program uses (`==`, `starts_with`, `iter().zip(..).all(..)`, `position`).
use neuromesh.Prelude.{
  ℕ, ◌≤◌, ◌≡◌, ◌≢◌, ◌∙◌, refl, sym, ap, ◌↔◌, Bool, true, false, ◌&&◌, List, [], ◌∷◌, ◌++◌, arith,
  ◌==◌, ==_iff, if◌then◌else◌, length, take,
}
use mathlib.Core.Bool.{and-eq-true_iff, false≢true}
use Prim.Native.Char.{code}
use Prim.Native.String.{String}

abbrev pub Bytes : Type 0
Bytes = List ℕ

-- The bytes of an ASCII literal.
abbrev pub codes : String → Bytes
codes String.[] = []
codes (String.◌∷◌ c s) = code c ∷ codes s

abbrev pub bytes_eq : Bytes → Bytes → Bool
bytes_eq [] [] = true
bytes_eq (a ∷ xs) (b ∷ ys) = (a == b) && bytes_eq xs ys
bytes_eq _ _ = false

-- `xs.iter().zip(ys.iter()).all(|(a, b)| a == b)`: only the common length is compared.
abbrev pub zip_eq : Bytes → Bytes → Bool
zip_eq [] ys = true
zip_eq (a ∷ xs) [] = true
zip_eq (a ∷ xs) (b ∷ ys) = (a == b) && zip_eq xs ys

-- `path.starts_with(prefix)`.
abbrev pub starts_with : Bytes → Bytes → Bool
starts_with path [] = true
starts_with [] (b ∷ ys) = false
starts_with (a ∷ xs) (b ∷ ys) = (a == b) && starts_with xs ys

-- What `starts_with` means.
abbrev pub StartsWith : Bytes → Bytes → Type 0
StartsWith path prefix = (rest : Bytes) × (path ≡ prefix ++ rest)

-- `iter().position(|b| b == 0).unwrap_or(len)`, and the slice up to there.
abbrev pub until_nul : Bytes → Bytes
until_nul [] = []
until_nul (b ∷ bs) = let rest = until_nul bs in if b == 0 then [] else b ∷ rest

pub bytes_eq_iff : (xs ys : Bytes) → (bytes_eq xs ys ≡ true) ↔ (xs ≡ ys)
bytes_eq_iff [] [] = ground arith
bytes_eq_iff [] (b ∷ ys) = ground arith
bytes_eq_iff (a ∷ xs) [] = ground arith
bytes_eq_iff (a ∷ xs) (b ∷ ys) = ground (arith, bytes_eq_iff xs ys)

pub bytes_eq-ne : (xs ys : Bytes) → bytes_eq xs ys ≡ false → xs ≢ ys
bytes_eq-ne xs ys h e = false≢true (sym h ∙ (bytes_eq_iff xs ys).1 e)

-- A decision from a test that decides.
abbrev pub decide_by {ℓ} : {P : Type ℓ} (b : Bool) → (b ≡ true) ↔ P → Dec P
decide_by true iff = yes (iff.0 refl)
decide_by false iff = no (λ p. false≢true (iff.1 p))

unfoldable pub Bytes-discrete : Discrete Bytes
Bytes-discrete xs ys = decide_by (bytes_eq xs ys) (bytes_eq_iff xs ys)

pub starts_with_iff :
    (path prefix : Bytes) → (starts_with path prefix ≡ true) ↔ StartsWith path prefix
starts_with_iff path [] = (λ _. (path, refl), λ _. refl)
starts_with_iff [] (b ∷ ys) = (λ h. absurd (cc h), λ h. absurd (cc (h.1)))
starts_with_iff (a ∷ xs) (b ∷ ys) =
    let (to, from) = starts_with_iff xs ys in
    (
      λ h.
          let (here, later) = (and-eq-true_iff (a == b) (starts_with xs ys)).0 h in
          let (rest, e) = to later in (rest, cc ((==_iff a b).0 here, e)),
      λ (rest, e). ground (arith, from (rest, cc e)),
    )

-- Equal slices of one length are a prefix.
pub zip_eq-take :
    (path prefix : Bytes)
    → length prefix ≤ length path
    → zip_eq (take (length prefix) path) prefix ≡ starts_with path prefix
zip_eq-take path [] h = refl
zip_eq-take [] (b ∷ ys) h = absurd (omega arith)
zip_eq-take (a ∷ xs) (b ∷ ys) h = ap (λ r. (a == b) && r) (zip_eq-take xs ys (omega arith))

pub zip_eq-starts_with :
    (path prefix : Bytes)
    → length prefix ≤ length path
    → zip_eq path prefix ≡ starts_with path prefix
zip_eq-starts_with [] [] h = refl
zip_eq-starts_with (a ∷ xs) [] h = refl
zip_eq-starts_with [] (b ∷ ys) h = absurd (omega arith)
zip_eq-starts_with (a ∷ xs) (b ∷ ys) h =
    ap (λ r. (a == b) && r) (zip_eq-starts_with xs ys (omega arith))

pub starts_with-length :
    (path prefix : Bytes) → starts_with path prefix ≡ true → length prefix ≤ length path
starts_with-length path [] h = omega arith
starts_with-length [] (b ∷ ys) h = absurd (cc h)
starts_with-length (a ∷ xs) (b ∷ ys) h = ground (arith, starts_with-length xs ys)
