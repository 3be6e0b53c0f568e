-- ===== src/Watch/Validate.antt =====
-- `validateTargets`.
use directory_exporter.Common.{
  true, not, List, [], codes, ◌∷◌, ◌++◌, Option, none, some, Bytes, Error, if◌then◌else◌, ◌≡◌, ◌↔◌,
  arith, inl, inr, refl, All, is_empty,
}
use directory_exporter.Types.{Target}
use directory_exporter.Go.Os.{Result, ok, err, Result-cases, FileSystem, FileInfo}
use directory_exporter.Go.Strconv.{quote_text}
use directory_exporter.Go.Strings.{join}
use directory_exporter.Go.FilePath.{clean, join_path}

abbrev newline : Bytes
newline = 10 ∷ []

-- The loop over the explicit directories of a target.
unfoldable pub missing_dirs : FileSystem → Bytes → List Bytes → List Error
missing_dirs fs base [] = []
missing_dirs fs base (d ∷ dirs) =
    let path = join_path base (clean d) in
    let rest = missing_dirs fs base dirs in
    elim (fs.stat path) [
      | err e ↦ (codes "  target " ++ (quote_text path ++ (codes ": " ++ e))) ∷ rest
      | ok _ ↦ rest
    ]

-- One round of the loop over the targets: the errors that it appends.
unfoldable pub target_faults : FileSystem → Target → List Error
unfolding missing_dirs
target_faults fs t =
    let base = clean t.base in
    let fault = λ (text : Bytes). (codes "  base " ++ (quote_text base ++ text)) ∷ [] in
    elim (fs.stat base) [
      | err e ↦ fault (codes ": " ++ e)
      | ok info ↦
          if not info.is_dir then fault (codes ": not a directory") else elim (fs.open_dir base) [
            | err e ↦ fault (codes ": cannot open: " ++ e)
            | ok _ ↦ missing_dirs fs base t.dirs
          ]
    ]

unfoldable pub all_faults : FileSystem → List Target → List Error
all_faults fs [] = []
all_faults fs (t ∷ ts) = target_faults fs t ++ all_faults fs ts

unfoldable pub validate_targets : FileSystem → List Target → Option Error
unfolding all_faults
validate_targets fs ts =
    let errs = all_faults fs ts in
    if is_empty errs then none else some (codes "target validation errors:\n" ++ join errs newline)

-- A call that succeeds.
abbrev pub Succeeds {ℓ} : {A : Type ℓ} → Result A → Type ℓ
Succeeds {A = A} r = (a : A) × (r ≡ ok a)

-- The base of a target is a directory that opens, and each of its explicit directories can be
-- stat-ed.
abbrev pub IsUsable : FileSystem → Target → Type 0
IsUsable fs t =
    ((info : FileInfo) × (fs.stat (clean t.base) ≡ ok info) × (info.is_dir ≡ true))
    × Succeeds (fs.open_dir (clean t.base))
    × All (λ d. Succeeds (fs.stat (join_path (clean t.base) (clean d)))) t.dirs

missing_dirs_none :
    (fs : FileSystem) (base : Bytes) (dirs : List Bytes)
    → missing_dirs fs base dirs ≡ []
    → All (λ d. Succeeds (fs.stat (join_path base (clean d)))) dirs
unfolding missing_dirs
missing_dirs_none fs base [] h = tt
missing_dirs_none fs base (d ∷ dirs) h = elim (Result-cases (fs.stat (join_path base (clean d)))) [
  | inl (e, p) ↦ absurd (ground arith)
  | inr (info, p) ↦ ((info, p), missing_dirs_none fs base dirs (ground arith))
]

missing_dirs_found :
    (fs : FileSystem) (base : Bytes) (dirs : List Bytes)
    → All (λ d. Succeeds (fs.stat (join_path base (clean d)))) dirs
    → missing_dirs fs base dirs ≡ []
unfolding missing_dirs
missing_dirs_found fs base [] h = refl
missing_dirs_found fs base (d ∷ dirs) ((info, p), h) =
    rw (p, missing_dirs) (missing_dirs_found fs base dirs h)

target_faults_none : (fs : FileSystem) (t : Target) → target_faults fs t ≡ [] → IsUsable fs t
unfolding target_faults
target_faults_none fs t h = elim (Result-cases (fs.stat (clean t.base))) [
  | inl (e, p) ↦ absurd (ground arith)
  | inr (info, p) ↦ elim (Result-cases (fs.open_dir (clean t.base))) [
    | inl (e, q) ↦ absurd (ground arith)
    | inr (reads, q) ↦ (
      (info, p, ground arith),
      (reads, q),
      missing_dirs_none fs (clean t.base) t.dirs (ground arith),
    )
  ]
]

target_faults_usable : (fs : FileSystem) (t : Target) → IsUsable fs t → target_faults fs t ≡ []
unfolding target_faults
target_faults_usable fs t ((info, p, dir), (reads, q), dirs) =
    ground (arith, missing_dirs_found fs (clean t.base) t.dirs dirs)

append_none : (xs ys : List Error) → xs ++ ys ≡ [] → (xs ≡ []) × (ys ≡ [])
append_none [] ys h = (refl, h)
append_none (x ∷ xs) ys h = cc

all_faults_none :
    (fs : FileSystem) (ts : List Target) → all_faults fs ts ≡ [] → All (IsUsable fs) ts
unfolding all_faults
all_faults_none fs [] h = tt
all_faults_none fs (t ∷ ts) h =
    let (here, later) = append_none (target_faults fs t) (all_faults fs ts) h in
    (target_faults_none fs t here, all_faults_none fs ts later)

all_faults_usable :
    (fs : FileSystem) (ts : List Target) → All (IsUsable fs) ts → all_faults fs ts ≡ []
unfolding all_faults
all_faults_usable fs [] h = refl
all_faults_usable fs (t ∷ ts) (h, hs) = rw (target_faults_usable fs t h, all_faults_usable fs ts hs)

validate_none :
    (fs : FileSystem) (ts : List Target) → validate_targets fs ts ≡ none → all_faults fs ts ≡ []
unfolding validate_targets
validate_none fs ts h = ground arith

-- `validateTargets` returns nil exactly when the base of every target is a directory that opens and
-- every explicit directory can be stat-ed below it.
pub validate_targets_iff :
    (fs : FileSystem) (ts : List Target) → (validate_targets fs ts ≡ none) ↔ All (IsUsable fs) ts
unfolding validate_targets
validate_targets_iff fs ts =
    (λ h. all_faults_none fs ts (validate_none fs ts h), λ h. rw (all_faults_usable fs ts h))
