-- ===== src/Go/Os.antt =====
-- The file system as the program sees it through package os. Each call is a function: during one
-- scan it answers alike however often it is asked.
use directory_exporter.Common.{
  ◌≡◌, ◌⊎◌, inl, inr, refl, ℤ, Bool, true, false, List, Bytes, Error, Option,
}

-- A value and a nil error, or an error.
pub data Result {ℓ} (A : Type ℓ) : Type ℓ where
  ok : A → Result A
  err : Error → Result A

-- What `Stat` tells: whether it is a directory, and `ModTime().Unix()`.
pub record FileInfo : Type 0 where
  pub is_dir : Bool
  pub mod_time : ℤ

-- The type bits of a directory entry; `other` stands for devices, pipes and sockets.
pub data EntryType : Type 0 where
  regular directory symlink other : EntryType

pub record DirEntry : Type 0 where
  pub name : Bytes
  pub entry_type : EntryType
  -- the modification time that `Info` gives, if it gives one
  pub info : Option ℤ

-- `e.Type() & os.ModeSymlink != 0`.
abbrev pub is_symlink : DirEntry → Bool
is_symlink e = elim e.entry_type [ symlink ↦ true | _ ↦ false ]

-- `e.IsDir()`.
abbrev pub is_dir_entry : DirEntry → Bool
is_dir_entry e = elim e.entry_type [ directory ↦ true | _ ↦ false ]

-- One call of `f.ReadDir(n)` on an open directory: its entries, and whether it returned an error.
pub record Read : Type 0 where
  pub entries : List DirEntry
  pub failed : Bool

pub record FileSystem : Type 0 where
  pub stat : Bytes → Result FileInfo
  -- the reads that an opened directory answers with; behind them comes the end of the directory
  pub open_dir : Bytes → Result (List Read)
  -- `os.ReadDir`: all the entries, in the order of their names
  pub read_dir : Bytes → Result (List DirEntry)
  pub read_file : Bytes → Result Bytes
  pub eval_symlinks : Bytes → Result Bytes

pub Result-cases {ℓ} :
    {A : Type ℓ} (r : Result A) → ((e : Error) × (r ≡ err e)) ⊎ ((a : A) × (r ≡ ok a))
Result-cases (err e) = inl (e, refl)
Result-cases (ok a) = inr (a, refl)

-- `v, err := r; if err != nil { return err }; step(v)`
infixl 5 ◌>>=◌
abbrev pub ◌>>=◌ {ℓ κ} : {V : Type ℓ} {W : Type κ} → Result V → (V → Result W) → Result W
r >>= step = elim r [ err message ↦ err message | ok value ↦ step value ]

-- Where the whole has a value, the first call had one, and the step had one at it.
pub ok_steps {ℓ κ} :
    {V : Type ℓ} {W : Type κ} (r : Result V) (step : V → Result W) (w : W)
    → (r >>= step) ≡ ok w
    → (value : V) × (r ≡ ok value) × (step value ≡ ok w)
ok_steps (err message) step w whole = absurd (cc whole)
ok_steps (ok value) step w whole = (value, refl, whole)
