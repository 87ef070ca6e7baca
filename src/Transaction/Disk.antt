-- ===== src/Transaction/Disk.antt =====
-- The file system that src/transaction.rs calls: the trait `CommitFilesystem`, the functions of
-- `std::fs`, and what the code relies on of them.
use bbtidy.Base.{◌≡◌, ◌≢◌, ◌⊎◌, inl, inr, refl, Bool}
use bbtidy.Text.{Text}

-- The errors of a path that the code itself raises, and those of the system by their code.
pub data IoError (FilePath : Type 0) : Type 0 where
  not_regular read_only changed no_file_name : FilePath → IoError FilePath
  not_allocated : IoError FilePath
  system : Text → IoError FilePath

pub data Io (FilePath A : Type 0) : Type 0 where
  done : A → Io FilePath A
  failed : IoError FilePath → Io FilePath A

pub record Metadata : Type 0 where
  pub is_file : Bool
  pub readonly : Bool

-- An operation that changes the disk returns the disk behind it, also where it fails.
pub record Disk (W FilePath : Type 0) : Type 0 where
  pub symlink_metadata : FilePath → W → Io FilePath Metadata
  pub read_to_string : FilePath → W → Io FilePath Text
  pub replace : FilePath → FilePath → W → W × Io FilePath (Unit {0})
  pub sync_parent : FilePath → W → W × Io FilePath (Unit {0})
  pub remove_file : FilePath → W → W × Io FilePath (Unit {0})

-- What is documented of these operations: a rename puts the file of the source at the
-- destination, and touches no third path; a failed one leaves the disk as it was; a directory
-- sync changes no file; a removal touches its own path alone, and nothing if it fails.
pub record DiskLaws (W FilePath : Type 0) (disk : Disk W FilePath) : Type 0 where
  pub replace_moves :
      (a b : FilePath) (w : W)
      → (disk.replace a b w).1 ≡ done tt
      → disk.read_to_string b (disk.replace a b w).0 ≡ disk.read_to_string a w
  pub replace_frame :
      (a b p : FilePath) (w : W)
      → p ≢ a
      → p ≢ b
      → disk.read_to_string p (disk.replace a b w).0 ≡ disk.read_to_string p w
  pub replace_failed :
      (a b p : FilePath) (w : W) (e : IoError FilePath)
      → (disk.replace a b w).1 ≡ failed e
      → disk.read_to_string p (disk.replace a b w).0 ≡ disk.read_to_string p w
  pub sync_parent_frame :
      (a p : FilePath) (w : W)
      → disk.read_to_string p (disk.sync_parent a w).0 ≡ disk.read_to_string p w
  pub remove_frame :
      (a p : FilePath) (w : W)
      → p ≢ a
      → disk.read_to_string p (disk.remove_file a w).0 ≡ disk.read_to_string p w

pub Io-cases :
    {FilePath A : Type 0} (r : Io FilePath A)
    → ((a : A) × (r ≡ done a)) ⊎ ((e : IoError FilePath) × (r ≡ failed e))
Io-cases (done a) = inl (a, refl)
Io-cases (failed e) = inr (e, refl)
