-- ===== src/Transaction/Commit.antt =====
-- src/transaction.rs: the commit of staged writes, its rollback and the removal of temporary
-- files. The `for` loops are recursions on the items; the committed items are kept last first,
-- which is the order of the rollback.
use bbtidy.Base.{Bool, false, not, List, [], ◌∷◌, ◌++◌, reverse, if◌then◌else◌}
use bbtidy.Text.{Text, text_eq}
use bbtidy.Transaction.Disk.{
  IoError, not_regular, read_only, changed, Io, done, failed, Metadata, Disk,
}

pub record TemporaryFile (FilePath : Type 0) : Type 0 where
  pub path : FilePath
  pub owned : Bool

pub record PendingWrite (FilePath : Type 0) : Type 0 where
  pub path : FilePath
  pub original : Text
  pub replacement : Text
  pub output : TemporaryFile FilePath
  pub backup : TemporaryFile FilePath

-- What a failed rollback reports of an item.
pub data RecoveryError (FilePath : Type 0) : Type 0 where
  sync_failed : FilePath → IoError FilePath → RecoveryError FilePath
  -- the path, why it was not restored, and where the original is preserved
  not_restored : FilePath → IoError FilePath → FilePath → RecoveryError FilePath

-- `committed []` is `Ok(())`; `committed` with backups that were not cleaned up is an error, and
-- so is `aborted`, whose second part is empty if the rollback succeeded.
pub data CommitResult (FilePath : Type 0) : Type 0 where
  committed : List (FilePath × IoError FilePath) → CommitResult FilePath
  aborted : IoError FilePath → List (RecoveryError FilePath) → CommitResult FilePath

-- How the closure of the loop of `commit_with` ends for an item: an error before the item counts
-- as committed, or the item with its temporary files given up and the result of the sync.
pub data ItemResult (FilePath : Type 0) : Type 0 where
  refused : IoError FilePath → ItemResult FilePath
  replaced : PendingWrite FilePath → Io FilePath (Unit {0}) → ItemResult FilePath

abbrev pub give_up : {FilePath : Type 0} → PendingWrite FilePath → PendingWrite FilePath
give_up item = record item {
  output = record { path = item.output.path; owned = false };
  backup = record { path = item.backup.path; owned = false };
}

module _ {W FilePath : Type 0} (disk : Disk W FilePath) where
  unfoldable pub validate_source : FilePath → Text → W → Io FilePath Metadata
  validate_source path expected w = elim (disk.symlink_metadata path w) [
    | failed e ↦ failed e
    | done metadata ↦
        if not metadata.is_file
        then failed (not_regular path)
        else if metadata.readonly
        then failed (read_only path)
        else elim (disk.read_to_string path w) [
          | failed e ↦ failed e
          | done contents ↦
              if not (text_eq contents expected) then failed (changed path) else done metadata
        ]
  ]

  -- `Drop` of a temporary file: a file that is still owned is removed, and errors are ignored.
  unfoldable pub drop_temporary : TemporaryFile FilePath → W → W
  drop_temporary f w = if f.owned then (disk.remove_file f.path w).0 else w

  unfoldable pub drop_items : List (PendingWrite FilePath) → W → W
  drop_items [] w = w
  drop_items (item ∷ items) w =
      drop_items items (drop_temporary item.backup (drop_temporary item.output w))

module _ {W FilePath : Type 0} (disk : Disk W FilePath) (parent_of : FilePath → FilePath) where
  -- The commit of an item behind its validation, and behind its replacement.
  unfoldable pub moved_item :
      PendingWrite FilePath → W × Io FilePath (Unit {0}) → W × ItemResult FilePath
  moved_item item (w, failed e) = (w, refused e)
  moved_item item (w, done _) =
      let (w', synced) = disk.sync_parent (parent_of item.path) w in
      (w', replaced (give_up item) synced)

  unfoldable pub validated_item :
      PendingWrite FilePath → W → Io FilePath Metadata → W × ItemResult FilePath
  validated_item item w (failed e) = (w, refused e)
  validated_item item w (done _) = moved_item item (disk.replace item.output.path item.path w)

  unfoldable pub commit_item : PendingWrite FilePath → W → W × ItemResult FilePath
  commit_item item w = validated_item item w (validate_source disk item.path item.original w)

  -- The errors of the restoration of one item, behind its sync, its move and its validation.
  unfoldable pub synced_back :
      PendingWrite FilePath → W × Io FilePath (Unit {0}) → W × List (RecoveryError FilePath)
  synced_back item (w, failed e) = (w, sync_failed item.path e ∷ [])
  synced_back item (w, done _) = (w, [])

  unfoldable pub moved_back :
      PendingWrite FilePath → W × Io FilePath (Unit {0}) → W × List (RecoveryError FilePath)
  moved_back item (w, failed e) = (w, not_restored item.path e item.backup.path ∷ [])
  moved_back item (w, done _) = synced_back item (disk.sync_parent (parent_of item.path) w)

  unfoldable pub validated_back :
      PendingWrite FilePath → W → Io FilePath Metadata → W × List (RecoveryError FilePath)
  validated_back item w (failed e) = (w, not_restored item.path e item.backup.path ∷ [])
  validated_back item w (done _) = moved_back item (disk.replace item.backup.path item.path w)

  unfoldable pub rollback_item : PendingWrite FilePath → W → W × List (RecoveryError FilePath)
  rollback_item item w = validated_back item w (validate_source disk item.path item.replacement w)

  unfoldable pub rollback : List (PendingWrite FilePath) → W → W × List (RecoveryError FilePath)
  rollback [] w = (w, [])
  rollback (item ∷ items) w =
      let (w1, errors) = rollback_item item w in
      let (w2, later) = rollback items w1 in (w2, errors ++ later)

  -- The removal of the backups behind a commit.
  abbrev pub cleaned :
      PendingWrite FilePath → W × Io FilePath (Unit {0}) → W × List (FilePath × IoError FilePath)
  cleaned item (w, failed e) = (w, (item.backup.path, e) ∷ [])
  cleaned item (w, done _) = (w, [])

  abbrev pub removed_backup :
      PendingWrite FilePath → W × Io FilePath (Unit {0}) → W × List (FilePath × IoError FilePath)
  removed_backup item (w, failed e) = (w, (item.backup.path, e) ∷ [])
  removed_backup item (w, done _) = cleaned item (disk.sync_parent (parent_of item.path) w)

  unfoldable pub clean_item : PendingWrite FilePath → W → W × List (FilePath × IoError FilePath)
  clean_item item w = removed_backup item (disk.remove_file item.backup.path w)

  unfoldable pub clean_up :
      List (PendingWrite FilePath) → W → W × List (FilePath × IoError FilePath)
  clean_up [] w = (w, [])
  clean_up (item ∷ items) w =
      let (w1, errors) = clean_item item w in
      let (w2, later) = clean_up items w1 in (w2, errors ++ later)

  -- The rollback behind an error, and the drop of all items at the return.
  unfoldable pub abort :
      IoError FilePath
      → List (PendingWrite FilePath)
      → List (PendingWrite FilePath)
      → W
      → W × CommitResult FilePath
  abort e before after w =
      let (w1, errors) = rollback before w in
      (drop_items disk (reverse before ++ after) w1, aborted e errors)

  unfoldable pub finish : List (PendingWrite FilePath) → W → W × CommitResult FilePath
  finish before w =
      let (w1, errors) = clean_up (reverse before) w in
      (drop_items disk (reverse before) w1, committed errors)

  -- How the loop goes on behind an item; `next` is its next round.
  unfoldable pub after_item :
      PendingWrite FilePath
      → List (PendingWrite FilePath)
      → List (PendingWrite FilePath)
      → (PendingWrite FilePath → W → W × CommitResult FilePath)
      → W × ItemResult FilePath
      → W × CommitResult FilePath
  after_item item before items next (w, refused e) = abort e before (item ∷ items) w
  after_item item before items next (w, replaced item' (failed e)) =
      abort e (item' ∷ before) items w
  after_item item before items next (w, replaced item' (done _)) = next item' w

  unfoldable pub commit_loop :
      List (PendingWrite FilePath) → List (PendingWrite FilePath) → W → W × CommitResult FilePath
  commit_loop before [] w = finish before w
  commit_loop before (item ∷ items) w =
      after_item item before items (λ item' w1. commit_loop (item' ∷ before) items w1)
        (commit_item item w)

  unfoldable pub commit : List (PendingWrite FilePath) → W → W × CommitResult FilePath
  commit pending w = commit_loop [] pending w
