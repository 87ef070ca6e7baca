-- ===== src/Transaction/Items.antt =====
-- What the commit and the rollback of one item of src/transaction.rs do to the texts on the disk.
use bbtidy.Base.{◌≡◌, ◌≢◌, refl, sym, ap, ◌∙◌, ◌⊎◌, inl, inr, List, [], ◌∷◌, arith}
use bbtidy.Text.{Text, text_eq-true}
use bbtidy.Transaction.Disk.{IoError, Io, Io-cases, done, failed, Metadata, Disk, DiskLaws}
use bbtidy.Transaction.Commit.{
  PendingWrite, RecoveryError, not_restored, ItemResult, refused, replaced, give_up, moved_item,
  validated_item, synced_back, moved_back, validated_back, validate_source, commit_item,
  rollback_item, clean_item, cleaned, removed_backup,
}

-- The path is none of the three paths of the item.
pub record Avoids {FilePath : Type 0} (p : FilePath) (item : PendingWrite FilePath) : Type 0 where
  pub ne_path : p ≢ item.path
  pub ne_output : p ≢ item.output.path
  pub ne_backup : p ≢ item.backup.path

abbrev pub Listed : {A : Type 0} → A → List A → Type 0
Listed a [] = ⊥
Listed a (x ∷ xs) = (x ≡ a) ⊎ Listed a xs

module _ {W FilePath : Type 0} (disk : Disk W FilePath) where
  abbrev pub Reads : W → FilePath → Text → Type 0
  Reads w p t = disk.read_to_string p w ≡ done t

  abbrev pub SameAt : FilePath → W → W → Type 0
  SameAt p w w' = disk.read_to_string p w' ≡ disk.read_to_string p w

  -- An item as it is staged: the temporary files hold the two texts.
  pub record Staged (w : W) (item : PendingWrite FilePath) : Type 0 where
    pub output_reads : Reads w item.output.path item.replacement
    pub backup_reads : Reads w item.backup.path item.original
    pub output_ne_path : item.output.path ≢ item.path
    pub backup_ne_path : item.backup.path ≢ item.path
    pub backup_ne_output : item.backup.path ≢ item.output.path

  -- An item behind its replacement.
  pub record Replaced (w : W) (item : PendingWrite FilePath) : Type 0 where
    pub path_reads : Reads w item.path item.replacement
    pub backup_kept : Reads w item.backup.path item.original
    pub backup_apart : item.backup.path ≢ item.path

  -- A source that passes the validation reads as expected.
  pub validate_source-Reads :
      (path : FilePath) (expected : Text) (w : W) (m : Metadata)
      → validate_source disk path expected w ≡ done m
      → Reads w path expected
  unfolding validate_source
  validate_source-Reads path expected w m e = elim (Io-cases (disk.read_to_string path w)) [
    | inl (t, r) ↦ r ∙ ap done (ground (arith, r, text_eq-true t expected))
    | inr (x, r) ↦ ground (arith, r)
  ]

  -- The outcome of an operation on the disk.
  abbrev Effect : Type 0
  Effect = W × Io FilePath (Unit {0})

  module _ (laws : DiskLaws W FilePath disk) (parent_of : FilePath → FilePath) where
    -- What the commit of an item does: nothing, or the replacement of its text.
    abbrev pub Committed : W → PendingWrite FilePath → W × ItemResult FilePath → Type 0
    Committed w item (w', refused e) = (p : FilePath) → SameAt p w w'
    Committed w item (w', replaced item' synced) =
        (item' ≡ give_up item) × Reads w item.path item.original × Replaced w' (give_up item)

    moved_item-Committed :
        (item : PendingWrite FilePath) (w : W) (r : Effect)
        → Staged w item
        → Reads w item.path item.original
        → disk.replace item.output.path item.path w ≡ r
        → Committed w item (moved_item disk parent_of item r)
    unfolding moved_item
    moved_item-Committed item w (w1, failed e) s o r = λ p.
        ap (λ (t : Effect). disk.read_to_string p t.0) (sym r)
        ∙ laws.replace_failed item.output.path item.path p w e (ap (λ (t : Effect). t.1) r)
    moved_item-Committed item w (w1, done u) s o r = (
      refl,
      o,
      record {
        path_reads = sync item.path ∙ at item.path ∙ moved ∙ s.output_reads;
        backup_kept =
            sync item.backup.path
            ∙ at item.backup.path
            ∙ laws.replace_frame item.output.path item.path item.backup.path w s.backup_ne_output
                s.backup_ne_path
            ∙ s.backup_reads;
        backup_apart = s.backup_ne_path;
      },
    )
      where
        at :
            (p : FilePath)
            → disk.read_to_string p w1
              ≡ disk.read_to_string p (disk.replace item.output.path item.path w).0
        at p = ap (λ (t : Effect). disk.read_to_string p t.0) (sym r)

        sync : (p : FilePath) → SameAt p w1 (disk.sync_parent (parent_of item.path) w1).0
        sync p = laws.sync_parent_frame (parent_of item.path) p w1

        moved :
            disk.read_to_string item.path (disk.replace item.output.path item.path w).0
            ≡ disk.read_to_string item.output.path w
        moved = laws.replace_moves item.output.path item.path w (ap (λ (t : Effect). t.1) r)

    validated_item-Committed :
        (item : PendingWrite FilePath) (w : W) (r : Io FilePath Metadata)
        → Staged w item
        → validate_source disk item.path item.original w ≡ r
        → Committed w item (validated_item disk parent_of item w r)
    unfolding validated_item
    validated_item-Committed item w (failed e) s r = λ p. refl
    validated_item-Committed item w (done m) s r =
        moved_item-Committed item w _ s (validate_source-Reads item.path item.original w m r) refl

    pub commit_item-Committed :
        (item : PendingWrite FilePath) (w : W)
        → Staged w item
        → Committed w item (commit_item disk parent_of item w)
    unfolding commit_item
    commit_item-Committed item w s = validated_item-Committed item w _ s refl

    -- An item that is rolled back reads as before, or it is listed and its original is in the backup.
    abbrev pub Restored : PendingWrite FilePath → W × List (RecoveryError FilePath) → Type 0
    Restored item (w, errors) =
        Reads w item.path item.original
        ⊎ ((e : IoError FilePath) × Listed (not_restored item.path e item.backup.path) errors
            × Reads w item.backup.path item.original)

    moved_back-Restored :
        (item : PendingWrite FilePath) (w : W) (r : Effect)
        → Replaced w item
        → disk.replace item.backup.path item.path w ≡ r
        → Restored item (moved_back disk parent_of item r)
    unfolding moved_back synced_back
    moved_back-Restored item w (w1, failed e) s r = inr (
      e,
      inl refl,
      ap (λ (t : Effect). disk.read_to_string item.backup.path t.0) (sym r)
          ∙ laws.replace_failed item.backup.path item.path item.backup.path w e
              (ap (λ (t : Effect). t.1) r)
          ∙ s.backup_kept,
    )
    moved_back-Restored item w (w1, done u) s r =
        synced (disk.sync_parent (parent_of item.path) w1) refl
      where
        moved : Reads w1 item.path item.original
        moved =
            ap (λ (t : Effect). disk.read_to_string item.path t.0) (sym r)
            ∙ laws.replace_moves item.backup.path item.path w (ap (λ (t : Effect). t.1) r)
            ∙ s.backup_kept

        synced :
            (q : Effect)
            → disk.sync_parent (parent_of item.path) w1 ≡ q
            → Restored item (synced_back disk parent_of item q)
        synced (w2, failed e) f = inl (
            ap (λ (t : Effect). disk.read_to_string item.path t.0) (sym f)
            ∙ laws.sync_parent_frame (parent_of item.path) item.path w1
            ∙ moved)
        synced (w2, done u') f = inl (
            ap (λ (t : Effect). disk.read_to_string item.path t.0) (sym f)
            ∙ laws.sync_parent_frame (parent_of item.path) item.path w1
            ∙ moved)

    validated_back-Restored :
        (item : PendingWrite FilePath) (w : W) (r : Io FilePath Metadata)
        → Replaced w item
        → Restored item (validated_back disk parent_of item w r)
    unfolding validated_back
    validated_back-Restored item w (failed e) s = inr (e, inl refl, s.backup_kept)
    validated_back-Restored item w (done m) s = moved_back-Restored item w _ s refl

    pub rollback_item-Restored :
        (item : PendingWrite FilePath) (w : W)
        → Replaced w item
        → Restored item (rollback_item disk parent_of item w)
    unfolding rollback_item
    rollback_item-Restored item w s = validated_back-Restored item w _ s

    -- The operations on an item touch its own paths alone.
    abbrev pub world : {A : Type 0} → W × A → W
    world r = r.0

    pub commit_item-SameAt :
        (item : PendingWrite FilePath) (w : W) (p : FilePath)
        → Avoids p item
        → SameAt p w (world (commit_item disk parent_of item w))
    unfolding commit_item validated_item moved_item
    commit_item-SameAt item w p a = validated (validate_source disk item.path item.original w)
      where
        moved :
            (r : Effect) → SameAt p w r.0 → SameAt p w (world (moved_item disk parent_of item r))
        moved (w1, failed e) s = s
        moved (w1, done u) s = laws.sync_parent_frame (parent_of item.path) p w1 ∙ s

        validated :
            (r : Io FilePath Metadata) → SameAt p w (world (validated_item disk parent_of item w r))
        validated (failed e) = refl
        validated (done m) =
            moved (disk.replace item.output.path item.path w)
              (laws.replace_frame item.output.path item.path p w a.ne_output a.ne_path)

    pub rollback_item-SameAt :
        (item : PendingWrite FilePath) (w : W) (p : FilePath)
        → Avoids p item
        → SameAt p w (world (rollback_item disk parent_of item w))
    unfolding rollback_item validated_back moved_back synced_back
    rollback_item-SameAt item w p a = validated (validate_source disk item.path item.replacement w)
      where
        synced :
            (r : Effect) → SameAt p w r.0 → SameAt p w (world (synced_back disk parent_of item r))
        synced (w2, failed e) s = s
        synced (w2, done u) s = s

        moved :
            (r : Effect) → SameAt p w r.0 → SameAt p w (world (moved_back disk parent_of item r))
        moved (w1, failed e) s = s
        moved (w1, done u) s =
            synced (disk.sync_parent (parent_of item.path) w1)
              (laws.sync_parent_frame (parent_of item.path) p w1 ∙ s)

        validated :
            (r : Io FilePath Metadata) → SameAt p w (world (validated_back disk parent_of item w r))
        validated (failed e) = refl
        validated (done m) =
            moved (disk.replace item.backup.path item.path w)
              (laws.replace_frame item.backup.path item.path p w a.ne_backup a.ne_path)

    pub clean_item-SameAt :
        (item : PendingWrite FilePath) (w : W) (p : FilePath)
        → p ≢ item.backup.path
        → SameAt p w (world (clean_item disk parent_of item w))
    unfolding clean_item
    clean_item-SameAt item w p a =
        removed (disk.remove_file item.backup.path w) (laws.remove_frame item.backup.path p w a)
      where
        synced : (r : Effect) → SameAt p w r.0 → SameAt p w (world (cleaned disk parent_of item r))
        synced (w2, failed e) s = s
        synced (w2, done u) s = s

        removed :
            (r : Effect)
            → SameAt p w r.0
            → SameAt p w (world (removed_backup disk parent_of item r))
        removed (w1, failed e) s = s
        removed (w1, done u) s =
            synced (disk.sync_parent (parent_of item.path) w1)
              (laws.sync_parent_frame (parent_of item.path) p w1 ∙ s)
