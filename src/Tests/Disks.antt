-- ===== src/Tests/Disks.antt =====
-- A disk of texts under numbered paths, on which a replacement of the path 9 fails.
use bbtidy.Base.{
  ◌+◌, ◌||◌, ℕ, ◌≡◌, refl, Option, none, some, true, false, List, [], ◌∷◌, ◌==◌, if◌then◌else◌,
  arith, All,
}
use bbtidy.Text.{Text, text, text_eq}
use bbtidy.Transaction.Disk.{system, Io, done, failed, Metadata, Disk, DiskLaws}
use bbtidy.Transaction.Commit.{
  TemporaryFile, PendingWrite, aborted, validate_source, commit_item, validated_item, moved_item,
  rollback_item, validated_back, moved_back, synced_back, rollback, drop_temporary, drop_items,
  abort, after_item, commit_loop, commit,
}
use bbtidy.Transaction.Items.{Staged}
use bbtidy.Transaction.Rollback.{Disjoint}
use bbtidy.Transaction.Atomic.{Final, commit_atomic}

abbrev Files : Type 0
Files = ℕ → Option Text

abbrev read : Option Text → Io ℕ Text
read none = failed (system (text "ENOENT"))
read (some t) = done t

abbrev metadata : Option Text → Io ℕ Metadata
metadata none = failed (system (text "ENOENT"))
metadata (some t) = done (record { is_file = true; readonly = false })

abbrev moved : ℕ → ℕ → Files → Files
moved a b w p = if p == b then w a else if p == a then none else w p

abbrev numbered : Disk Files ℕ
numbered = record {
  symlink_metadata = λ p w. metadata (w p);
  read_to_string = λ p w. read (w p);
  replace = λ a b w. if b == 9 then (w, failed (system (text "EIO"))) else (moved a b w, done tt);
  sync_parent = λ a w. (w, done tt);
  remove_file = λ a w. (λ p. if p == a then none else w p, done tt);
}

numbered_laws : DiskLaws Files ℕ numbered
numbered_laws = record {
  replace_moves = λ a b w e. ground arith;
  replace_frame = λ a b p w x y. ground arith;
  replace_failed = λ a b p w x e. ground arith;
  sync_parent_frame = λ a p w. refl;
  remove_frame = λ a p w x. ground arith;
}

abbrev temporary : ℕ → TemporaryFile ℕ
temporary p = record { path = p; owned = true }

abbrev write : ℕ → PendingWrite ℕ
write p = record {
  path = p;
  original = text "old";
  replacement = text "new";
  output = temporary (p + 1);
  backup = temporary (p + 2);
}

-- Two sources, 3 and 9, with their temporary files behind them.
abbrev pending : List (PendingWrite ℕ)
pending = write 3 ∷ write 9 ∷ []

abbrev staged : Files
staged p =
    if (p == 4) || (p == 10)
    then some (text "new")
    else if (p == 3) || (p == 9) || (p == 5) || (p == 11)
    then some (text "old")
    else none

staged-Staged : All (Staged numbered staged) pending
staged-Staged = (
  record {
    output_reads = refl;
    backup_reads = refl;
    output_ne_path = omega arith;
    backup_ne_path = omega arith;
    backup_ne_output = omega arith;
  },
  (
    record {
      output_reads = refl;
      backup_reads = refl;
      output_ne_path = omega arith;
      backup_ne_path = omega arith;
      backup_ne_output = omega arith;
    },
    tt,
  ),
)

pending-Disjoint : Disjoint pending
pending-Disjoint = omega arith

-- The second replacement fails, and the first one is taken back.
fails : (commit numbered (λ p. 0) pending staged).1 ≡ aborted (system (text "EIO")) []
unfolding commit commit_loop after_item commit_item validated_item moved_item validate_source
    text_eq abort rollback rollback_item validated_back moved_back synced_back drop_items
    drop_temporary
fails = refl

commit_atomic_example :
    All
      (Final numbered numbered_laws (λ p. 0) staged (commit numbered (λ p. 0) pending staged))
      pending
commit_atomic_example =
    commit_atomic numbered numbered_laws (λ p. 0) pending staged staged-Staged pending-Disjoint
