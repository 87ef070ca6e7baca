-- ===== src/Transaction/Atomic.antt =====
-- The commit of src/transaction.rs replaces every source, or leaves every source as it was and
-- reports those that it could not restore.
use bbtidy.Base.{
  ◌≢◌, refl, sym, ◌∙◌, subst, ◌⊎◌, inl, inr, List, [], ◌∷◌, ◌++◌, reverse, All, All-append,
  All-reverse, All-map, All-zip, All-swap,
}
use bbtidy.Text.{Text}
use bbtidy.Transaction.Disk.{IoError, done, failed, Disk, DiskLaws}
use bbtidy.Transaction.Commit.{
  PendingWrite, RecoveryError, not_restored, CommitResult, committed, aborted, ItemResult, refused,
  replaced, give_up, commit_item, rollback, drop_items, abort, finish, after_item, commit_loop,
  commit,
}
use bbtidy.Transaction.Items.{
  Avoids, Listed, Reads, SameAt, Staged, Replaced, Committed, commit_item-Committed,
  commit_item-SameAt,
}
use bbtidy.Transaction.Rollback.{
  Apart, Apart-sym, Disjoint, Safe, GivenUp, GivenUp-Safe, drop_items-SameAt, clean_up-SameAt,
  rollback-SameAt, RestoredIn, Replaced-SameAt, rollback-Restored,
}

module _ {FilePath : Type 0} where
  -- What holds of an item and itself, and of items that are apart, holds of all pairs of a list.
  pairs :
      (D : PendingWrite FilePath → Type 0)
      (R : PendingWrite FilePath → PendingWrite FilePath → Type 0)
      → ((i : PendingWrite FilePath) → D i → R i i)
      → ((i j : PendingWrite FilePath) → Apart i j → R i j)
      → (is : List (PendingWrite FilePath)) → All D is
      → Disjoint is
      → All (λ i. All (R i) is) is
  pairs D R self other [] d a = tt
  pairs D R self other (i ∷ is) d a = (
    (self i d.0, All-map is (λ j p. other i j p) a.0),
    All-zip is (λ j p q. (p, q)) (All-map is (λ j p. other j i (Apart-sym p)) a.0)
        (pairs D R self other is d.1 a.1),
  )

  Apart-Safe : (i j : PendingWrite FilePath) → Apart i j → Safe i.path j
  Apart-Safe i j a = (λ _. a.path_avoids.ne_output, λ _. a.path_avoids.ne_backup)

module _ {W FilePath : Type 0} (disk : Disk W FilePath) (laws : DiskLaws W FilePath disk)
    (parent_of : FilePath → FilePath) (w0 : W) where
  -- A source in the end: replaced by a commit; after an abort it reads as at the beginning, or its
  -- original is in the backup that the report names.
  abbrev Ends : W × CommitResult FilePath → FilePath → Text → Text → FilePath → Type 0
  Ends (w, committed errors) path original replacement backup = Reads disk w path replacement
  Ends (w, aborted e errors) path original replacement backup =
      SameAt disk path w0 w
      ⊎ ((e' : IoError FilePath) × Listed (not_restored path e' backup) errors
          × Reads disk w backup original)

  abbrev pub Final : W × CommitResult FilePath → PendingWrite FilePath → Type 0
  Final r i = Ends r i.path i.original i.replacement i.backup.path

  abbrev Distinct : PendingWrite FilePath → Type 0
  Distinct i = (i.path ≢ i.output.path) × (i.path ≢ i.backup.path)

  -- The items that are committed, and those that are not, with the disk in between.
  record Loop (w : W) (before items : List (PendingWrite FilePath)) : Type 0 where
    before_replaced : All (Replaced disk w) before
    before_original : All (λ (i : PendingWrite FilePath). Reads disk w0 i.path i.original) before
    before_given : All GivenUp before
    before_apart : Disjoint before
    items_same : All (λ (i : PendingWrite FilePath). SameAt disk i.path w0 w) items
    items_distinct : All Distinct items
    items_apart : Disjoint items
    crossing : All (λ i. All (Apart i) before) items

  abort-Final :
      (e : IoError FilePath) (before after : List (PendingWrite FilePath)) (w : W)
      → Loop w before after
      → All (Final (abort disk parent_of e before after w)) before
        × All (Final (abort disk parent_of e before after w)) after
  unfolding abort
  abort-Final e before after w l =
      let back : W × List (RecoveryError FilePath) = rollback disk parent_of before w in
      let dropped : (p : FilePath)
          → All (Safe p) after
          → SameAt disk p back.0 (drop_items disk (reverse before ++ after) back.0) =
        λ p s. drop_items-SameAt disk laws parent_of p (reverse before ++ after) back.0 (
          All-append (Safe p) (reverse before) after
            (All-reverse (Safe p) before (All-map before (GivenUp-Safe p) l.before_given)) s) in
      let known : All
          (λ (i : PendingWrite FilePath).
            Reads disk w0 i.path i.original × All (λ (j : PendingWrite FilePath). Apart j i) after)
          before =
        All-zip before (λ i o c. (o, c)) l.before_original
          (All-swap Apart after before l.crossing) in
      let same : All (λ (j : PendingWrite FilePath). SameAt disk j.path w0 w × All (Apart j) before)
          after =
        All-zip after (λ j o c. (o, c)) l.items_same l.crossing in
      (
        All-zip before
            (λ i r x.
              restored i e back _ r x.0
                (dropped i.path (All-map after (λ j a. Apart-Safe i j (Apart-sym a)) x.1))
                (dropped i.backup.path (All-map after (λ j a. backup-Safe i j (Apart-sym a)) x.1)))
            (rollback-Restored disk laws parent_of before w l.before_replaced l.before_apart) known,
        All-zip after
            (λ j x s. inl (
              dropped j.path s
              ∙ rollback-SameAt disk laws parent_of j.path before w
                  (All-map before (λ i a. a.path_avoids) x.1)
              ∙ x.0))
            same
            (pairs Distinct (λ i j. Safe i.path j) (λ i d. (λ _. d.0, λ _. d.1)) Apart-Safe after
              l.items_distinct l.items_apart),
      )
    where
      backup-Safe : (i j : PendingWrite FilePath) → Apart i j → Safe i.backup.path j
      backup-Safe i j a = (λ _. a.backup_avoids.ne_output, λ _. a.backup_avoids.ne_backup)

      restored :
          (i : PendingWrite FilePath) (x : IoError FilePath)
          (back : W × List (RecoveryError FilePath)) (w2 : W)
          → RestoredIn disk laws parent_of back i
          → Reads disk w0 i.path i.original
          → SameAt disk i.path back.0 w2
          → SameAt disk i.backup.path back.0 w2
          → Final (w2, aborted x back.1) i
      restored i x back w2 (inl r) o p b = inl (p ∙ r ∙ sym o)
      restored i x back w2 (inr (e', r, k)) o p b = inr (e', r, b ∙ k)

  finish-Final :
      (before : List (PendingWrite FilePath)) (w : W)
      → Loop w before []
      → All (Final (finish disk parent_of before w)) before
  unfolding finish
  finish-Final before w l =
      All-zip before
        (λ i r s.
          drop_items-SameAt disk laws parent_of i.path (reverse before) _
            (All-reverse (Safe i.path) before (All-map before (GivenUp-Safe i.path) l.before_given))
          ∙ clean_up-SameAt disk laws parent_of i.path (reverse before) w
              (All-reverse (λ (j : PendingWrite FilePath). i.path ≢ j.backup.path) before s)
          ∙ r.path_reads)
        l.before_replaced
        (pairs (Replaced disk w) (λ i j. i.path ≢ j.backup.path) (λ i r e. r.backup_apart (sym e))
          (λ i j a. a.path_avoids.ne_backup) before l.before_replaced l.before_apart)

  -- The loop's state behind an item that was replaced.
  Loop-step :
      (w w1 : W) (item : PendingWrite FilePath) (before items : List (PendingWrite FilePath))
      → ((p : FilePath) → Avoids p item → SameAt disk p w w1)
      → Reads disk w item.path item.original
      → Replaced disk w1 (give_up item)
      → Loop w before (item ∷ items)
      → Loop w1 (give_up item ∷ before) items
  Loop-step w w1 item before items frame original r l = record {
    before_replaced = (
      r,
      All-zip before
          (λ i x a.
            Replaced-SameAt disk laws parent_of i w w1 (frame i.path (Apart-sym a).path_avoids)
              (frame i.backup.path (Apart-sym a).backup_avoids) x)
          l.before_replaced l.crossing.0,
    );
    before_original = (sym l.items_same.0 ∙ original, l.before_original);
    before_given = ((refl, refl), l.before_given);
    before_apart = (All-map before (λ i a. given a) l.crossing.0, l.before_apart);
    items_same =
        All-zip items (λ j s a. frame j.path (Apart-sym a).path_avoids ∙ s) l.items_same.1
          l.items_apart.0;
    items_distinct = l.items_distinct.1;
    items_apart = l.items_apart.1;
    crossing = All-zip items (λ j a c. (Apart-sym (given a), c)) l.items_apart.0 l.crossing.1;
  }
    where
      given : {j : PendingWrite FilePath} → Apart item j → Apart (give_up item) j
      given a = record {
        path_avoids = a.path_avoids;
        output_avoids = a.output_avoids;
        backup_avoids = a.backup_avoids;
      }

  Staged-frame :
      (w w1 : W) (item : PendingWrite FilePath) (items : List (PendingWrite FilePath))
      → ((p : FilePath) → Avoids p item → SameAt disk p w w1)
      → All (Apart item) items
      → All (Staged disk w) items
      → All (Staged disk w1) items
  Staged-frame w w1 item items frame a s =
      All-zip items
        (λ j p x. record {
          output_reads = frame j.output.path (Apart-sym p).output_avoids ∙ x.output_reads;
          backup_reads = frame j.backup.path (Apart-sym p).backup_avoids ∙ x.backup_reads;
          output_ne_path = x.output_ne_path;
          backup_ne_path = x.backup_ne_path;
          backup_ne_output = x.backup_ne_output;
        })
        a s

  Loop-same :
      (w w1 : W) (before items : List (PendingWrite FilePath))
      → ((p : FilePath) → SameAt disk p w w1)
      → Loop w before items
      → Loop w1 before items
  Loop-same w w1 before items same l = record {
    before_replaced =
        All-map before
          (λ i r. Replaced-SameAt disk laws parent_of i w w1 (same i.path) (same i.backup.path) r)
          l.before_replaced;
    before_original = l.before_original;
    before_given = l.before_given;
    before_apart = l.before_apart;
    items_same = All-map items (λ i s. same i.path ∙ s) l.items_same;
    items_distinct = l.items_distinct;
    items_apart = l.items_apart;
    crossing = l.crossing;
  }

  abbrev Finals :
      W × CommitResult FilePath
      → List (PendingWrite FilePath)
      → List (PendingWrite FilePath)
      → Type 0
  Finals r before items = All (Final r) before × All (Final r) items

  after_item-Finals :
      (item : PendingWrite FilePath) (before items : List (PendingWrite FilePath)) (w : W)
      (next : PendingWrite FilePath → W → W × CommitResult FilePath) (r : W × ItemResult FilePath)
      → Committed disk laws parent_of w item r
      → ((p : FilePath) → Avoids p item → SameAt disk p w r.0)
      → All (Staged disk w) items
      → Loop w before (item ∷ items)
      → ((w1 : W)
          → All (Staged disk w1) items
          → Loop w1 (give_up item ∷ before) items
          → Finals (next (give_up item) w1) (give_up item ∷ before) items)
      → Finals (after_item disk parent_of item before items next r) before (item ∷ items)
  unfolding after_item
  after_item-Finals item before items w next (w1, refused e) c frame s l ih =
      abort-Final e before (item ∷ items) w1 (Loop-same w w1 before (item ∷ items) c l)
  after_item-Finals item before items w next (w1, replaced item' (failed e)) (eq, o, r) frame s l
        ih =
      let (f, g) =
        subst
          (λ i. Finals (abort disk parent_of e (i ∷ before) items w1) (give_up item ∷ before) items)
          (sym eq)
          (abort-Final e (give_up item ∷ before) items w1
            (Loop-step w w1 item before items frame o r l)) in
      (f.1, (f.0, g))
  after_item-Finals item before items w next (w1, replaced item' (done u)) (eq, o, r) frame s l ih =
      let (f, g) =
        subst (λ i. Finals (next i w1) (give_up item ∷ before) items) (sym eq)
          (ih w1 (Staged-frame w w1 item items frame l.items_apart.0 s)
            (Loop-step w w1 item before items frame o r l)) in
      (f.1, (f.0, g))

  commit_loop-Finals :
      (before items : List (PendingWrite FilePath)) (w : W)
      → All (Staged disk w) items
      → Loop w before items
      → Finals (commit_loop disk parent_of before items w) before items
  unfolding commit_loop
  commit_loop-Finals before [] w s l = (finish-Final before w l, tt)
  commit_loop-Finals before (item ∷ items) w s l =
      after_item-Finals item before items w _ (commit_item disk parent_of item w)
        (commit_item-Committed disk laws parent_of item w s.0)
        (λ p a. commit_item-SameAt disk laws parent_of item w p a) s.1 l
        (λ w1 s1 l1. commit_loop-Finals (give_up item ∷ before) items w1 s1 l1)

-- A commit of staged writes whose paths are all different, whatever operations of the file system
-- fail: if it commits, every source reads as its replacement, also where backups could not be
-- cleaned up; if it aborts, every source reads as before the commit, or the report lists it with
-- a backup that still holds its original text.
pub commit_atomic :
    {W FilePath : Type 0} (disk : Disk W FilePath) (laws : DiskLaws W FilePath disk)
    (parent_of : FilePath → FilePath) (pending : List (PendingWrite FilePath)) (w : W)
    → All (Staged disk w) pending
    → Disjoint pending
    → All (Final disk laws parent_of w (commit disk parent_of pending w)) pending
unfolding commit
commit_atomic disk laws parent_of pending w s d =
    (commit_loop-Finals disk laws parent_of w [] pending w s (record {
      before_replaced = tt;
      before_original = tt;
      before_given = tt;
      before_apart = tt;
      items_same = All-map pending (λ i x. refl) s;
      items_distinct =
          All-map pending (λ i x. (λ e. x.output_ne_path (sym e), λ e. x.backup_ne_path (sym e))) s;
      items_apart = d;
      crossing = All-map pending (λ i x. tt) s;
    })).1
