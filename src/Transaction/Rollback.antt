-- ===== src/Transaction/Rollback.antt =====
-- The rollback, the clean-up and the drops of src/transaction.rs over lists of items.
use bbtidy.Base.{
  ◌≡◌, ◌≢◌, refl, sym, ◌∙◌, Bool, true, false, inl, inr, List, [], ◌∷◌, ◌++◌, All, All-map, All-zip,
  if◌then◌else◌,
}
use bbtidy.Transaction.Disk.{Disk, DiskLaws}
use bbtidy.Transaction.Commit.{
  TemporaryFile, PendingWrite, RecoveryError, rollback_item, rollback, drop_temporary, drop_items,
  clean_up,
}
use bbtidy.Transaction.Items.{
  Avoids, Listed, SameAt, Replaced, Restored, rollback_item-Restored, rollback_item-SameAt,
  clean_item-SameAt,
}

module _ {FilePath : Type 0} where
  -- No path of one item is a path of the other.
  pub record Apart (i j : PendingWrite FilePath) : Type 0 where
    pub path_avoids : Avoids i.path j
    pub output_avoids : Avoids i.output.path j
    pub backup_avoids : Avoids i.backup.path j

  pub Apart-sym : {i j : PendingWrite FilePath} → Apart i j → Apart j i
  Apart-sym a = record {
    path_avoids = record {
      ne_path = λ e. a.path_avoids.ne_path (sym e);
      ne_output = λ e. a.output_avoids.ne_path (sym e);
      ne_backup = λ e. a.backup_avoids.ne_path (sym e);
    };
    output_avoids = record {
      ne_path = λ e. a.path_avoids.ne_output (sym e);
      ne_output = λ e. a.output_avoids.ne_output (sym e);
      ne_backup = λ e. a.backup_avoids.ne_output (sym e);
    };
    backup_avoids = record {
      ne_path = λ e. a.path_avoids.ne_backup (sym e);
      ne_output = λ e. a.output_avoids.ne_backup (sym e);
      ne_backup = λ e. a.backup_avoids.ne_backup (sym e);
    };
  }

  -- The items of a transaction are apart from one another.
  abbrev pub Disjoint : List (PendingWrite FilePath) → Type 0
  Disjoint [] = Unit
  Disjoint (i ∷ is) = All (Apart i) is × Disjoint is

  -- The removal of the temporary files that the item owns does not touch the path.
  abbrev pub Safe : FilePath → PendingWrite FilePath → Type 0
  Safe p i =
      (i.output.owned ≡ true → p ≢ i.output.path) × (i.backup.owned ≡ true → p ≢ i.backup.path)

  abbrev pub GivenUp : PendingWrite FilePath → Type 0
  GivenUp i = (i.output.owned ≡ false) × (i.backup.owned ≡ false)

  pub GivenUp-Safe : (p : FilePath) (i : PendingWrite FilePath) → GivenUp i → Safe p i
  GivenUp-Safe p i g = (λ e. cc, λ e. cc)

  Listed-append :
      (a : RecoveryError FilePath) (xs ys : List (RecoveryError FilePath))
      → Listed a ys
      → Listed a (xs ++ ys)
  Listed-append a [] ys l = l
  Listed-append a (x ∷ xs) ys l = inr (Listed-append a xs ys l)

  Listed-append_left :
      (a : RecoveryError FilePath) (xs ys : List (RecoveryError FilePath))
      → Listed a xs
      → Listed a (xs ++ ys)
  Listed-append_left a [] ys l = absurd l
  Listed-append_left a (x ∷ xs) ys (inl e) = inl e
  Listed-append_left a (x ∷ xs) ys (inr l) = inr (Listed-append_left a xs ys l)

module _ {W FilePath : Type 0} (disk : Disk W FilePath) (laws : DiskLaws W FilePath disk)
    (parent_of : FilePath → FilePath) where
  drop_temporary-SameAt :
      (p : FilePath) (f : TemporaryFile FilePath) (w : W)
      → (f.owned ≡ true → p ≢ f.path)
      → SameAt disk p w (drop_temporary disk f w)
  unfolding drop_temporary
  drop_temporary-SameAt p f w h = go f.owned refl
    where
      go :
          (b : Bool)
          → f.owned ≡ b
          → SameAt disk p w (if b then (disk.remove_file f.path w).0 else w)
      go true e = laws.remove_frame f.path p w (h e)
      go false e = refl

  pub drop_items-SameAt :
      (p : FilePath) (is : List (PendingWrite FilePath)) (w : W)
      → All (Safe p) is
      → SameAt disk p w (drop_items disk is w)
  unfolding drop_items
  drop_items-SameAt p [] w s = refl
  drop_items-SameAt p (i ∷ is) w s =
      drop_items-SameAt p is _ s.1
      ∙ drop_temporary-SameAt p i.backup _ s.0.1
      ∙ drop_temporary-SameAt p i.output w s.0.0

  pub clean_up-SameAt :
      (p : FilePath) (is : List (PendingWrite FilePath)) (w : W)
      → All (λ (i : PendingWrite FilePath). p ≢ i.backup.path) is
      → SameAt disk p w (clean_up disk parent_of is w).0
  unfolding clean_up
  clean_up-SameAt p [] w s = refl
  clean_up-SameAt p (i ∷ is) w s =
      clean_up-SameAt p is _ s.1 ∙ clean_item-SameAt disk laws parent_of i w p s.0

  pub rollback-SameAt :
      (p : FilePath) (is : List (PendingWrite FilePath)) (w : W)
      → All (Avoids p) is
      → SameAt disk p w (rollback disk parent_of is w).0
  unfolding rollback
  rollback-SameAt p [] w s = refl
  rollback-SameAt p (i ∷ is) w s =
      rollback-SameAt p is _ s.1 ∙ rollback_item-SameAt disk laws parent_of i w p s.0

  abbrev pub RestoredIn : W × List (RecoveryError FilePath) → PendingWrite FilePath → Type 0
  RestoredIn r i = Restored disk laws parent_of i r

  Restored-later :
      (i : PendingWrite FilePath) (head rest : W × List (RecoveryError FilePath))
      → SameAt disk i.path head.0 rest.0
      → SameAt disk i.backup.path head.0 rest.0
      → RestoredIn head i
      → RestoredIn (rest.0, head.1 ++ rest.1) i
  Restored-later i head rest p b (inl e) = inl (p ∙ e)
  Restored-later i head rest p b (inr (e, l, k)) =
      inr (e, Listed-append_left _ head.1 rest.1 l, b ∙ k)

  Restored-before :
      (i : PendingWrite FilePath) (errors : List (RecoveryError FilePath))
      (rest : W × List (RecoveryError FilePath))
      → RestoredIn rest i
      → RestoredIn (rest.0, errors ++ rest.1) i
  Restored-before i errors rest (inl e) = inl e
  Restored-before i errors rest (inr (e, l, b)) = inr (e, Listed-append _ errors rest.1 l, b)

  pub Replaced-SameAt :
      (i : PendingWrite FilePath) (w w' : W)
      → SameAt disk i.path w w'
      → SameAt disk i.backup.path w w'
      → Replaced disk w i
      → Replaced disk w' i
  Replaced-SameAt i w w' p b r = record {
    path_reads = p ∙ r.path_reads;
    backup_kept = b ∙ r.backup_kept;
    backup_apart = r.backup_apart;
  }

  pub rollback-Restored :
      (is : List (PendingWrite FilePath)) (w : W)
      → All (Replaced disk w) is
      → Disjoint is
      → All (RestoredIn (rollback disk parent_of is w)) is
  unfolding rollback
  rollback-Restored [] w s d = tt
  rollback-Restored (i ∷ is) w s d =
      let head : W × List (RecoveryError FilePath) = rollback_item disk parent_of i w in
      let rest : W × List (RecoveryError FilePath) = rollback disk parent_of is head.0 in
      let moved : (j : PendingWrite FilePath)
          → Replaced disk w j
          → Apart i j
          → Replaced disk head.0 j =
        λ j r a.
          Replaced-SameAt j w head.0
            (rollback_item-SameAt disk laws parent_of i w j.path (Apart-sym a).path_avoids)
            (rollback_item-SameAt disk laws parent_of i w j.backup.path (Apart-sym a).backup_avoids)
            r in
      (
        Restored-later i head rest
            (rollback-SameAt i.path is head.0 (All-map is (λ j a. a.path_avoids) d.0))
            (rollback-SameAt i.backup.path is head.0 (All-map is (λ j a. a.backup_avoids) d.0))
            (rollback_item-Restored disk laws parent_of i w s.0),
        All-map is (λ j r. Restored-before j head.1 rest r)
            (rollback-Restored is head.0 (All-zip is moved s.1 d.0) d.1),
      )
