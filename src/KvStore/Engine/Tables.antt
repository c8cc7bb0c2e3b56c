-- ===== src/KvStore/Engine/Tables.antt =====
-- Lookups in the list of tables: by parts, under removals, and in the merged tables.
use mathlib.Core.List.{reverse, reverse-cons}
use system_design.Common.{
  ◌<◌, ◌≡◌, ◌≢◌, refl, ◌∙◌, ap, sym, subst, Bool, true, false, List, [], ◌∷◌, ◌++◌, none, some,
  if◌then◌else◌, arith, All, Option-cases, inl, inr,
}
use system_design.Common.Bytes.{Bytes, beq_of_ne}
use system_design.Common.Assoc.{lookup, remove, lookup-remove, contains}
use system_design.KvStore.Sst.{
  SstMeta, Files, Scan, Merge, last_match, scan_sst, lookup_sst, merge_entries, merge_paths,
}
use system_design.KvStore.Sst.Lookup.{AllFit}
use system_design.KvStore.Sst.Merging.{
  over, last_match-over, lookup-merge_entries, IsIndexed, merge_entries-IsIndexed, MergeFits,
  merge_entries-MergeFits,
}
use system_design.KvStore.Engine.{find_in, level0, above0, remove_files, paths_of}
use system_design.KvStore.Engine.Flush.{Avoids}

pub find_in-append :
    (key : Bytes) (xs ys : List SstMeta) (files : Files)
    → find_in key (xs ++ ys) files ≡ over (find_in key xs files) (find_in key ys files)
unfolding find_in
find_in-append key [] ys files = refl
find_in-append key (s ∷ xs) ys files = ground (arith, find_in-append key xs ys files)

-- Newest first: the sequence numbers fall along the list.
abbrev pub IsNewestFirst : List SstMeta → Type 0
IsNewestFirst [] = Unit
IsNewestFirst (s ∷ ss) = All (λ t. t.seq_num < s.seq_num) ss × IsNewestFirst ss

-- The tables of level 0 come before all others.
abbrev pub IsLevelled : List SstMeta → Type 0
IsLevelled ss = ss ≡ level0 ss ++ above0 ss

lookup_sst-remove_ne :
    (path key p : Bytes) (files : Files)
    → p ≢ path
    → lookup_sst path key (remove p files) ≡ lookup_sst path key files
unfolding lookup_sst
lookup_sst-remove_ne path key p files h =
    ap (λ (s : Scan). (last_match key none s.entries, s.failed))
      (scan_sst-remove path p files (rw (lookup-remove p path files) (rw (beq_of_ne p path h))))
  where
    scan_sst-remove :
        (path p : Bytes) (files : Files)
        → lookup path (remove p files) ≡ lookup path files
        → scan_sst path (remove p files) ≡ scan_sst path files
    scan_sst-remove path p files e = rw (e, scan_sst)

find_in-remove :
    (key p : Bytes) (ss : List SstMeta) (files : Files)
    → All (Avoids p) ss
    → find_in key ss (remove p files) ≡ find_in key ss files
unfolding find_in
find_in-remove key p [] files h = refl
find_in-remove key p (s ∷ ss) files h =
    ground (arith, lookup_sst-remove_ne s.path key p files h.0, find_in-remove key p ss files h.1)

-- Removing files of other names changes no lookup.
pub find_in-remove_files :
    (key : Bytes) (kept : Bytes → Bool) (gone ss : List SstMeta) (files : Files)
    → All (λ g. All (Avoids g.path) ss) gone
    → find_in key ss (remove_files kept gone files) ≡ find_in key ss files
unfolding remove_files
find_in-remove_files key kept [] ss files h = refl
find_in-remove_files key kept (g ∷ gone) ss files h =
    find_in-remove_files key kept gone ss (if kept g.path then files else remove g.path files) h.1
    ∙ one (kept g.path)
  where
    one :
        (b : Bool)
        → find_in key ss (if b then files else remove g.path files) ≡ find_in key ss files
    one true = refl
    one false = find_in-remove key g.path ss files h.0

-- The tables of a list have scanned without an error, and what they hold fits.
abbrev pub TableFits : Files → SstMeta → Type 0
TableFits files s = AllFit (scan_sst s.path files).entries

merge_paths-append :
    (ps : List Bytes) (p : Bytes) (files : Files) (m : Merge)
    → merge_paths (ps ++ p ∷ []) files m
      ≡ elim (merge_paths ps files m) [ none ↦ none | some n ↦ merge_paths (p ∷ []) files n ]
unfolding merge_paths
merge_paths-append [] p files m = refl
merge_paths-append (q ∷ ps) p files m =
    ground (arith, merge_paths-append ps p files (merge_entries (scan_sst q files).entries m))

abbrev pub no_keys : Merge
no_keys = record { merged = []; ordered = [] }

pub record Merges (ss : List SstMeta) (files : Files) (m : Merge) : Type 0 where
  pub finds : (k : Bytes) → lookup k m.merged ≡ find_in k ss files
  pub indexed : IsIndexed m
  pub fits : MergeFits m

merge_paths-one :
    (p : Bytes) (files : Files) (n m : Merge)
    → merge_paths (p ∷ []) files n ≡ some m
    → ((scan_sst p files).failed ≡ false) × (merge_entries (scan_sst p files).entries n ≡ m)
unfolding merge_paths
merge_paths-one p files n m e = ground arith

pub find_in-scanned :
    (key : Bytes) (s : SstMeta) (ss : List SstMeta) (files : Files)
    → (scan_sst s.path files).failed ≡ false
    → find_in key (s ∷ ss) files
      ≡ over (last_match key none (scan_sst s.path files).entries) (find_in key ss files)
unfolding find_in
find_in-scanned key s ss files ok = ground (arith, looked)
  where
    looked :
        lookup_sst s.path key files
        ≡ (last_match key none (scan_sst s.path files).entries, (scan_sst s.path files).failed)
    looked = unfold lookup_sst in refl

Merges-cons :
    (s : SstMeta) (ss : List SstMeta) (files : Files) (n m : Merge)
    → TableFits files s
    → merge_paths (s.path ∷ []) files n ≡ some m
    → Merges ss files n
    → Merges (s ∷ ss) files m
Merges-cons s ss files n m fits e h =
    let (ok, same) = merge_paths-one s.path files n m e in
    let es = (scan_sst s.path files).entries in
    subst (Merges (s ∷ ss) files) same (record {
      finds = λ k.
          lookup-merge_entries k es n
          ∙ last_match-over k (lookup k n.merged) es
          ∙ ap (over (last_match k none es)) (h.finds k)
          ∙ sym (find_in-scanned k s ss files ok);
      indexed = merge_entries-IsIndexed es n h.indexed;
      fits = merge_entries-MergeFits es n fits h.fits;
    })

Merges-nil : (files : Files) (m : Merge) → merge_paths [] files no_keys ≡ some m → Merges [] files m
unfolding merge_paths
Merges-nil files m e =
    let same : no_keys ≡ m = ground arith in
    subst (Merges [] files) same (record {
      finds = λ k. unfold lookup find_in in refl;
      indexed = λ k. unfold lookup contains in refl;
      fits = record { merged = tt; ordered = tt };
    })

-- A merge of the paths, oldest first, holds what a lookup through the tables, newest first, finds.
pub merge_paths-Merges :
    (ss : List SstMeta) (files : Files) (m : Merge)
    → All (TableFits files) ss
    → merge_paths (reverse (paths_of ss)) files no_keys ≡ some m
    → Merges ss files m
merge_paths-Merges [] files m fits e = Merges-nil files m e
merge_paths-Merges (s ∷ ss) files m fits e =
    elim (Option-cases (merge_paths (reverse (paths_of ss)) files no_keys)) [
      | inl stopped ↦ absurd (ground (arith, split))
      | inr (n, merged) ↦
          Merges-cons s ss files n m fits.0 (ground (arith, split))
            (merge_paths-Merges ss files n fits.1 merged)
    ]
  where
    split :
        merge_paths (reverse (paths_of (s ∷ ss))) files no_keys
        ≡ elim (merge_paths (reverse (paths_of ss)) files no_keys) [
          | none ↦ none
          | some n ↦ merge_paths (s.path ∷ []) files n
        ]
    split =
        rw (reverse-cons s.path (paths_of ss))
          (merge_paths-append (reverse (paths_of ss)) s.path files no_keys)
