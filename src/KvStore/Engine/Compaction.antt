-- ===== src/KvStore/Engine/Compaction.antt =====
-- What a compaction does to the reads of clients.
use mathlib.Core.List.{reverse}
use system_design.Common.{
  All-map, ℕ, ◌+◌, ◌≤◌, ◌≡◌, refl, ◌∙◌, ap, ap₂, sym, Bool, true, false, List, ◌∷◌, Option, none,
  some, ltb, arith, length, take, All, Bool-cases, Option-cases, inl, inr,
}
use system_design.Common.Bytes.{Bytes}
use system_design.Common.Words.{u64}
use system_design.Common.Assoc.{insert}
use system_design.KvStore.Memtable.{Entry, mem_get}
use system_design.KvStore.Names.{sst_path}
use system_design.KvStore.Sst.{
  SstMeta, Files, Merge, Scan, Written, whole, not_created, cut, last_match, scan_sst,
  encode_entries, table_meta, compacted_entries, merge_paths, merge_compact, write_table,
}
use system_design.KvStore.Sst.ReadBack.{scan_bytes-encode_entries}
use system_design.KvStore.Sst.Lookup.{scan_sst-insert_self}
use system_design.KvStore.Sst.Merging.{
  over, live, AllFit-compacted_entries, last_match-compacted_entries,
}
use system_design.KvStore.Engine.{
  Engine, find_in, view, visible, shown, level0, above0, paths_of, remove_files, run_compaction,
}
use system_design.KvStore.Engine.Flush.{IsSound, Avoids, All-avoid, find_in-insert}
use system_design.KvStore.Engine.Order.{
  IsOrdered, All-level0, All-above0, level0-avoid-above0, All-cons2,
}
use system_design.KvStore.Engine.Tables.{
  find_in-scanned, Merges, no_keys, merge_paths-Merges, find_in-append, find_in-remove_files,
}

module _ (e : Engine) (sound : IsSound e) (ordered : IsOrdered e) where
  abbrev l0 : List SstMeta
  l0 = level0 e.sstables

  abbrev rest : List SstMeta
  rest = above0 e.sstables

  split :
      (key : Bytes)
      → find_in key e.sstables e.files ≡ over (find_in key l0 e.files) (find_in key rest e.files)
  split key =
      ap (λ ss. find_in key ss e.files) ordered.levelled ∙ find_in-append key l0 rest e.files

  module _ (s : SstMeta) (avoids : All (Avoids s.path) e.sstables) where
    gone-avoid : All (λ g. All (Avoids g.path) (s ∷ rest)) l0
    gone-avoid =
        All-cons2 (λ (g : SstMeta) (t : SstMeta). Avoids g.path t) s rest l0
          (All-map _ _ l0 (λ g apart same. apart (sym same))
            (All-level0 (Avoids s.path) e.sstables avoids))
          (level0-avoid-above0 e.seq_num e.sstables sound.room sound.named ordered.newest_first)

    -- The merged table over the tables that stay answers like the old tables, less the tombstones
    -- of level 0.
    find_in-compacted :
        (key : Bytes) (kept : Bytes → Bool) (m : Merge)
        → Merges l0 e.files m
        → find_in key
            (s ∷ rest)
            (remove_files kept l0 (insert s.path (encode_entries (compacted_entries 1 m)) e.files))
          ≡ over (live (find_in key l0 e.files)) (find_in key rest e.files)
    find_in-compacted key kept m merges =
        find_in-remove_files key kept l0 (s ∷ rest) files' gone-avoid
        ∙ find_in-scanned key s rest files' (ap (λ (r : Scan). r.failed) scanned)
        ∙ ap₂ over
            (ap (λ (r : Scan). last_match key none r.entries) scanned
              ∙ last_match-compacted_entries key m merges.indexed
              ∙ ap live (merges.finds key))
            (find_in-insert key s.path _ rest e.files
              (All-above0 (Avoids s.path) e.sstables avoids))
      where
        files' : Files
        files' = insert s.path (encode_entries (compacted_entries 1 m)) e.files

        scanned :
            scan_sst s.path files' ≡ record { entries = compacted_entries 1 m; failed = false }
        scanned =
            scan_sst-insert_self s.path (encode_entries (compacted_entries 1 m)) e.files
            ∙ scan_bytes-encode_entries (compacted_entries 1 m)
                (AllFit-compacted_entries 1 m merges.fits)

-- The newest entry of level 0 for the key is no tombstone, or no live value stands above level 0.
abbrev pub IsUnshadowed : Engine → Bytes → Type 0
IsUnshadowed e key =
    (t : Entry)
    → find_in key (level0 e.sstables) e.files ≡ some t
    → t.tombstone ≡ true
    → shown (find_in key (above0 e.sstables) e.files) ≡ none

shown-live :
    (a b : Option Entry)
    → ((t : Entry) → a ≡ some t → t.tombstone ≡ true → shown b ≡ none)
    → shown (over (live a) b) ≡ shown (over a b)
shown-live none b h = refl
shown-live (some t) b h = elim (Bool-cases t.tombstone) [
  | inl dead ↦ ground (arith, h t refl dead)
  | inr alive ↦ ground arith
]

merge_compact-none :
    (o : Written) (seq level : ℕ) (ps : List Bytes) (files : Files)
    → merge_paths ps files no_keys ≡ none
    → merge_compact o seq level ps files ≡ (files, none)
unfolding merge_compact
merge_compact-none o seq level ps files h = rw (h, merge_compact)

merge_compact-some :
    (o : Written) (seq level : ℕ) (ps : List Bytes) (files : Files) (m : Merge)
    → merge_paths ps files no_keys ≡ some m
    → merge_compact o seq level ps files ≡ write_table o seq level (compacted_entries level m) files
unfolding merge_compact
merge_compact-some o seq level ps files m h = rw (h, merge_compact)

abbrev merged_paths : Engine → List Bytes
merged_paths e = reverse (paths_of (level0 e.sstables))

-- A compaction by the outcome of its merge.
view-compaction_stopped :
    (o : Written) (kept : Bytes → Bool) (e : Engine) (key : Bytes)
    → merge_paths (merged_paths e) e.files no_keys ≡ none
    → view (run_compaction o kept e).0 key ≡ view e key
unfolding run_compaction view
view-compaction_stopped o kept e key h =
    let stopped = merge_compact-none o (u64 (e.seq_num + 1)) 1 (merged_paths e) e.files h in
    ground arith

-- What a Get finds in the tables after a merge that was written whole.
find_in-run_compaction :
    (kept : Bytes → Bool) (e : Engine) (key : Bytes) (m : Merge)
    → IsSound e
    → IsOrdered e
    → merge_paths (merged_paths e) e.files no_keys ≡ some m
    → ltb (length (level0 e.sstables)) 2 ≡ false
    → let e' = (run_compaction whole kept e).0 in
      (e'.mem ≡ e.mem)
      × (find_in key e'.sstables e'.files
          ≡ over
              (live (find_in key (level0 e.sstables) e.files))
              (find_in key (above0 e.sstables) e.files))
unfolding run_compaction write_table
find_in-run_compaction kept e key m sound ordered h many =
    let ok = merge_compact-some whole (u64 (e.seq_num + 1)) 1 (merged_paths e) e.files m h in
    rw (many, run_compaction)
      (rw (ok, run_compaction)
        (rw ok (
          refl,
          find_in-compacted e sound ordered
              (table_meta (u64 (e.seq_num + 1)) 1 (compacted_entries 1 m))
              (All-avoid e.seq_num 1 e.sstables sound.named sound.room) key kept m
              (merge_paths-Merges (level0 e.sstables) e.files m ordered.tables_fit h),
        )))

view-of :
    (e e' : Engine) (key : Bytes)
    → e'.mem ≡ e.mem
    → shown (find_in key e'.sstables e'.files) ≡ shown (find_in key e.sstables e.files)
    → view e' key ≡ view e key
unfolding view
view-of e e' key same below =
    ap₂ (λ m b. elim (mem_get key m) [ none ↦ b | some en ↦ visible en ]) same below

view-compaction_written :
    (o : Written) (kept : Bytes → Bool) (e : Engine) (key : Bytes) (m : Merge)
    → IsSound e
    → IsOrdered e
    → IsUnshadowed e key
    → merge_paths (merged_paths e) e.files no_keys ≡ some m
    → ltb (length (level0 e.sstables)) 2 ≡ false
    → view (run_compaction o kept e).0 key ≡ view e key
unfolding write_table
view-compaction_written whole kept e key m sound ordered clear h many =
    let (same, found) = find_in-run_compaction kept e key m sound ordered h many in
    view-of e (run_compaction whole kept e).0 key same (
      ap shown found
      ∙ shown-live (find_in key (level0 e.sstables) e.files)
          (find_in key (above0 e.sstables) e.files) clear
      ∙ ap shown (sym (split e sound ordered key)))
view-compaction_written not_created kept e key m sound ordered clear h many =
    let ok = merge_compact-some not_created (u64 (e.seq_num + 1)) 1 (merged_paths e) e.files m h in
    unfold run_compaction view in ground arith
view-compaction_written (cut n) kept e key m sound ordered clear h many =
    let ok = merge_compact-some (cut n) (u64 (e.seq_num + 1)) 1 (merged_paths e) e.files m h in
    let same =
      find_in-insert key (sst_path (u64 (e.seq_num + 1)) 1)
        (take n (encode_entries (compacted_entries 1 m))) e.sstables e.files
        (All-avoid e.seq_num 1 e.sstables sound.named sound.room) in
    unfold run_compaction view in ground arith

-- A compaction, whatever its writes meet and whichever old files stay, does not change the Get of a
-- key, unless the newest entry of level 0 for the key is a tombstone and a table above level 0
-- still holds a value for it. The tables stand under their names with numbers up to the engine's,
-- which is below 2 ^ 64 - 1, newest first and level 0 before the others, and what they and the
-- memtable hold is shorter than 2 ^ 32 bytes.
pub view-run_compaction :
    (o : Written) (kept : Bytes → Bool) (e : Engine) (key : Bytes)
    → IsSound e
    → IsOrdered e
    → IsUnshadowed e key
    → view (run_compaction o kept e).0 key ≡ view e key
view-run_compaction o kept e key sound ordered clear =
    elim (Bool-cases (ltb (length (level0 e.sstables)) 2)) [
      | inl few ↦ unfold run_compaction in rw (few, run_compaction)
      | inr many ↦ elim (Option-cases (merge_paths (merged_paths e) e.files no_keys)) [
        | inl stopped ↦ view-compaction_stopped o kept e key stopped
        | inr (m, ok) ↦ view-compaction_written o kept e key m sound ordered clear ok many
      ]
    ]

-- The other case is real. A key is not in the memtable, the newest entry of level 0 for it is a
-- tombstone, and a table above level 0 still holds a value: a Get finds nothing, and after a
-- compaction of two tables or more that scan and whose merge is written, it finds the old value.
pub view-run_compaction_resurrects :
    (kept : Bytes → Bool) (e : Engine) (key v : Bytes) (m : Merge) (t : Entry)
    → IsSound e
    → IsOrdered e
    → merge_paths (reverse (paths_of (level0 e.sstables))) e.files no_keys ≡ some m
    → 2 ≤ length (level0 e.sstables)
    → mem_get key e.mem ≡ none
    → find_in key (level0 e.sstables) e.files ≡ some t
    → t.tombstone ≡ true
    → shown (find_in key (above0 e.sstables) e.files) ≡ some v
    → (view e key ≡ none) × (view (run_compaction whole kept e).0 key ≡ some v)
unfolding view
view-run_compaction_resurrects kept e key v m t sound ordered h two absent newest dead old =
    let (same, found) = find_in-run_compaction kept e key m sound ordered h (ground arith) in
    let before = split e sound ordered key in
    (ground arith, rw (same, view) (rw (absent, view) (ap shown found ∙ ground arith)))
