-- ===== src/Workers/Listing.antt =====
-- The steps by which a worker puts a file on a list, and counts it, against a sequence of visits.
use dedup.Prelude.{
  ◌&&◌, true, ℕ, ◌+◌, ◌*◌, ◌%◌, ◌^◌, ◌<◌, ◌≡◌, sym, ◌∙◌, ap, Option, some, List, [], ◌∷◌, ◌++◌,
  arith, inl, inr, Bool-cases, if◌then◌else◌, length, get_elem?, set, ◌==◌,
}
use dedup.AList.{AList, size_mod}
use dedup.Rb.{RbTree, IsRbTree}
use dedup.Rb.Order.{is_eq, memcmp}
use dedup.Metadata.{Sha256, FileMetadata, Digester, Pointer}
use dedup.Os.{Os}
use dedup.Entry.{FileEntry, Stdio}
use dedup.Visited.Hashing.{Digests, IsHashing, IsRead, hashed}
use dedup.Visited.View.{same_digest}
use dedup.Duplicates.{duplicate_tree_find}
use dedup.Duplicates.Lists.{IsDuplicates-le, duplicates_of, IsDuplicates}
use dedup.Visit.{VisitContext, add_duplicate, count_found}
use dedup.Visit.Listing.{seed}
use dedup.Visit.Appending.{append_duplicate, Appended}
use dedup.Visit.Correct.{first_of}
use dedup.Visit.Gathering.{IsContext-le}
use dedup.Workers.{Worker, looping, listing, counting}
use dedup.Workers.Flight.{total, total-set, owed}
use dedup.Workers.Inserting.{visits, longer, reads', opened', run'}
use dedup.Workers.Linear.{IsLinear, Known-set, IsOpened}

module _ (rb : RbTree) (os : Os) (stdio : Stdio os.State) (env : Digester) (digest : Digests)
    (s : os.State) (L : IsRbTree rb) (H : IsHashing env digest) {log : List (ℕ × Option Pointer)}
    {ctx : VisitContext rb} {ws : List Worker} (lin : IsLinear rb os stdio env digest s log ctx ws)
    (i : ℕ) where
  module _ (fe : FileEntry) (fm : Pointer) (old : FileMetadata)
      (at : get_elem? ws i ≡ some (listing fe fm old)) (f : FileMetadata)
      (is_hashed : fm.target ≡ hashed digest f) (can : digest.can_hash f.path ≡ true)
      (read : IsRead digest f) (own : IsOpened rb os stdio env digest s f.path) (address : ℕ)
      (small : 2 * length log + 1 < 2 ^ 59) where
    abbrev pub visited_pointer : Pointer
    visited_pointer = record { address = fm.address; target = f }

    pub appended :
        (longer : AList Pointer) × (add_duplicate address old fm
            (duplicate_tree_find rb ctx.duplicates fm.target).value
          ≡ some longer)
        × Appended rb L address old fm ctx.duplicates
            ((duplicate_tree_find rb ctx.duplicates fm.target).write longer)
        × IsDuplicates rb
            (2 * length log + 2)
            ((duplicate_tree_find rb ctx.duplicates fm.target).write longer)
    appended =
        append_duplicate rb L address old fm ctx.duplicates (2 * length log) lin.good.duplicates
          small

    owed_more :
        (n : ℕ)
        → (ctx.found + total owed ws) % size_mod ≡ n
        → (ctx.found + total owed (set ws i (counting fm.target old))) % size_mod
          ≡ count_found old (hashed digest f) n
    unfolding count_found
    owed_more n e =
        let same_id : fm.target.clone_id ≡ f.clone_id =
          ap (λ (g : FileMetadata). g.clone_id) is_hashed in
        let moved = total-set owed ws i (listing fe fm old) (counting fm.target old) at in
        elim (Bool-cases (f.clone_id == old.clone_id)) [
          | inl alike ↦
              let none_owed : owed (counting fm.target old) ≡ 0 = rw (same_id, alike) in
              rw alike (ap (λ m. (ctx.found + m) % size_mod) (omega (arith, moved, none_owed)) ∙ e)
          | inr differ ↦
              let one_owed : owed (counting fm.target old) ≡ 1 = rw (same_id, differ) in
              rw differ (omega (arith, moved, one_owed, e))
        ]

    listed_alike :
        (ds : List (Option Pointer)) (sha : Sha256)
        → ds ≡ (
            if is_eq (memcmp 32 fm.target.sha256 sha)
            then seed address old (duplicates_of rb ctx.duplicates fm.target.sha256) ++ some fm ∷ []
            else duplicates_of rb ctx.duplicates sha)
        → ds ≡ (
            if same_digest rb digest f sha
            then seed address old (duplicates_of rb lin.seq.duplicates (digest.of_path f.path))
              ++ some (record visited_pointer { target = hashed digest f }) ∷ []
            else duplicates_of rb lin.seq.duplicates sha)
    listed_alike ds sha e =
        e
        ∙ ap
            (λ (t : FileMetadata).
              if is_eq (memcmp 32 t.sha256 sha)
              then seed address old (duplicates_of rb ctx.duplicates t.sha256)
                ++ some (record fm { target = t }) ∷ []
              else duplicates_of rb ctx.duplicates sha)
            is_hashed
        ∙ ap
            (λ same.
              if same && is_eq (memcmp 32 (digest.of_path f.path) sha)
              then seed address old (duplicates_of rb ctx.duplicates (digest.of_path f.path))
                ++ some (record fm { target = hashed digest f }) ∷ []
              else duplicates_of rb ctx.duplicates sha)
            (sym can)
        ∙ ap
            (λ ds.
              if same_digest rb digest f sha
              then seed address old ds ++ some (record fm { target = hashed digest f }) ∷ []
              else duplicates_of rb ctx.duplicates sha)
            (lin.lists (digest.of_path f.path))
        ∙ ap
            (λ ds.
              if same_digest rb digest f sha
              then seed address old (duplicates_of rb lin.seq.duplicates (digest.of_path f.path))
                ++ some (record fm { target = hashed digest f }) ∷ []
              else ds)
            (lin.lists sha)

    -- The file goes on its list: its visit is done, but for the count.
    pub IsLinear-listed :
        first_of rb digest lin.seq f ≡ some old
        → IsLinear rb os stdio env digest s
            (log ++ (address, some visited_pointer) ∷ [])
            (record ctx {
              duplicates = (duplicate_tree_find rb ctx.duplicates fm.target).write appended.0;
            })
            (set ws i (counting fm.target old))
    unfolding count_found
    IsLinear-listed again =
        let (after, run, visit, good) =
          visits rb os stdio env digest s L H lin i (listing fe fm old) at fe visited_pointer
            address read own small in
        let two_more =
          longer rb os stdio env digest s L H lin i (listing fe fm old) at fe visited_pointer
            address read own small in
        let (list, run_list, lists, valid) = appended in
        record {
          seq = after;
          run =
              run' rb os stdio env digest s L H lin i (listing fe fm old) at fe visited_pointer
                address read own small;
          reads =
              reads' rb os stdio env digest s L H lin i (listing fe fm old) at fe visited_pointer
                address read own small;
          opened =
              opened' rb os stdio env digest s L H lin i (listing fe fm old) at fe visited_pointer
                address read own small;
          seq_good = IsContext-le rb digest _ _ after (omega (arith, two_more)) good;
          seen = λ k sha. lin.seen k sha ∙ sym (rw again at (visit.seen k sha));
          lists = λ sha. listed_alike _ sha (lists sha) ∙ sym (rw again at (visit.listed sha));
          good = record {
            visited = lin.good.visited;
            duplicates = IsDuplicates-le rb _ _ _ (omega (arith, two_more)) valid;
          };
          word = lin.word;
          found = owed_more lin.seq.found lin.found ∙ sym (rw again at (visit.counted));
          known =
              Known-set rb os stdio env digest s L H lin i (listing fe fm old) at ctx.visited
                (counting fm.target old) lin.known tt;
        }

  -- The count of a duplicate is made up for.
  pub IsLinear-counted :
      (g old : FileMetadata)
      → get_elem? ws i ≡ some (counting g old)
      → IsLinear rb os stdio env digest s log
          (record ctx { found = count_found old g ctx.found })
          (set ws i looping)
  unfolding count_found
  IsLinear-counted g old at =
      let moved = total-set owed ws i (counting g old) looping at in
      let w = lin.word in
      let f = lin.found in
      record {
        seq = lin.seq;
        run = lin.run;
        reads = lin.reads;
        opened = lin.opened;
        seq_good = lin.seq_good;
        seen = lin.seen;
        lists = lin.lists;
        good = record { visited = lin.good.visited; duplicates = lin.good.duplicates };
        word = ground (arith, w);
        found = elim (Bool-cases (g.clone_id == old.clone_id)) [
          | inl alike ↦
              let none_owed : owed (counting g old) ≡ 0 = rw alike in
              rw alike (omega (arith, moved, none_owed, f))
          | inr differ ↦
              let one_owed : owed (counting g old) ≡ 1 = rw differ in
              rw differ (omega (arith, moved, one_owed, f))
        ];
        known =
            Known-set rb os stdio env digest s L H lin i (counting g old) at ctx.visited looping
              lin.known tt;
      }
