-- ===== src/Main/Program.antt =====
-- dedup.c: main from the command line to its status. What the threads leave behind is a parameter,
-- `schedule`, since it is the system that runs them; see Workers for what it may be.
pub mod Begin
pub mod Safe
use dedup.Prelude.{
  ℕ, zero, suc, ◌*◌, ◌+◌, Bool, true, false, not, Option, none, some, List, [], ◌∷◌, ◌==◌,
  if◌then◌else◌,
}
use dedup.Rb.{RbTree}
use dedup.Metadata.{CString, Digester}
use dedup.Os.{Os, M}
use dedup.Entry.{FileEntry, Stdio}
use dedup.Freeing.{free_visited_tree, free_duplicate_tree}
use dedup.Queue.{Stailq, new_file_entry_queue}
use dedup.Replacing.{Context}
use dedup.Visit.{VisitContext, new_context}
use dedup.Main.Serial.{Placed, scan_serial}
use dedup.Main.{deduplicate_all}
use dedup.Main.Options.{Opt, Options, parsed, exits, default_options, parse_options}
use dedup.Main.Traversal.{Volumes, Ftsent, new_traversal, traverse}

-- The paths that main begins with, or the status with which it ends.
pub data Begun : Type 0 where
  begun : Options → List CString → Begun
  ended : ℕ → Begun

abbrev pub default_paths : List CString
default_paths = (b'.' ∷ []) ∷ []

-- `argc > 0 ? argv : DEFAULT_PATHS`
abbrev pub paths : List CString → List CString
paths [] = default_paths
paths (arg ∷ args) = arg ∷ args

-- The fields that `deduplicate` uses, as main has set them.
abbrev pub to_context : Options → Context
to_context o = record {
  saved = 0;
  already_saved = 0;
  dry_run = o.dry_run;
  force = false;
  preserve_parent_mtime = o.preserve_parent_mtime;
  replace_mode = o.replace_mode;
}

module _ (os : Os) where
  -- The loop over the arguments: they all exist, as far as access(2) says.
  unfoldable pub check_access : List CString → M os.State Bool
  check_access [] s = (true, s)
  check_access (arg ∷ args) s =
      let (found, s') = os.access_f_ok arg s in
      let rest = check_access args s' in if found == 0 then rest else (false, s')

  -- `atoi` is that of the library, `tty` what isatty(3) says of the standard output.
  unfoldable pub begin : (CString → ℕ) → ℕ → Bool → List Opt → List CString → M os.State Begun
  unfolding check_access
  begin atoi cpus tty opts argv s = elim (parse_options atoi opts (default_options cpus)) [
    | exits status ↦ (ended status, s)
    | parsed o ↦
        let o' : Options = if tty then o else record o { progress = false } in
        let (found, s') = check_access argv s in
        if found then (begun o' (paths argv), s') else (ended 1, s')
  ]

-- Each entry with the addresses that malloc gives during its visit.
abbrev pub place : (ℕ → ℕ) → ℕ → List FileEntry → List Placed
place malloc n [] = []
place malloc n (fe ∷ fes) =
    record { entry = fe; own = malloc n; copy = malloc (n + 1) } ∷ place malloc (n + 2) fes

module _ (os : Os) (rb : RbTree) (stdio : Stdio os.State) (stailq : Stailq) where
  -- The part between the traversal and `deduplicate`.
  unfoldable pub scan :
      Digester
      → (malloc : ℕ → ℕ) (rounds : ℕ)
      → (schedule : Options → List FileEntry → os.State → VisitContext rb) → Options
      → List FileEntry
      → os.State
      → Option (VisitContext rb)
  scan env malloc rounds schedule o entries s =
      if o.thread_count == 0
      then elim (scan_serial rb os stdio stailq s env rounds (place malloc 0 entries)
          (new_file_entry_queue stailq) (new_context rb)) [
            | none ↦ none
            | some (queue, ctx) ↦ some ctx
          ]
      else some (schedule o entries s)

  -- What main does once the threads are joined: it frees the visited tree, deduplicates, and frees the
  -- tree of duplicates.
  unfoldable pub finish : Options → Option (VisitContext rb) → os.State → Option (ℕ × os.State)
  finish o none s = none
  finish o (some ctx) s = elim (free_visited_tree rb ctx.visited) [
    | none ↦ none
    | some visited ↦ elim (deduplicate_all os rb (rb.nodes ctx.duplicates) (to_context o) s) [
      | none ↦ none
      | some (dc, s') ↦ elim (free_duplicate_tree rb ctx.duplicates) [
        | none ↦ none
        | some freed ↦ some (0, s')
      ]
    ]
  ]

  -- From the paths to the end of main. `fts` gives what fts_read(3) reads, or `none` where
  -- fts_open(3) fails.
  unfoldable pub proceed :
      Digester
      → (malloc : ℕ → ℕ) (rounds : ℕ)
      → (schedule : Options → List FileEntry → os.State → VisitContext rb)
      → (volumes : Volumes) (fts : Bool → List CString → os.State → Option (List Ftsent)) → Begun
      → os.State
      → Option (ℕ × os.State)
  unfolding scan finish
  proceed env malloc rounds schedule volumes fts (ended status) s = some (status, s)
  proceed env malloc rounds schedule volumes fts (begun o args) s = elim (fts o.xdev args s) [
    | none ↦ some (1, s)
    | some found ↦
        let entries = traverse volumes o found new_traversal in
        finish o (scan env malloc rounds schedule o entries s) s
  ]

  -- The status of main, and what it leaves behind; `none` is a NULL that is dereferenced.
  unfoldable pub main :
      Digester
      → (malloc : ℕ → ℕ) (rounds : ℕ)
      → (schedule : Options → List FileEntry → os.State → VisitContext rb)
      → (volumes : Volumes) (fts : Bool → List CString → os.State → Option (List Ftsent))
      → (atoi : CString → ℕ) (cpus : ℕ) (tty : Bool) → List Opt
      → List CString
      → os.State
      → Option (ℕ × os.State)
  unfolding begin proceed
  main env malloc rounds schedule volumes fts atoi cpus tty opts argv s =
      let (b, s') = begin os atoi cpus tty opts argv s in
      proceed env malloc rounds schedule volumes fts b s'
