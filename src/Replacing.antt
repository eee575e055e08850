-- ===== src/Replacing.antt =====
-- dedup.c: `deduplicate`, which picks the origin of a set of equal files and replaces the others.
-- What it prints is left out.
pub mod Origin
pub mod Found
pub mod Dry
pub mod Rounds
pub mod Keeps
pub mod Links
pub mod Forecast
pub mod Bounds
use Prim.Native.Nat.{bit_and}
use dedup.Prelude.{
  ℕ, ◌+◌, ◌-◌, ◌*◌, ◌%◌, ◌^◌, Bool, true, false, not, ◌&&◌, ◌||◌, Option, none, some, List, [], ◌∷◌,
  ltb, ◌==◌, if◌then◌else◌, length,
}
use dedup.AList.{size_mod}
use dedup.Rb.{RbTree}
use dedup.Metadata.{CString, Pointer}
use dedup.Os.{Os, M, pure, ◌>>=◌}
use dedup.Utils.{get_clone_id, private_size}
use dedup.Clone.{replace_with_clone, replace_with_link}
use dedup.Symlink.{replace_with_symlink}
use dedup.CloneIds.{new_clone_id_counts, clone_id_tree_max, count_clones}

pub data ReplaceMode : Type 0 where
  dedup_clone dedup_link dedup_symlink : ReplaceMode

-- The fields of `DedupContext` that `deduplicate` uses.
pub record Context : Type 0 where
  pub saved : ℕ
  pub already_saved : ℕ
  pub dry_run : Bool
  pub force : Bool
  pub preserve_parent_mtime : Bool
  pub replace_mode : ReplaceMode

abbrev pub uf_immutable : ℕ
uf_immutable = 0x2

abbrev pub uf_compressed : ℕ
uf_compressed = 0x20

abbrev pub sf_immutable : ℕ
sf_immutable = 0x20000

abbrev pub is_compressed : Pointer → Bool
is_compressed fm = not (bit_and fm.target.flags uf_compressed == 0)

abbrev pub is_immutable : Pointer → Bool
is_immutable fm =
    not (bit_and fm.target.flags uf_immutable == 0)
    || not (bit_and fm.target.flags sf_immutable == 0)

abbrev pub add_saved : ℕ → Context → Context
add_saved n ctx = record ctx { saved = (ctx.saved + n) % size_mod }

abbrev pub add_already_saved : ℕ → Context → Context
add_already_saved n ctx = record ctx { already_saved = (ctx.already_saved + n) % size_mod }

-- `fm->nlink > 1 && (!origin || origin->nlink < fm->nlink)`
unfoldable pub better_linked : Option Pointer → Pointer → Bool
better_linked none fm = ltb 1 fm.target.nlink
better_linked (some origin) fm = ltb 1 fm.target.nlink && ltb origin.target.nlink fm.target.nlink

-- The first loop: the file with the most hard links, if one has more than one.
unfoldable pub most_hardlinks : Option Pointer → List Pointer → Option Pointer
unfolding better_linked
most_hardlinks origin [] = origin
most_hardlinks origin (fm ∷ fms) =
    most_hardlinks (if better_linked origin fm then some fm else origin) fms

-- The first file that is not compressed.
unfoldable pub first_uncompressed : List Pointer → Option Pointer
first_uncompressed [] = none
first_uncompressed (fm ∷ fms) = if is_compressed fm then first_uncompressed fms else some fm

-- What the search for an origin comes to.
pub data Choice : Type 0 where
  -- an origin to take clones of
  chosen : Pointer → Choice
  -- one clone id throughout
  already_cloned : Choice
  -- no file to take clones of
  no_origin : Choice
  -- NULL for an origin, of which the path is then read
  null_origin : Choice

abbrev pub to_choice : Option Pointer → Choice
to_choice none = no_origin
to_choice (some fm) = chosen fm

-- `origin = clone_id_tree_max(clone_counts)`, without a test for NULL.
abbrev pub most_cloned : Option Pointer → Choice
most_cloned none = null_origin
most_cloned (some fm) = chosen fm

abbrev pub is_null_origin : Choice → Bool
is_null_origin choice = elim choice [ null_origin ↦ true | _ ↦ false ]

module _ (rb : RbTree) where
  unfoldable pub choose_by_clones : List Pointer → Choice
  choose_by_clones fms =
      let clone_counts = count_clones rb (new_clone_id_counts rb) fms in
      if rb.rb_tree_count clone_counts == 1
      then already_cloned
      else if rb.rb_tree_count clone_counts == length fms
      then to_choice (first_uncompressed fms)
      else most_cloned (clone_id_tree_max rb clone_counts)

  unfoldable pub choose_origin : List Pointer → Choice
  choose_origin fms = elim (most_hardlinks none fms) [
    | some fm ↦ chosen fm
    | none ↦ choose_by_clones fms
  ]

-- `ctx->replace_mode == DEDUP_CLONE`
abbrev pub is_clone_mode : ReplaceMode → Bool
is_clone_mode mode = elim mode [ dedup_clone ↦ true | _ ↦ false ]

-- The third test of the loop: the file is a clone of the origin, or a link to it, already.
abbrev pub already_replaced : ReplaceMode → Pointer → Pointer → Bool
already_replaced mode origin fm = elim mode [
  | dedup_clone ↦ fm.target.clone_id == origin.target.clone_id
  | dedup_link ↦ fm.target.inode == origin.target.inode
  | dedup_symlink ↦ false
]

module _ (os : Os) where
  -- The `switch` on the mode.
  unfoldable pub replace : Context → CString → CString → M os.State ℕ
  replace ctx src dst = elim ctx.replace_mode [
    | dedup_clone ↦ replace_with_clone os src dst ctx.preserve_parent_mtime
    | dedup_link ↦ replace_with_link os src dst
    | dedup_symlink ↦ replace_with_symlink os src dst
  ]

  -- What the loop does after a call that did not fail.
  unfoldable pub account : ℕ → Pointer → Context → os.State → Context
  account origin_clone_id fm ctx s =
      if is_clone_mode ctx.replace_mode && not (origin_clone_id == get_clone_id os fm.target.path s)
      then (if private_size os fm.target.path s == 0
          then add_already_saved fm.target.size ctx
          else ctx)
      else add_saved fm.target.size ctx

  -- One round of the loop.
  unfoldable pub deduplicate_one : Pointer → ℕ → Pointer → Context → M os.State Context
  unfolding replace account
  deduplicate_one origin origin_clone_id fm ctx s =
      if fm.address == origin.address
      then (ctx, s)
      else if not ctx.force && ltb 1 fm.target.nlink
      then (add_already_saved fm.target.size ctx, s)
      else if already_replaced ctx.replace_mode origin fm
      then (add_already_saved fm.target.size ctx, s)
      else if is_immutable fm
      then (ctx, s)
      else if ctx.dry_run
      then (add_saved fm.target.size ctx, s)
      else let (result, s') = replace ctx origin.target.path fm.target.path s in
        if not (result == 0) then (ctx, s') else (account origin_clone_id fm ctx s', s')

  unfoldable pub deduplicate_loop : Pointer → ℕ → List Pointer → Context → M os.State Context
  unfolding deduplicate_one
  deduplicate_loop origin origin_clone_id [] ctx s = (ctx, s)
  deduplicate_loop origin origin_clone_id (fm ∷ fms) ctx s =
      let (ctx', s') = deduplicate_one origin origin_clone_id fm ctx s in
      deduplicate_loop origin origin_clone_id fms ctx' s'

  -- The size of the first file, for a set of one clone id.
  abbrev first_size : List Pointer → ℕ
  first_size [] = 0
  first_size (fm ∷ fms) = fm.target.size

  -- What follows the choice of an origin. Nothing defined follows the choice of NULL, which Main
  -- tells apart.
  unfoldable pub deduplicate_from : List Pointer → Context → Choice → M os.State Context
  unfolding deduplicate_loop
  deduplicate_from metadata_set ctx no_origin s = (ctx, s)
  deduplicate_from metadata_set ctx null_origin s = (ctx, s)
  deduplicate_from metadata_set ctx already_cloned s =
      (add_already_saved (first_size metadata_set * (length metadata_set - 1)) ctx, s)
  deduplicate_from metadata_set ctx (chosen fm) s =
      deduplicate_loop fm (get_clone_id os fm.target.path s) metadata_set ctx s

  unfoldable pub deduplicate : RbTree → List Pointer → Context → M os.State Context
  unfolding deduplicate_from
  deduplicate rb metadata_set ctx =
      deduplicate_from metadata_set ctx (choose_origin rb metadata_set)
