-- ===== src/Replacing/Links.antt =====
-- dedup.c and clone.c: `deduplicate` where files are replaced by hard links.
use mathlib.Core.Option.{some-injective}
use dedup.Prelude.{
  ◌||◌, ℕ, ◌≡◌, ◌≢◌, ◌⊎◌, refl, sym, ◌∙◌, ap, Bool-cases, false, none, some, List, arith, ◌==◌, inl,
  inr, All,
}
use dedup.Rb.{RbTree, IsRbTree}
use dedup.Metadata.{CString-discrete, CString, Pointer}
use dedup.Os.{Os, IsPosix, File}
use dedup.Clone.{replace_with_link}
use dedup.Replacing.{Context, dedup_link, replace, deduplicate_one, deduplicate}
use dedup.Replacing.Rounds.{
  is_skipped, deduplicate_one_still, deduplicate_one_moves, deduplicate-Kept,
}

module _ (os : Os) {X : Type 0} (content : ℕ → X) where
  -- A change of state in which every path that led to a file leads to one of the same content.
  pub record SameBytes (s t : os.State) : Type 0 where
    pub kept :
        (p : CString) (f : File)
        → os.file s p ≡ some f
        → (g : File) × (os.file t p ≡ some g) × (content g.blocks ≡ content f.blocks)

  SameBytes-refl : (s : os.State) → SameBytes s s
  SameBytes-refl s = record { kept = λ p f there. (f, there, refl) }

  SameBytes-trans : (s t u : os.State) → SameBytes s t → SameBytes t u → SameBytes s u
  SameBytes-trans s t u a b = record {
    kept = λ p f there.
        let (g, at_g, bytes) = a.kept p f there in
        let (h, at_h, bytes') = b.kept p g at_g in (h, at_h, bytes' ∙ bytes);
  }

module _ (os : Os) (P : IsPosix os)
    -- link(2) does not fail where its source is there and its target is not.
    (links : (src dst : CString) (s : os.State)
      → os.file s src ≢ none
      → os.file s dst ≡ none
      → (os.link src dst s).0 ≡ 0) where
  -- Every other file stays, and the one at `dst` stays or is the one at `src`.
  record IsLinked (src dst : CString) (s t : os.State) : Type 0 where
    other : (p : CString) → p ≢ dst → os.file t p ≡ os.file s p
    here : (os.file t dst ≡ os.file s dst) ⊎ (os.file t dst ≡ os.file s src)

  replace_with_link-IsLinked :
      (src dst : CString) (s : os.State)
      → src ≢ dst
      → os.file s src ≢ none
      → IsLinked src dst s (replace_with_link os src dst s).1
  unfolding replace_with_link
  replace_with_link-IsLinked src dst s apart there =
      let gone = os.unlink dst s in
      elim (Bool-cases (gone.0 == 0)) [
        | inr failed ↦
            rw (failed, replace_with_link)
              record {
                other = λ p _. P.unlink_fails dst s (ground arith) p;
                here = inl (P.unlink_fails dst s (ground arith) dst);
              }
        | inl unlinked ↦
            let free : os.file gone.1 dst ≡ none = P.unlink_done dst s (ground arith) in
            let same : os.file gone.1 src ≡ os.file s src = P.unlink-other dst s src apart in
            rw (unlinked, replace_with_link)
              record {
                other = λ p far. P.link-other src dst gone.1 p far ∙ P.unlink-other dst s p far;
                here = inr (
                    P.link_done src dst gone.1
                      (links src dst gone.1 (λ e. there (sym same ∙ e)) free)
                    ∙ same);
              }
      ]

  module _ {X : Type 0} (content : ℕ → X) where
    -- `inode_of` gives the inodes of the paths, and `c` is the content of the set.
    module _ (inode_of : CString → ℕ) (c : X) where
      -- The file is there with the content, and its inode is that of its path.
      abbrev pub IsMember : os.State → Pointer → Type 0
      IsMember s fm =
          (f : File) × (os.file s fm.target.path ≡ some f)
          × (content f.blocks ≡ c)
          × (fm.target.inode ≡ inode_of fm.target.path)

      IsMember-SameBytes :
          (s t : os.State) (fm : Pointer) → SameBytes os content s t → IsMember s fm → IsMember t fm
      IsMember-SameBytes s t fm kept (f, there, bytes, inode) =
          let (g, at_g, same) = kept.kept fm.target.path f there in (g, at_g, same ∙ bytes, inode)

      IsLinked-SameBytes :
          (origin fm : Pointer) (s t : os.State)
          → IsLinked origin.target.path fm.target.path s t
          → IsMember s origin
          → IsMember s fm
          → SameBytes os content s t
      IsLinked-SameBytes origin fm s t linked (f, at_f, of_f, _) (g, at_g, of_g, _) = record {
        kept = λ p h there. elim (CString-discrete p fm.target.path) [
          | no apart ↦ (h, linked.other p apart ∙ there, refl)
          | yes at_p ↦
              let same : h ≡ g = some-injective h g (sym there ∙ ap (os.file s) at_p ∙ at_g) in
              elim linked.here [
                | inl still ↦ (g, ap (os.file t) at_p ∙ still ∙ at_g, rw same)
                | inr new ↦ (f, ap (os.file t) at_p ∙ new ∙ at_f, rw same (of_f ∙ sym of_g))
              ]
        ];
      }

      deduplicate_one-SameBytes :
          (origin : Pointer) (id : ℕ) (fm : Pointer) (ctx : Context) (s : os.State)
          → ctx.replace_mode ≡ dedup_link
          → IsMember s origin
          → IsMember s fm
          → SameBytes os content s (deduplicate_one os origin id fm ctx s).1
      unfolding replace
      deduplicate_one-SameBytes origin id fm ctx s mode at_origin at_fm =
          elim (Bool-cases (is_skipped origin ctx fm || ctx.dry_run)) [
            | inl still ↦
                rw (deduplicate_one_still os origin id fm ctx s still) (SameBytes-refl os content s)
            | inr moves ↦
                let inodes : (fm.target.inode == origin.target.inode) ≡ false =
                  ground (arith, mode) in
                let (_, _, _, inode) = at_fm in
                let (_, at_f, _, inode') = at_origin in
                let apart : origin.target.path ≢ fm.target.path = λ e.
                  (let same : fm.target.inode ≡ origin.target.inode =
                      inode ∙ ap inode_of (sym e) ∙ sym inode' in
                    absurd (ground arith)) in
                rw (deduplicate_one_moves os origin id fm ctx s moves, replace, mode)
                  (IsLinked-SameBytes origin fm s _
                    (replace_with_link-IsLinked origin.target.path fm.target.path s apart
                      (λ e. cc (e, at_f)))
                    at_origin at_fm)
          ]

      -- Where files are replaced by hard links, the files of the set have one content and no link
      -- fails: every path that led to a file, in the set or not, leads to one of the same content.
      pub deduplicate-SameBytes :
          (rb : RbTree) (L : IsRbTree rb) (fms : List Pointer) (ctx : Context) (s : os.State)
          → ctx.replace_mode ≡ dedup_link
          → All (IsMember s) fms
          → SameBytes os content s (deduplicate os rb fms ctx s).1
      deduplicate-SameBytes =
          deduplicate-Kept os dedup_link (SameBytes os content) (SameBytes-refl os content)
            (SameBytes-trans os content) IsMember IsMember-SameBytes deduplicate_one-SameBytes
