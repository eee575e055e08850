-- ===== src/Replacing/Keeps.antt =====
-- What `deduplicate` does to files: nothing that changes what a file holds
-- where files are replaced by clones.
use mathlib.Core.Option.{some-injective}
use dedup.Prelude.{
  ◌||◌, ℕ, ◌≡◌, ◌≢◌, refl, sym, ◌∙◌, ap, none, some, List, [], ◌∷◌, arith, ◌==◌, Bool-cases, inl,
  inr, All,
}
use dedup.Rb.{RbTree, IsRbTree}
use dedup.Metadata.{CString-discrete, CString, Pointer}
use dedup.Os.{Os, IsPosix, File}
use dedup.Clone.Replace.{IsReplacement, replace_with_clone-IsReplacement}
use dedup.Replacing.Rounds.{
  is_skipped, deduplicate_one_still, deduplicate_one_moves, deduplicate-Kept,
}
use dedup.Replacing.{replace, Context, dedup_clone, deduplicate_one, deduplicate}

module _ (os : Os) where
  -- A change of state in which every file stays, with the attributes that it had and with blocks
  -- of the same content.
  module _ {X : Type 0} (content : ℕ → X) where
    pub record SameContent (s t : os.State) : Type 0 where
      pub kept :
          (p : CString) (f : File)
          → os.file s p ≡ some f
          → (g : File) × (os.file t p ≡ some g)
            × (content g.blocks ≡ content f.blocks)
            × (g.attributes ≡ f.attributes)

    pub SameContent-refl : (s : os.State) → SameContent s s
    SameContent-refl s = record { kept = λ p f there. (f, there, refl, refl) }

    pub SameContent-trans : (s t u : os.State) → SameContent s t → SameContent t u → SameContent s u
    SameContent-trans s t u a b = record {
      kept = λ p f there.
          let (g, at_g, blocks, attributes) = a.kept p f there in
          let (h, at_h, blocks', attributes') = b.kept p g at_g in
          (h, at_h, blocks' ∙ blocks, attributes' ∙ attributes);
    }

    -- There is a file at the path, and its content is the one given.
    abbrev pub Holds : os.State → X → Pointer → Type 0
    Holds s c fm = (f : File) × (os.file s fm.target.path ≡ some f) × (content f.blocks ≡ c)

    pub Holds-SameContent :
        (s t : os.State) (c : X) (fm : Pointer) → SameContent s t → Holds s c fm → Holds t c fm
    Holds-SameContent s t c fm kept (f, there, same) =
        let (g, at_g, blocks, _) = kept.kept fm.target.path f there in (g, at_g, blocks ∙ same)

    pub All-Holds :
        (s t : os.State) (c : X) (fms : List Pointer)
        → SameContent s t
        → All (Holds s c) fms
        → All (Holds t c) fms
    All-Holds s t c [] kept all = tt
    All-Holds s t c (fm ∷ fms) kept all =
        (Holds-SameContent s t c fm kept all.0, All-Holds s t c fms kept all.1)

    module _ (P : IsPosix os) where
      replacement-SameContent :
          (origin fm : Pointer) (c : X) (s : os.State) (o : ℕ × os.State)
          → IsReplacement os origin.target.path fm.target.path s o
          → Holds s c origin
          → Holds s c fm
          → SameContent s o.1
      replacement-SameContent origin fm c s o replaced (f, at_f, same_f) (g, at_g, same_g) =
          record {
            kept = λ p h there.
                let exists : os.file s p ≢ none = λ e. cc (e, there) in
                elim (Bool-cases (o.0 == 0)) [
                  | inr bad ↦ (h, replaced.failed (ground arith) p exists ∙ there, refl, refl)
                  | inl good ↦ elim (CString-discrete p fm.target.path) [
                    | no apart ↦ (h, replaced.other p exists apart ∙ there, refl, refl)
                    | yes at_p ↦
                        let h-g : some h ≡ some g = sym there ∙ ap (os.file s) at_p ∙ at_g in
                        let same : h ≡ g = some-injective h g h-g in
                        (
                          record f { attributes = g.attributes },
                          ap (os.file o.1) at_p ∙ replaced.done (ground arith) f g at_f at_g,
                          same_f ∙ sym same_g ∙ ap (λ (x : File). content x.blocks) (sym same),
                          ap (λ (x : File). x.attributes) (sym same),
                        )
                  ]
                ];
          }

      deduplicate_one-SameContent :
          (origin : Pointer) (id : ℕ) (fm : Pointer) (ctx : Context) (c : X) (s : os.State)
          → ctx.replace_mode ≡ dedup_clone
          → Holds s c origin
          → Holds s c fm
          → SameContent s (deduplicate_one os origin id fm ctx s).1
      unfolding replace
      deduplicate_one-SameContent origin id fm ctx c s mode at_origin at_fm =
          elim (Bool-cases (is_skipped origin ctx fm || ctx.dry_run)) [
            | inl still ↦
                rw (deduplicate_one_still os origin id fm ctx s still) (SameContent-refl s)
            | inr moves ↦
                rw (deduplicate_one_moves os origin id fm ctx s moves, replace, mode)
                  (replacement-SameContent origin fm c s _
                    (replace_with_clone-IsReplacement os P origin.target.path fm.target.path
                      ctx.preserve_parent_mtime s)
                    at_origin at_fm)
          ]

      -- Where files are replaced by clones, and the files of the set have one content: every file
      -- that there was, in the set or not, is still there, with its attributes and its content.
      pub deduplicate-SameContent :
          (rb : RbTree) (L : IsRbTree rb) (fms : List Pointer) (ctx : Context) (c : X)
          (s : os.State)
          → ctx.replace_mode ≡ dedup_clone
          → All (Holds s c) fms
          → SameContent s (deduplicate os rb fms ctx s).1
      deduplicate-SameContent rb L fms ctx c s mode at_fms =
          deduplicate-Kept os dedup_clone SameContent SameContent-refl SameContent-trans
            (λ t fm. Holds t c fm) (λ t u fm. Holds-SameContent t u c fm)
            (λ origin id fm ctx t. deduplicate_one-SameContent origin id fm ctx c t) rb L fms ctx s
            mode at_fms
